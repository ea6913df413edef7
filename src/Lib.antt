-- ===== src/Lib.antt =====
-- pairmux: the terminal emulator, how the end of a command is found and its output shaped, and the
-- commands run and wait of the command line.
--
-- pairmux lets a person and a coding agent share terminal sessions. Its own multiplexer runs each
-- session in a pseudo-terminal and feeds what the program writes to a virtual terminal, the
-- package internal/vt. The virtual terminal keeps the screen that the agent captures, the
-- scrollback history, the modes and the cursor; for each chunk of bytes it returns the bytes that
-- may be forwarded to an attached person's terminal and the replies that the program awaits.
--
-- A command that an agent runs is followed in the journal of its terminal (internal/journal): the
-- raw log holds the bytes of the session, the event log the starts and ends of commands. The
-- package internal/detect scans the raw log for the marks that the shell prints, completes a
-- command at its mark, and judges whether a quiet terminal asks for input; internal/shape turns
-- the bytes of a command into the text that the agent reads.
--
-- The command line (internal/cli) composes these. run settles an earlier command, records the start
-- of its own, sends it through the multiplexer, waits, and records the end; wait polls a terminal
-- for the conditions that the agent names, a handoff to a person among them.
--
-- The files follow the packages:
--   Vt/Cell, Vt/State      the types of internal/vt/screen.go: cell, attr, line, savedCursor,
--                          Modes and Screen, with New, resetState and resetTabs
--   Vt/Row                 what screen.go and printASCII of parser.go do to the cells of one row
--   Vt/History             history of screen.go, the bounded ring of scrolled-out lines
--   Vt/Text                appendLineText, and the uses of unicode/utf8 and strconv
--   Vt/Scroll              scrolling, erasing, index, insert and delete line
--   Vt/Cursor              moves, tabs, save and restore, buffer switches, resets
--   Vt/Width               internal/vt/width.go, the width of a code point
--   Vt/Print               printGlyph, combine, widen, joinPrev, printRune, printASCII
--   Vt/Params, Vt/Sgr      params, and sgr with its extended colors, of internal/vt/csi.go
--   Vt/Csi, Vt/Dispatch    the CSI functions of csi.go, and dispatchCSI
--   Vt/Render              internal/vt/render.go, the repaint
--   Vt/Resize              Resize, resizeRows, cellsFromText and Capture of screen.go
--   Vt/Utf8                utf8.FullRune and utf8.DecodeRune as parser.go uses them
--   Vt/Strings             osc, dcs and the APC query of internal/vt/parser.go
--   Vt/Parser              the states of parser.go, one function for each handler, and Feed
--   Vt/Wf                  the invariant of a screen, which the files called Safe preserve
--   Core                   the types of internal/core/core.go
--   Detect/Scanner         internal/detect/scanner.go, the marks of the stream
--   Detect/Watch           boundedSentinel and CompletionWatcher of internal/detect/wait.go
--   Detect/Wait            waitCompletion, and waitCompletionCorrelated of await.go
--   Detect/Status          DeriveStatus and scanForMark of wait.go
--   Detect/Prompt          internal/detect/await.go and tty.go, the judgement of a quiet terminal
--   Detect/Outcome         the results of a wait
--   Detect/Ready           WaitReady, WaitPromptCycle and Quiesce of internal/detect/wait.go
--   Shape/Escapes          StripANSI, dropEscapes and StripBoundary of internal/shape/shape.go
--   Shape/Overwrites       CollapseCR and the pattern promptSPRe
--   Shape/Echo             DropEchoedCommand
--   Shape/Truncate, Shape/Render   Truncate, and Render with its trimming of blank lines
--   Journal/Raw            Size, ReadRange and TailBytes of internal/journal/journal.go
--   Journal/Events         NextCmdID and PendingCmd
--   Journal/Locks          AcquireWriteLock, AcquireSendLock and the holders
--   Muxd/Keys              keyBytes of internal/muxd/keys.go
--   Muxd/Frames            the messages and frames of internal/muxd/proto.go
--   State/Names            the names of terminals and endpoints, of internal/state/state.go and
--                          internal/mux/mux.go
--   Cli/Wait               the names, notes and patterns of internal/cli/wait.go
--   Cli/Target, Cli/Poll   waitTarget and pollWaitTarget of wait.go, with the envelopes
--   Cli/Flags, Cli/Output  the arguments and the shaping helpers of internal/cli/cli.go
--   Cli/Run, Cli/Send      cmdRun and recordAndSendCommand of internal/cli/commands.go
--   Cli/Notes, Cli/Keys    the notes that a run surfaces, and the keys that send admits
--   Cli/Quote, Cli/Log     quotedCommandHint, and the ranges of the log command
--   Bytes                  what these use of Go's bytes, strings and strconv
--   Prelude, Tests         lists, tests and lemmas; the runs at concrete inputs
--
-- A function of the source keeps its name in snake case and takes the screen first; the screen
-- that it returns is the one the source leaves behind its pointer. `out` and `reply`, the results
-- of Feed, are fields of the screen as in the source. A handler that decides whether its sequence
-- is forwarded returns that flag too. A row operation of the source that writes into a slice is a
-- function on the list of cells; `buf` is the buffer that the source's pointer selects.
--
-- Numbers. Columns, rows, modes and counts are natural numbers. The source clamps where its
-- integers could fall below 0, and subtraction here stops there. A parameter saturates at 65535,
-- so no sum of the source overflows a 64-bit int; an omitted parameter, -1 there, is `none`.
--
-- Loops on fuel. printASCII prints a byte at least in each round. The ground state consumes a
-- byte at least in each round, finishRune shortens its buffer in each round but the last, and a
-- byte that aborts a string or a sequence is looked at again at most twice, so that Feed has fuel
-- for three rounds a byte. The search of inRanges halves its interval. A wait has fuel for a round
-- each millisecond of its timeout, since a round sleeps that long at least, and so have the waits
-- for a new shell; the send lock has fuel for the 201 attempts that fit into its two seconds; the
-- scans of shape.go have a round for each byte.
--
-- Time and files. A time is a number of milliseconds. What a round of a wait meets, the log, the
-- clock and the judgement of the prompt, is an argument of the round, so that a theorem holds
-- whatever the other processes do in between. A read of a range that exists yields its bytes.
--
-- Parameters. The categories Mn, Me and Cf of Go's package unicode are a record of three tests;
-- nothing is assumed of them.
--
-- The patterns by which a line is recognized as a prompt are a record of tests, since they are
-- regular expressions of the package regexp; the pattern of the wait command is a test too. The
-- discipline of a terminal and what its processes do are read from the operating system, and are
-- arguments. flock decides an attempt to lock, and how much of the pid a holder records is an
-- argument too. The digest in the name of an endpoint, SHA-256 in hexadecimal, is a function; eight
-- letters or digits are assumed of it.
--
-- Not modelled: the scratch buffers and the discarding of the forward stream, which save
-- allocations only; the encoding of events, of meta.json and of the messages by encoding/json; in
-- internal/cli/wait.go the arming of a target and the loop over several; in commands.go the
-- commands other than run, and the hints for the next step; and the packages around these
-- (sessions, MCP server, tmux backend), which are mostly input and output.
pub mod Prelude
pub mod Bytes
pub mod Core
pub mod Detect
pub mod Shape
pub mod Journal
pub mod Muxd
pub mod State
pub mod Cli
pub mod Tests
pub mod Vt
