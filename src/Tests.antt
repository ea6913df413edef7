-- ===== src/Tests.antt =====
-- Runs of the terminal emulator: the properties at concrete inputs.
pub mod Shape
pub mod Journal
pub mod Detect
pub mod Muxd
pub mod Cli
pub mod State
use pairmux.Prelude.{
  ℕ, zero, suc, ◌+◌, ◌*◌, ◌≤◌, ◌<◌, ◌≡◌, refl, inr, List, [], ◌∷◌, ◌++◌, some, none, true, false,
  within, arith, length, get_or, if◌then◌else◌, ◌==◌,
}
use pairmux.Vt.Cell.{Cell, zero_cell, zero_attr, cell_at, blank_of}
use pairmux.Vt.Csi.{decset}
use pairmux.Vt.Csi.Safe.{IsHandled, decset-IsHandled}
use pairmux.Vt.Cursor.{cursor_down, move_to, next_tab, tabs_forward, full_reset}
use pairmux.Vt.Cursor.Safe.{cursor_down-IsScreen, new-IsScreen, full_reset-IsScreen}
use pairmux.Vt.Cursor.Tabs.{IsNextStop, next_tab-IsNextStop, tabs_forward_bounds}
use pairmux.Vt.Dispatch.{dispatch_csi}
use pairmux.Vt.Dispatch.Safe.{dispatch_csi-IsHandled}
use pairmux.Vt.History.{History, at, push, pop_newest}
use pairmux.Vt.History.Contents.{
  IsRing, contents, remember, at-contents, contents-push, push-IsRing,
}
use pairmux.Vt.History.Newest.{contents-pop_newest}
use pairmux.Vt.Params.{Params, parse, count, flush, add_digit}
use pairmux.Vt.Params.Bounds.{IsParams, parse-IsParams, count_bounds}
use pairmux.Vt.Parser.Chunks.{string_append-append}
use pairmux.Vt.Parser.{string_append, Term, in_ground, in_string_esc}
use pairmux.Vt.Parser.Feed.{feed-IsScreen}
use pairmux.Vt.Parser.Loop.{feed, feed_loop}
use pairmux.Vt.Parser.Total.{feed_loop-consumes, feed_loop-fuel}
use pairmux.Vt.Print.{print_ascii, print_glyph, print_rune}
use pairmux.Vt.Print.Ascii.{print_each, print_ascii-eq-print_each, print_ascii-append}
use pairmux.Vt.Print.Combine.{print_rune-IsScreen}
use pairmux.Vt.Print.Safe.{print_glyph-IsScreen}
use pairmux.Vt.Render.{esc}
use pairmux.Vt.Resize.{resize}
use pairmux.Vt.Resize.Safe.{HasSize, resize-IsScreen}
use pairmux.Vt.Row
use pairmux.Vt.Row.Glyphs.{cell_at-put_glyph, narrow, put_glyph-IsRow, put_widened-IsRow}
use pairmux.Vt.Row.Paired.{IsPaired, IsRow}
use pairmux.Vt.Row.Runs.{put_each, put_run-eq-put_each}
use pairmux.Vt.Row.Erasing.{erase_cells-IsRow, fit_cells-IsRow}
use pairmux.Vt.Row.Shifts.{insert_cells-IsRow, delete_cells-IsRow}
use pairmux.Vt.Scroll.{erase_display, scroll_up, scroll_down}
use pairmux.Vt.Scroll.Safe.{erase_display-IsScreen, scroll_up-IsScreen, scroll_down-IsScreen}
use pairmux.Vt.State.{Screen, new, start_tabs, reset_state}
use pairmux.Vt.Text.{codes}
use pairmux.Vt.Width.{Unicode}
use pairmux.Vt.Wf.{IsScreen}

-- The combining diacritical marks, and the zero-width characters of General Punctuation.
abbrev unicode : Unicode
unicode = record { mn = within 0x300 0x36F; me = within 0x20DD 0x20E0; cf = within 0x200B 0x200F }

abbrev start : Term
start = record {
  screen = new 8 3 2;
  state = in_ground;
  seq = [];
  str_kind = 0;
  str_overflow = false;
  csi_overflow = false;
  ubuf = [];
}

-- Text, a wide glyph, a scroll region, the alternate screen and a string that is not ended.
abbrev input : List ℕ
input =
    codes "one"
    ++ (0xE4 ∷ 0xB8 ∷ 0xAD ∷ [])
    ++ (esc ∷ codes "[1;2r")
    ++ (esc ∷ codes "[?1049h")
    ++ (esc ∷ codes "]0;title")

abbrev drawn : Screen
drawn = (feed unicode start input).screen

drawn-IsScreen : IsScreen drawn
drawn-IsScreen = feed-IsScreen unicode start input (new-IsScreen 8 3 2)

feed-IsScreen_example : IsScreen (feed unicode start input).screen
feed-IsScreen_example = feed-IsScreen unicode start input (new-IsScreen 8 3 2)

feed_loop-consumes_example :
    (feed_loop unicode (3 * length input + 3) (record start { state = in_string_esc }) input).1 ≡ []
feed_loop-consumes_example =
    feed_loop-consumes unicode (record start { state = in_string_esc }) input

print_ascii-eq-print_each_example :
    print_ascii drawn (codes "hello, world") ≡ print_each drawn (codes "hello, world")
print_ascii-eq-print_each_example =
    print_ascii-eq-print_each drawn (codes "hello, world") drawn-IsScreen

-- A ring that has turned: its oldest line is at index 1.
abbrev turned_ring : History
turned_ring = record { lines = codes "c" ∷ codes "b" ∷ []; head = 1; limit = 2 }

turned_ring-IsRing : IsRing turned_ring
turned_ring-IsRing = record {
  bounded = omega arith;
  head_in = omega arith;
  head_lt = λ _. omega arith;
  turned = λ _. refl;
}

contents-push_example :
    contents (push turned_ring (codes "d")) ≡ remember 2 (contents turned_ring) (codes "d")
contents-push_example = contents-push turned_ring (codes "d") turned_ring-IsRing

-- The cursor is in the last row, so that a row scrolls out when there is one row less.
abbrev low_cursor : Screen
low_cursor = cursor_down (new 8 3 2) 2

low_cursor_rows : low_cursor.rows ≡ 3
unfolding cursor_down new move_to reset_state
low_cursor_rows = refl

resize-IsScreen_example :
    IsScreen (resize unicode low_cursor 5 2) × HasSize 5 2 (resize unicode low_cursor 5 2)
resize-IsScreen_example =
    resize-IsScreen unicode low_cursor 5 2 (cursor_down-IsScreen (new 8 3 2) 2 (new-IsScreen 8 3 2))
      (inr (omega (arith, low_cursor_rows)))
