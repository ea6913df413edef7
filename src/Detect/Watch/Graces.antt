-- ===== src/Detect/Watch/Graces.antt =====
-- Commands that complete though a mark is missing: a D without a C.
use pairmux.Prelude.{ℕ, ◌+◌, some, false, length}
use pairmux.Bytes.{codes}
use pairmux.Bytes.Numbers.{pos}
use pairmux.Core.{hooks}
use pairmux.Detect.Scanner.{Mark, mark_d, Scanner}
use pairmux.Detect.Scanner.Emitted.{printed}
use pairmux.Detect.Watch.{Watcher, new_watcher, grace_no_c}

-- The D mark that begins at `start`.
abbrev pub bare_done : ℕ → ℕ → Mark
bare_done start code = record {
  kind = mark_d;
  exit_code = pos code;
  start = start;
  end' = start + length (printed (codes "133;D;") code);
}

-- A watcher in hooks mode that has read up to `off`, and the same when it holds a D.
abbrev fresh : ℕ → ℕ → Scanner → Watcher
fresh from off sc = record (new_watcher from hooks false) { off = off; sc = sc }

abbrev holding : ℕ → ℕ → Scanner → Mark → ℕ → Watcher
holding from off sc d seen = record (fresh from off sc) {
  held_d = some d;
  grace_end = seen + grace_no_c;
}
