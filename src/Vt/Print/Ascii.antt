-- ===== src/Vt/Print/Ascii.antt =====
-- `printASCII` of internal/vt/parser.go prints a run as `printGlyph` would byte by byte, and keeps
-- the screen well formed.
use pairmux.Prelude.{
  ℕ, zero, suc, ◌+◌, ◌-◌, ◌≤◌, ◌<◌, min, ◌≡◌, ◌∙◌, refl, sym, ap, subst, inl, List, [], ◌∷◌, ◌++◌,
  true, false, ◌||◌, ◌==◌, arith, if_intro, length, take, drop, length-take, length-drop, set-set,
  take-append-drop,
}
use pairmux.Vt.Cell.{Line}
use pairmux.Vt.Row
use pairmux.Vt.Row.Runs.{put_run-cons, put_run-one}
use pairmux.Vt.State.{Screen, line_at, set_line}
use pairmux.Vt.Print.{
  wrap_pending, write_glyph, print_glyph, print_byte, print_run, print_ascii_loop, print_ascii,
  invoked_set,
}
use pairmux.Vt.Print.Safe.{print_glyph-IsScreen}
use pairmux.Vt.Print.Combine.{line_at-set_line}
use pairmux.Vt.Wf.{IsScreen, line_at-IsLine}

-- The reference: each byte by itself.
pub print_each : Screen → List ℕ → Screen
print_each s [] = s
print_each s (b ∷ rest) = print_each (print_byte s b) rest

print_byte-IsScreen : (s : Screen) (b : ℕ) → IsScreen s → IsScreen (print_byte s b)
unfolding print_byte
print_byte-IsScreen s b w = print_glyph-IsScreen s _ 1 w (inl refl)

set_line_twice : (s : Screen) (y : ℕ) (a b : Line) → set_line (set_line s y a) y b ≡ set_line s y b
set_line_twice s y a b = ground (arith, set-set s.main y a b, set-set s.alt y a b)

-- What the fast path asks for.
pub record IsFast (s : Screen) : Type 0 where
  pub no_wrap : s.pending_wrap ≡ false
  pub replaces : (s.modes).insert ≡ false
  pub plain : (invoked_set s == b'0') ≡ false

print_byte-fast :
    (s : Screen) (b : ℕ)
    → IsScreen s
    → IsFast s
    → s.cx + 1 < s.cols
    → print_byte s b ≡ print_run s (b ∷ [])
unfolding print_byte print_glyph wrap_pending write_glyph print_run
print_byte-fast s b w f room =
    let row = line_at-IsLine s s.cy w w.cursor.row in
    ground (
      arith,
      f.no_wrap,
      f.replaces,
      f.plain,
      put_run-one (line_at s s.cy).cells s.cx b s.pen row.paired,
    )

print_run-cons :
    (s : Screen) (b c : ℕ) (run : List ℕ)
    → IsScreen s
    → s.cx + length (b ∷ c ∷ run) < s.cols
    → print_run s (b ∷ c ∷ run) ≡ print_run (print_run s (b ∷ [])) (c ∷ run)
unfolding print_run
print_run-cons s b c run w room =
    let row = line_at-IsLine s s.cy w w.cursor.row in
    let cells = (line_at s s.cy).cells in
    let first : Line = record { cells = Row.put_run cells s.cx (b ∷ []) s.pen; used = true } in
    let both : Line = record { cells = Row.put_run cells s.cx (b ∷ c ∷ run) s.pen; used = true } in
    ground (
      arith,
      line_at-set_line s s.cy first w w.cursor.row,
      set_line_twice s s.cy first both,
      put_run-one cells s.cx b s.pen row.paired,
      put_run-cons cells s.cx b s.pen row.paired c run,
      row.width,
    )

print_run-IsFast : (s : Screen) (b : ℕ) → IsFast s → IsFast (print_run s (b ∷ []))
unfolding print_run
print_run-IsFast s b f = record { no_wrap = f.no_wrap; replaces = f.replaces; plain = f.plain }

print_run-cx :
    (s : Screen) (b : ℕ)
    → ((print_run s (b ∷ [])).cx ≡ s.cx + 1) × ((print_run s (b ∷ [])).cols ≡ s.cols)
unfolding print_run
print_run-cx s b = (refl, refl)

print_run-eq-print_each :
    (s : Screen) (b : ℕ) (run : List ℕ)
    → IsScreen s
    → IsFast s
    → s.cx + length (b ∷ run) < s.cols
    → print_run s (b ∷ run) ≡ print_each s (b ∷ run)
unfolding print_each
print_run-eq-print_each s b [] w f room = sym (print_byte-fast s b w f (omega arith))
print_run-eq-print_each s b (c ∷ run) w f room =
    let one = print_byte-fast s b w f (omega arith) in
    let first = print_run s (b ∷ []) in
    let at = print_run-cx s b in
    print_run-cons s b c run w room
    ∙ print_run-eq-print_each first c run (subst IsScreen one (print_byte-IsScreen s b w))
        (print_run-IsFast s b f) (omega (arith, at.0, at.1))
    ∙ ap (λ t. print_each t (c ∷ run)) (sym one)

print_each-append :
    (s : Screen) (xs ys : List ℕ) → print_each s (xs ++ ys) ≡ print_each (print_each s xs) ys
unfolding print_each
print_each-append s [] ys = refl
print_each-append s (b ∷ xs) ys = print_each-append (print_byte s b) xs ys

print_each-IsScreen : (s : Screen) (run : List ℕ) → IsScreen s → IsScreen (print_each s run)
unfolding print_each
print_each-IsScreen s [] w = w
print_each-IsScreen s (b ∷ run) w =
    print_each-IsScreen (print_byte s b) run (print_byte-IsScreen s b w)

-- One round of the fast path.
fast-eq-print_each :
    (s : Screen) (run : List ℕ) (n : ℕ)
    → IsScreen s
    → IsFast s
    → 0 < n
    → n ≤ length run
    → s.cx + n < s.cols
    → print_run s (take n run) ≡ print_each s (take n run)
fast-eq-print_each s run zero w f pos fits room = absurd (omega arith)
fast-eq-print_each s [] (suc n) w f pos fits room = absurd (omega arith)
fast-eq-print_each s (b ∷ run) (suc n) w f pos fits room =
    print_run-eq-print_each s b (take n run) w f (omega (arith, length-take n run))

print_ascii_loop-eq-print_each :
    (fuel : ℕ) (s : Screen) (run : List ℕ)
    → IsScreen s
    → length run ≤ fuel
    → print_ascii_loop fuel s run ≡ print_each s run
unfolding print_ascii_loop print_each
print_ascii_loop-eq-print_each zero s [] w h = refl
print_ascii_loop-eq-print_each zero s (b ∷ run) w h = absurd (omega arith)
print_ascii_loop-eq-print_each (suc fuel) s [] w h = refl
print_ascii_loop-eq-print_each (suc fuel) s (b ∷ rest) w h =
    let n = min (length (b ∷ rest)) (s.cols - 1 - s.cx) in
    let run = b ∷ rest in
    if_intro (λ (t : Screen). t ≡ print_each s run)
      (n == 0 || s.pending_wrap || (s.modes).insert || (invoked_set s == b'0')) _ _
      (λ _.
        print_ascii_loop-eq-print_each fuel (print_byte s b) rest (print_byte-IsScreen s b w)
          (omega arith))
      (λ e.
        let f : IsFast s = record {
          no_wrap = ground arith;
          replaces = ground arith;
          plain = ground arith;
        } in
        let same =
          fast-eq-print_each s run n w f (ground arith) (omega arith)
            (ground (arith, w.cursor.col)) in
        let w' = subst IsScreen (sym same) (print_each-IsScreen s (take n run) w) in
        print_ascii_loop-eq-print_each fuel (print_run s (take n run)) (drop n run) w'
          (ground (arith, length-drop n run))
        ∙ ap (λ t. print_each t (drop n run)) same
        ∙ sym (print_each-append s (take n run) (drop n run))
        ∙ ap (print_each s) (take-append-drop n run))

-- On a well-formed screen, printing a run of bytes through the fast path of `printASCII` leaves
-- exactly the screen that printing them one by one through `printGlyph` leaves.
pub print_ascii-eq-print_each :
    (s : Screen) (run : List ℕ) → IsScreen s → print_ascii s run ≡ print_each s run
unfolding print_ascii
print_ascii-eq-print_each s run w =
    print_ascii_loop-eq-print_each (length run) s run w (omega arith)

pub print_ascii-IsScreen : (s : Screen) (run : List ℕ) → IsScreen s → IsScreen (print_ascii s run)
print_ascii-IsScreen s run w = rw (print_ascii-eq-print_each s run w) (print_each-IsScreen s run w)

-- On a well-formed screen, printing a run of bytes is printing its first part and then the rest,
-- wherever it is cut.
pub print_ascii-append :
    (s : Screen) (a b : List ℕ)
    → IsScreen s
    → print_ascii s (a ++ b) ≡ print_ascii (print_ascii s a) b
print_ascii-append s a b w =
    print_ascii-eq-print_each s (a ++ b) w
    ∙ print_each-append s a b
    ∙ sym (print_ascii-eq-print_each (print_each s a) b (print_each-IsScreen s a w))
    ∙ ap (λ t. print_ascii t b) (sym (print_ascii-eq-print_each s a w))
