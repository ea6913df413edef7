-- ===== src/Vt/Resize/Buffers.antt =====
-- Resizing a buffer keeps its rows well formed, unless it pulls lines back from the history.
use pairmux.Prelude.{
  ℕ, ◌+◌, ◌-◌, ◌≤◌, ◌<◌, ◌≡◌, ◌⊎◌, inl, inr, refl, subst, min, Bool, false, ◌&&◌, ltb,
  if◌then◌else◌, length, take, drop, replicate, arith, if_intro, length-take, length-drop,
  length-append, length-replicate,
}
use pairmux.Prelude.All.{All-append, All-take, All-drop, All-replicate}
use pairmux.Vt.Cell.{zero_cell}
use pairmux.Vt.History.{len}
use pairmux.Vt.History.Contents.{IsRing}
use pairmux.Vt.Scroll.Rows.{replicate-IsRow}
use pairmux.Vt.Scroll.Safe.{push_all-IsRing}
use pairmux.Vt.State.{new_line}
use pairmux.Vt.Resize.{Rows, scroll_off, shrink_rows, pull_lines, grow_rows, resize_rows}
use pairmux.Vt.Width.{Unicode}
use pairmux.Vt.Wf.{IsLine, IsBuffer}

-- A buffer of a number of rows, and a history within its limit.
pub record IsRows (cols rows : ℕ) (r : Rows) : Type 0 where
  pub buffer : IsBuffer cols rows r.lines
  pub ring : IsRing r.hist

scroll_off-IsRows :
    (cols rows : ℕ) (r : Rows) (needed : ℕ) (is_main : Bool)
    → IsRows cols (rows + needed) r
    → IsRows cols rows (scroll_off r needed is_main)
unfolding scroll_off
scroll_off-IsRows cols rows r needed is_main w =
    if_intro (IsRows cols rows) (is_main && ltb 0 (r.hist).limit) _ _
      (λ _. record { buffer = kept; ring = push_all-IsRing r.hist (take needed r.lines) w.ring })
      (λ _. record { buffer = kept; ring = w.ring })
  where
    kept : IsBuffer cols rows (drop needed r.lines)
    kept = (
      omega (arith, length-drop needed r.lines, w.buffer.0),
      All-drop (IsLine cols) needed r.lines w.buffer.1,
    )

shrink_rows-IsRows :
    (cols old rows : ℕ) (r : Rows) (is_main : Bool)
    → rows < old
    → IsRows cols old r
    → IsRows cols rows (shrink_rows r rows is_main)
unfolding shrink_rows
shrink_rows-IsRows cols old rows r is_main h w =
    let n = length r.lines in
    let avail = min (n - 1 - r.cy) (n - rows) in
    let lines = take (n - avail) r.lines in
    scroll_off-IsRows cols rows (record r { lines = lines }) (n - rows - avail) is_main
      (record {
        buffer = (
          omega (arith, length-take (n - avail) r.lines, w.buffer.0),
          All-take (IsLine cols) (n - avail) r.lines w.buffer.1,
        );
        ring = w.ring;
      })

-- Nothing is pulled back from the history.
abbrev pub PullsNone : Rows → Bool → Type 0
PullsNone r is_main = (is_main ≡ false) ⊎ (r.hscrolled ≡ 0)

grow_rows-IsRows :
    (u : Unicode) (cols old rows : ℕ) (r : Rows) (is_main : Bool)
    → old < rows
    → PullsNone r is_main
    → IsRows cols old r
    → IsRows cols rows (grow_rows u cols r rows is_main)
unfolding grow_rows pull_lines
grow_rows-IsRows u cols old rows r is_main h p w =
    let needed : ℕ = rows - length r.lines in
    let none : (if is_main then min needed (min r.hscrolled (len r.hist)) else 0) ≡ 0 = elim p [
      | inl e ↦ ground arith
      | inr e ↦ ground arith
    ] in
    let blank = replicate (needed - 0) (new_line cols) in
    rw none (record {
      buffer = (
        omega (
          arith,
          length-append r.lines blank,
          length-replicate (needed - 0) (new_line cols),
          w.buffer.0,
        ),
        All-append (IsLine cols) r.lines blank w.buffer.1 (
            All-replicate (IsLine cols) (needed - 0) (new_line cols)
              (replicate-IsRow cols zero_cell refl refl)),
      );
      ring = w.ring;
    })

pub resize_rows-IsRows :
    (u : Unicode) (cols old rows : ℕ) (r : Rows) (is_main : Bool)
    → PullsNone r is_main ⊎ (rows ≤ old)
    → IsRows cols old r
    → IsRows cols rows (resize_rows u cols r rows is_main)
unfolding resize_rows
resize_rows-IsRows u cols old rows r is_main p w =
    let size = w.buffer.0 in
    if_intro (IsRows cols rows) (ltb rows (length r.lines)) _ _
      (λ e. shrink_rows-IsRows cols old rows r is_main (ground arith) w)
      (λ e.
        if_intro (IsRows cols rows) (ltb (length r.lines) rows) _ _
          (λ f. elim p [
            | inl q ↦ grow_rows-IsRows u cols old rows r is_main (ground arith) q w
            | inr q ↦ absurd (ground arith)
          ])
          (λ f. subst (λ n. IsRows cols n r) (ground arith) w))
