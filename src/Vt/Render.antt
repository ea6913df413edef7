-- ===== src/Vt/Render.antt =====
-- internal/vt/render.go: the bytes that repaint the screen.
use pairmux.Prelude.{
  ℕ, ◌+◌, ◌-◌, List, [], ◌∷◌, ◌++◌, Bool, true, false, not, ◌&&◌, ◌||◌, ltb, ◌==◌, if◌then◌else◌,
}
use pairmux.Vt.Cell.{Color, default_color, indexed, rgb, Attr, zero_attr, Cell, Line, cell_at}
use pairmux.Vt.State.{Screen, buf, line_at}
use pairmux.Vt.Text.{codes, decimal, encode_rune, is_empty, trim_end}

abbrev pub esc : ℕ
esc = 0x1B

abbrev pub bool_eq : Bool → Bool → Bool
bool_eq true b = b
bool_eq false b = not b

unfoldable color_eq : Color → Color → Bool
color_eq default_color default_color = true
color_eq (indexed a) (indexed b) = a == b
color_eq (rgb a b c) (rgb x y z) = (a == x) && (b == y) && (c == z)
color_eq _ _ = false

-- `==` on `attr`
unfoldable pub attr_eq : Attr → Attr → Bool
unfolding color_eq
attr_eq a b =
    color_eq a.fg b.fg
    && color_eq a.bg b.bg
    && color_eq a.ulc b.ulc
    && bool_eq a.bold b.bold
    && bool_eq a.dim b.dim
    && bool_eq a.italic b.italic
    && bool_eq a.blink b.blink
    && bool_eq a.reverse b.reverse
    && bool_eq a.invisible b.invisible
    && bool_eq a.strike b.strike
    && bool_eq a.overline b.overline
    && (a.ul == b.ul)

-- `c == cell{}`
unfoldable is_zero_cell : Cell → Bool
unfolding attr_eq is_empty
is_zero_cell c = (c.r == 0) && not c.wide && not c.pad && attr_eq c.a zero_attr && is_empty c.comb

-- `appendCellText`
unfoldable cell_bytes : Cell → List ℕ
unfolding encode_rune
cell_bytes c = if c.r == 0 then b' ' ∷ [] else encode_rune c.r ++ c.comb

-- `appendCUP`
unfoldable cup : ℕ → ℕ → List ℕ
unfolding decimal
cup row col =
    esc ∷ b'[' ∷ (decimal row ++ ((if col == 1 then [] else b';' ∷ decimal col) ++ (b'H' ∷ [])))

-- `appendMode`
unfoldable mode_bytes : ℕ → Bool → List ℕ
unfolding decimal
mode_bytes mode on = esc ∷ b'[' ∷ b'?' ∷ (decimal mode ++ ((if on then b'h' else b'l') ∷ []))

-- `appendRGB`
unfoldable rgb_bytes : ℕ → ℕ → ℕ → ℕ → List ℕ
unfolding decimal
rgb_bytes a b c sep = decimal a ++ (sep ∷ (decimal b ++ (sep ∷ decimal c)))

-- `appendColor`
unfoldable color_bytes : Color → ℕ → ℕ → List ℕ → List ℕ
unfolding decimal rgb_bytes
color_bytes default_color base bright ext = decimal (base + 9)
color_bytes (indexed i) base bright ext =
    if ltb i 8
    then decimal (base + i)
    else if ltb i 16
    then decimal (bright + i - 8)
    else ext ++ (codes ";5;" ++ decimal i)
color_bytes (rgb a b c) base bright ext = ext ++ (codes ";2;" ++ rgb_bytes a b c b';')

-- The underline color of `appendSGR`.
unfoldable ulc_bytes : Color → List ℕ
unfolding decimal rgb_bytes
ulc_bytes default_color = []
ulc_bytes (indexed i) = codes "58:5:" ++ decimal i
ulc_bytes (rgb a b c) = codes "58:2::" ++ rgb_bytes a b c b':'

-- A parameter behind those before it: the closure `sep`, then the text.
unfoldable then_param : Bool → List ℕ → List ℕ → List ℕ
unfolding is_empty
then_param false text b = b
then_param true text b = b ++ ((if is_empty b then [] else b';' ∷ []) ++ text)

-- Whether `appendSGR` starts from a reset.
unfoldable needs_reset : Attr → Attr → Bool
unfolding attr_eq color_eq
needs_reset from to =
    attr_eq to zero_attr
    || (from.bold && not to.bold)
    || (from.dim && not to.dim)
    || (from.italic && not to.italic)
    || (from.blink && not to.blink)
    || (from.reverse && not to.reverse)
    || (from.invisible && not to.invisible)
    || (from.strike && not to.strike)
    || (from.overline && not to.overline)
    || (not (from.ul == 0) && (to.ul == 0))
    || (not (color_eq from.fg default_color) && color_eq to.fg default_color)
    || (not (color_eq from.bg default_color) && color_eq to.bg default_color)
    || (not (color_eq from.ulc default_color) && color_eq to.ulc default_color)

-- The parameters of `appendSGR` from the rendition that is left after a reset, if there is one.
unfoldable sgr_params : Attr → Attr → List ℕ → List ℕ
unfolding then_param color_eq color_bytes ulc_bytes decimal
sgr_params from to b0 =
    let b1 = then_param (to.bold && not from.bold) (codes "1") b0 in
    let b2 = then_param (to.dim && not from.dim) (codes "2") b1 in
    let b3 = then_param (to.italic && not from.italic) (codes "3") b2 in
    let b4 = then_param (to.blink && not from.blink) (codes "5") b3 in
    let b5 = then_param (to.reverse && not from.reverse) (codes "7") b4 in
    let b6 = then_param (to.invisible && not from.invisible) (codes "8") b5 in
    let b7 = then_param (to.strike && not from.strike) (codes "9") b6 in
    let b8 = then_param (to.overline && not from.overline) (codes "53") b7 in
    let b9 =
      then_param (not (to.ul == from.ul))
        (if to.ul == 1 then codes "4" else codes "4:" ++ decimal to.ul) b8 in
    let b10 = then_param (not (color_eq to.fg from.fg)) (color_bytes to.fg 30 90 (codes "38")) b9 in
    let b11 =
      then_param (not (color_eq to.bg from.bg)) (color_bytes to.bg 40 100 (codes "48")) b10 in
    then_param (not (color_eq to.ulc from.ulc)) (ulc_bytes to.ulc) b11

-- `appendSGR`
unfoldable sgr_bytes : Attr → Attr → List ℕ
unfolding sgr_params needs_reset attr_eq
sgr_bytes from to =
    let body =
      if needs_reset from to then sgr_params zero_attr to (b'0' ∷ []) else sgr_params from to [] in
    if attr_eq from to then [] else esc ∷ b'[' ∷ (body ++ (b'm' ∷ []))

-- The cells of one row, with the rendition that the row leaves.
unfoldable cells_bytes : Attr → List Cell → List ℕ × Attr
unfolding sgr_bytes cell_bytes attr_eq
cells_bytes cur [] = ([], cur)
cells_bytes cur (c ∷ cs) =
    let next = if c.pad then cur else c.a in
    let rest = cells_bytes next cs in
    ((if c.pad then rest.0 else sgr_bytes cur c.a ++ (cell_bytes c ++ rest.0)), rest.1)

-- The rows from row `y` on.
unfoldable rows_bytes : ℕ → Attr → List Line → List ℕ × Attr
unfolding cells_bytes cup is_zero_cell trim_end is_empty
rows_bytes y cur [] = ([], cur)
rows_bytes y cur (l ∷ ls) =
    let shown = trim_end is_zero_cell l.cells in
    let row = cells_bytes cur shown in
    let rest = rows_bytes (y + 1) row.1 ls in
    ((if is_empty shown then [] else cup (y + 1) 1 ++ row.0) ++ rest.0, rest.1)

-- The cursor, redrawn over the last glyph of its row while a wrap is pending.
unfoldable cursor_bytes : Screen → Attr → List ℕ × Attr
unfolding cup sgr_bytes cell_bytes
cursor_bytes s cur =
    let row = s.cy - (if (s.modes).origin_mode then s.top else 0) in
    let cells = (line_at s s.cy).cells in
    let last = s.cols - 1 in
    let x = if (cell_at cells last).pad && ltb 0 last then last - 1 else last in
    let c = cell_at cells x in
    if s.pending_wrap
    then (cup (row + 1) (x + 1) ++ (sgr_bytes cur c.a ++ cell_bytes c), c.a)
    else (cup (row + 1) (s.cx + 1), cur)

-- The modes, from insert mode to the cursor style.
unfoldable modes_bytes : Screen → List ℕ
unfolding mode_bytes decimal
modes_bytes s =
    let m = s.modes in
    (if m.insert then esc ∷ codes "[4h" else [])
    ++ ((if m.autowrap then [] else esc ∷ codes "[?7l")
        ++ (mode_bytes 1 m.app_cursor
            ++ ((if m.app_keypad then esc ∷ codes "=" else esc ∷ codes ">")
                ++ (mode_bytes 2004 m.bracketed_paste
                    ++ (mode_bytes 1004 m.focus_events
                        ++ ((esc ∷ codes "[?9;1000;1002;1003l")
                            ++ ((if m.mouse_tracking == 0
                                  then []
                                  else mode_bytes m.mouse_tracking true)
                                ++ ((esc ∷ codes "[?1005;1006;1015;1016l")
                                    ++ ((if m.mouse_encoding == 0
                                          then []
                                          else mode_bytes m.mouse_encoding true)
                                        ++ (esc
                                            ∷ b'['
                                            ∷ (decimal s.cursor_style ++ codes " q")))))))))))

-- The designations that are not ASCII, from `G0` on; `marks` are the bytes of "()*+" left.
unfoldable sets_bytes : List ℕ → List ℕ → List ℕ
sets_bytes (set ∷ g) (mark ∷ marks) =
    (if set == b'0' then esc ∷ mark ∷ b'0' ∷ [] else []) ++ sets_bytes g marks
sets_bytes _ _ = []

-- `appendRender(nil)`
unfoldable pub render : Screen → List ℕ
unfolding rows_bytes cursor_bytes modes_bytes sets_bytes sgr_bytes decimal is_empty
render s =
    let rows = rows_bytes 0 zero_attr (buf s) in
    let cursor = cursor_bytes s rows.1 in
    (esc ∷ codes "[?25l")
    ++ ((esc ∷ codes "[?6l")
        ++ ((esc ∷ codes "[r")
            ++ ((esc ∷ codes "[4l")
                ++ ((esc ∷ codes "[?7h")
                    ++ ((esc ∷ codes "(B")
                        ++ ((esc ∷ codes ")B")
                            ++ ((esc ∷ codes "*B")
                                ++ ((esc ∷ codes "+B")
                                    ++ (0x0F
                                        ∷ ((esc ∷ codes "[0m")
                                            ++ ((esc ∷ codes "[H")
                                                ++ ((esc ∷ codes "[2J")
                                                    ++ (rows.0
                                                        ++ ((if s.top == 0
                                                            && (s.bottom == s.rows - 1)
                                                            then []
                                                            else esc
                                                            ∷ b'['
                                                            ∷ (decimal (s.top + 1)
                                                            ++ (b';'
                                                            ∷ (decimal (s.bottom + 1)
                                                            ++ codes "r"))))
                                                            ++ ((if (s.modes).origin_mode
                                                            then esc ∷ codes "[?6h"
                                                            else [])
                                                            ++ (cursor.0
                                                            ++ (modes_bytes s
                                                            ++ (sets_bytes s.g (codes "()*+")
                                                            ++ ((if s.gl == 1
                                                            then 0x0E ∷ []
                                                            else if s.gl == 2
                                                            then esc ∷ codes "n"
                                                            else if s.gl == 3
                                                            then esc ∷ codes "o"
                                                            else [])
                                                            ++ (sgr_bytes cursor.1 s.pen
                                                            ++ ((if is_empty s.title
                                                            then []
                                                            else esc ∷ codes "]2;"
                                                            ++ (s.title ++ (0x07 ∷ [])))
                                                            ++ (if (s.modes).cursor_visible
                                                            then esc ∷ codes "[?25h"
                                                            else []))))))))))))))))))))))
