-- ===== src/Vt/Sgr.antt =====
-- `sgr` of internal/vt/csi.go: Select Graphic Rendition applied to the pen.
use pairmux.Prelude.{
  ℕ, zero, suc, ◌+◌, ◌-◌, List, [], ◌∷◌, Option, none, some, Bool, true, false, ◌&&◌, ◌||◌, ltb,
  leb, ◌==◌, within, if◌then◌else◌, length, get_or, take, drop,
}
use pairmux.Vt.Cell.{Color, default_color, indexed, rgb, Attr, zero_attr}
use pairmux.Vt.Params.{Params, value_or}

-- A component of an RGB color: an omitted one is 0, one above 255 is refused.
abbrev component : Option ℕ → Option ℕ
component none = some 0
component (some n) = if ltb 255 n then none else some n

rgb_of : Option ℕ → Option ℕ → Option ℕ → Option Color
rgb_of (some a) (some b) (some c) = some (rgb a b c)
rgb_of _ _ _ = none

-- The colors of `extColor` once the colorspace id is skipped.
direct_color : List (Option ℕ) → Option Color
unfolding rgb_of
direct_color (a ∷ b ∷ c ∷ rest) = rgb_of (component a) (component b) (component c)
direct_color _ = none

palette_color : List (Option ℕ) → Option Color
palette_color (some n ∷ rest) = if leb n 255 then some (indexed n) else none
palette_color _ = none

-- `extColor`
unfoldable ext_color : List (Option ℕ) → Bool → Option Color
unfolding palette_color direct_color
ext_color [] colon = none
ext_color (none ∷ rest) colon = none
ext_color (some kind ∷ rest) colon =
    if kind == 5
    then palette_color rest
    else if kind == 2
    then direct_color (if colon && leb 4 (length rest) then drop 1 rest else rest)
    else none

-- `extColorSemi`: the color, and how many parameters the form spans.
unfoldable ext_color_semi : Params → ℕ → Option Color × ℕ
unfolding ext_color
ext_color_semi p i =
    let n = length p.v in
    let v = λ (k : ℕ). get_or p.v k none in
    if leb n i
    then (none, 0)
    else if value_or (v i) 0 == 5
    then (if ltb (i + 1) n then (ext_color (some 5 ∷ v (i + 1) ∷ []) false, 2) else (none, 0))
    else if value_or (v i) 0 == 2
    then (if ltb (i + 3) n
        then (ext_color (some 2 ∷ v (i + 1) ∷ v (i + 2) ∷ v (i + 3) ∷ []) false, 4)
        else (none, 0))
    else (none, 0)

-- The underline style that `4` selects.
underline : List (Option ℕ) → ℕ
underline [] = 1
underline (none ∷ rest) = 0
underline (some st ∷ rest) = if st == 0 then 0 else if leb st 5 then st else 1

-- The cases of `sgr` on one parameter but for the extended colors.
unfoldable sgr_plain : ℕ → List (Option ℕ) → Attr → Attr
unfolding underline
sgr_plain v subs a =
    if v == 0
    then zero_attr
    else if v == 1
    then record a { bold = true }
    else if v == 2
    then record a { dim = true }
    else if v == 3
    then record a { italic = true }
    else if v == 4
    then record a { ul = underline subs }
    else if v == 5 || v == 6
    then record a { blink = true }
    else if v == 7
    then record a { reverse = true }
    else if v == 8
    then record a { invisible = true }
    else if v == 9
    then record a { strike = true }
    else if v == 21
    then record a { ul = 2 }
    else if v == 22
    then record a { bold = false; dim = false }
    else if v == 23
    then record a { italic = false }
    else if v == 24
    then record a { ul = 0 }
    else if v == 25
    then record a { blink = false }
    else if v == 27
    then record a { reverse = false }
    else if v == 28
    then record a { invisible = false }
    else if v == 29
    then record a { strike = false }
    else if within 30 37 v
    then record a { fg = indexed (v - 30) }
    else if v == 39
    then record a { fg = default_color }
    else if within 40 47 v
    then record a { bg = indexed (v - 40) }
    else if v == 49
    then record a { bg = default_color }
    else if v == 53
    then record a { overline = true }
    else if v == 55
    then record a { overline = false }
    else if v == 59
    then record a { ulc = default_color }
    else if within 90 97 v
    then record a { fg = indexed (v - 90 + 8) }
    else if within 100 107 v
    then record a { bg = indexed (v - 100 + 8) }
    else a

-- The assignment of an extended color.
unfoldable set_color : ℕ → Option Color → Attr → Attr
set_color v none a = a
set_color v (some c) a =
    if v == 38
    then record a { fg = c }
    else if v == 48
    then record a { bg = c }
    else record a { ulc = c }

-- `for j < p.n && p.sub[j] { j++ }`, on the number of entries left.
unfoldable subs_end : ℕ → List Bool → ℕ → ℕ
subs_end zero sub j = j
subs_end (suc left) sub j =
    let rest = subs_end left sub (j + 1) in if get_or sub j false then rest else j

-- The loop of `sgr` from parameter `i`, on fuel: each round consumes a parameter.
unfoldable sgr_loop : ℕ → Params → ℕ → Attr → Attr
unfolding sgr_plain set_color ext_color ext_color_semi subs_end
sgr_loop zero p i a = a
sgr_loop (suc fuel) p i a =
    let n = length p.v in
    let v = value_or (get_or p.v i none) 0 in
    let j = subs_end (n - (i + 1)) p.sub (i + 1) in
    let subs = take (j - (i + 1)) (drop (i + 1) p.v) in
    let semi = ext_color_semi p j in
    let plain = sgr_loop fuel p j (sgr_plain v subs a) in
    let colon = sgr_loop fuel p j (set_color v (ext_color subs true) a) in
    let spanned = sgr_loop fuel p (j + semi.1) (set_color v semi.0 a) in
    if leb n i
    then a
    else if v == 38 || v == 48 || v == 58
    then (if ltb 0 (length subs) then colon else if semi.1 == 0 then a else spanned)
    else plain

unfoldable pub sgr : Params → Attr → Attr
unfolding sgr_loop
sgr p a = if length p.v == 0 then zero_attr else sgr_loop (length p.v) p 0 a
