-- ===== src/Vt/Width.antt =====
-- internal/vt/width.go. The categories Mn, Me and Cf are those of Go's package unicode.
use pairmux.Prelude.{
  ℕ, zero, suc, ◌+◌, ◌/◌, List, [], ◌∷◌, Bool, true, false, ◌&&◌, ◌||◌, ltb, leb, within,
  if◌then◌else◌, length, get_or,
}

-- The tests of Go's package unicode that `isZeroWidth` makes.
pub record Unicode : Type 0 where
  pub mn : ℕ → Bool
  pub me : ℕ → Bool
  pub cf : ℕ → Bool

abbrev RuneRange : Type 0
RuneRange = ℕ × ℕ

abbrev wide_ranges : List RuneRange
wide_ranges =
    (0x1100, 0x115F)
    ∷ (0x231A, 0x231B)
    ∷ (0x2329, 0x232A)
    ∷ (0x23E9, 0x23EC)
    ∷ (0x23F0, 0x23F0)
    ∷ (0x23F3, 0x23F3)
    ∷ (0x25FD, 0x25FE)
    ∷ (0x2614, 0x2615)
    ∷ (0x2630, 0x2637)
    ∷ (0x2648, 0x2653)
    ∷ (0x267F, 0x267F)
    ∷ (0x268A, 0x268F)
    ∷ (0x2693, 0x2693)
    ∷ (0x26A1, 0x26A1)
    ∷ (0x26AA, 0x26AB)
    ∷ (0x26BD, 0x26BE)
    ∷ (0x26C4, 0x26C5)
    ∷ (0x26CE, 0x26CE)
    ∷ (0x26D4, 0x26D4)
    ∷ (0x26EA, 0x26EA)
    ∷ (0x26F2, 0x26F3)
    ∷ (0x26F5, 0x26F5)
    ∷ (0x26FA, 0x26FA)
    ∷ (0x26FD, 0x26FD)
    ∷ (0x2705, 0x2705)
    ∷ (0x270A, 0x270B)
    ∷ (0x2728, 0x2728)
    ∷ (0x274C, 0x274C)
    ∷ (0x274E, 0x274E)
    ∷ (0x2753, 0x2755)
    ∷ (0x2757, 0x2757)
    ∷ (0x2795, 0x2797)
    ∷ (0x27B0, 0x27B0)
    ∷ (0x27BF, 0x27BF)
    ∷ (0x2B1B, 0x2B1C)
    ∷ (0x2B50, 0x2B50)
    ∷ (0x2B55, 0x2B55)
    ∷ (0x2E80, 0x2E99)
    ∷ (0x2E9B, 0x2EF3)
    ∷ (0x2F00, 0x2FD5)
    ∷ (0x2FF0, 0x2FFF)
    ∷ (0x3000, 0x303E)
    ∷ (0x3041, 0x3096)
    ∷ (0x3099, 0x30FF)
    ∷ (0x3105, 0x312F)
    ∷ (0x3131, 0x318E)
    ∷ (0x3190, 0x31E5)
    ∷ (0x31EF, 0x321E)
    ∷ (0x3220, 0x3247)
    ∷ (0x3250, 0xA48C)
    ∷ (0xA490, 0xA4C6)
    ∷ (0xA960, 0xA97C)
    ∷ (0xAC00, 0xD7A3)
    ∷ (0xF900, 0xFAFF)
    ∷ (0xFE10, 0xFE19)
    ∷ (0xFE30, 0xFE52)
    ∷ (0xFE54, 0xFE66)
    ∷ (0xFE68, 0xFE6B)
    ∷ (0xFF01, 0xFF60)
    ∷ (0xFFE0, 0xFFE6)
    ∷ (0x16FE0, 0x16FE4)
    ∷ (0x16FF0, 0x16FF1)
    ∷ (0x17000, 0x187F7)
    ∷ (0x18800, 0x18CD5)
    ∷ (0x18D00, 0x18D08)
    ∷ (0x1AFF0, 0x1AFF3)
    ∷ (0x1AFF5, 0x1AFFB)
    ∷ (0x1AFFD, 0x1AFFE)
    ∷ (0x1B000, 0x1B122)
    ∷ (0x1B132, 0x1B132)
    ∷ (0x1B150, 0x1B152)
    ∷ (0x1B155, 0x1B155)
    ∷ (0x1B164, 0x1B167)
    ∷ (0x1B170, 0x1B2FB)
    ∷ (0x1D300, 0x1D356)
    ∷ (0x1D360, 0x1D376)
    ∷ (0x1F004, 0x1F004)
    ∷ (0x1F0CF, 0x1F0CF)
    ∷ (0x1F18E, 0x1F18E)
    ∷ (0x1F191, 0x1F19A)
    ∷ (0x1F200, 0x1F202)
    ∷ (0x1F210, 0x1F23B)
    ∷ (0x1F240, 0x1F248)
    ∷ (0x1F250, 0x1F251)
    ∷ (0x1F260, 0x1F265)
    ∷ (0x1F300, 0x1F320)
    ∷ (0x1F32D, 0x1F335)
    ∷ (0x1F337, 0x1F37C)
    ∷ (0x1F37E, 0x1F393)
    ∷ (0x1F3A0, 0x1F3CA)
    ∷ (0x1F3CF, 0x1F3D3)
    ∷ (0x1F3E0, 0x1F3F0)
    ∷ (0x1F3F4, 0x1F3F4)
    ∷ (0x1F3F8, 0x1F43E)
    ∷ (0x1F440, 0x1F440)
    ∷ (0x1F442, 0x1F4FC)
    ∷ (0x1F4FF, 0x1F53D)
    ∷ (0x1F54B, 0x1F54E)
    ∷ (0x1F550, 0x1F567)
    ∷ (0x1F57A, 0x1F57A)
    ∷ (0x1F595, 0x1F596)
    ∷ (0x1F5A4, 0x1F5A4)
    ∷ (0x1F5FB, 0x1F64F)
    ∷ (0x1F680, 0x1F6C5)
    ∷ (0x1F6CC, 0x1F6CC)
    ∷ (0x1F6D0, 0x1F6D2)
    ∷ (0x1F6D5, 0x1F6D7)
    ∷ (0x1F6DC, 0x1F6DF)
    ∷ (0x1F6EB, 0x1F6EC)
    ∷ (0x1F6F4, 0x1F6FC)
    ∷ (0x1F7E0, 0x1F7EB)
    ∷ (0x1F7F0, 0x1F7F0)
    ∷ (0x1F90C, 0x1F93A)
    ∷ (0x1F93C, 0x1F945)
    ∷ (0x1F947, 0x1F9FF)
    ∷ (0x1FA70, 0x1FA7C)
    ∷ (0x1FA80, 0x1FA89)
    ∷ (0x1FA8F, 0x1FAC6)
    ∷ (0x1FACE, 0x1FADC)
    ∷ (0x1FADF, 0x1FAE9)
    ∷ (0x1FAF0, 0x1FAF8)
    ∷ (0x20000, 0x2FFFD)
    ∷ (0x30000, 0x3FFFD)
    ∷ []

abbrev zero_width_extra : List RuneRange
zero_width_extra = (0x1160, 0x11FF) ∷ (0xD7B0, 0xD7FF) ∷ []

-- The binary search of `inRanges` on fuel; the interval loses an entry in each round.
in_ranges_loop : ℕ → List RuneRange → ℕ → ℕ → ℕ → Bool
in_ranges_loop zero tab r lo hi = false
in_ranges_loop (suc fuel) tab r lo hi =
    let m = (lo + hi) / 2 in
    let left = in_ranges_loop fuel tab r lo m in
    let right = in_ranges_loop fuel tab r (m + 1) hi in
    let range = get_or tab m (0, 0) in
    if ltb lo hi
    then (if ltb r range.0 then left else if ltb range.1 r then right else true)
    else false

unfoldable pub in_ranges : List RuneRange → ℕ → Bool
unfolding in_ranges_loop
in_ranges tab r = in_ranges_loop (length tab) tab r 0 (length tab)

module _ (u : Unicode) where
  unfoldable pub is_zero_width : ℕ → Bool
  is_zero_width r =
      if ltb r 0x300
      then false
      else if u.mn r || u.me r || in_ranges zero_width_extra r
      then true
      else u.cf r

  -- `RuneWidth`; a decoder returns no negative rune.
  unfoldable pub rune_width : ℕ → ℕ
  rune_width r =
      if ltb r 0x20
      then 0
      else if ltb r 0x7F
      then 1
      else if ltb r 0xA0
      then 0
      else if ltb r 0x300
      then 1
      else if ltb 0x10FFFF r
      then 1
      else if is_zero_width r
      then 0
      else if leb 0x1100 r && in_ranges wide_ranges r
      then 2
      else 1

abbrev pub is_regional_indicator : ℕ → Bool
is_regional_indicator r = within 0x1F1E6 0x1F1FF r
