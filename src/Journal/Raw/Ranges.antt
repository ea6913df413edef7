-- ===== src/Journal/Raw/Ranges.antt =====
-- What the ranges of the raw log hold.
use pairmux.Prelude.{
  ℕ, zero, suc, ◌+◌, ◌-◌, ◌≤◌, ◌<◌, ◌≡◌, refl, ap, ◌∙◌, List, [], ◌∷◌, ◌++◌, Option, some, ltb, leb,
  if◌then◌else◌, length, take, drop, arith, if_intro, length-take, length-drop, min, list_ext,
  take-append-drop, get_or, get_or-take, get_or-drop, get_or-append, length-append, sym, false,
}
use pairmux.Bytes.Numbers.{ℤ, pos, negsuc}
use pairmux.Journal.Raw.{
  RawLog, present, size, clamp_from, clamp_to, read_range, tail_from, with_offset, tail_bytes,
}

pub take-all : (n : ℕ) (b : List ℕ) → length b ≤ n → take n b ≡ b
take-all zero [] h = refl
take-all zero (x ∷ xs) h = absurd (omega arith)
take-all (suc n) [] h = refl
take-all (suc n) (x ∷ xs) h = ap (◌∷◌ x) (take-all n xs (omega arith))

-- The bytes from `i` to `j`.
abbrev between : ℕ → ℕ → List ℕ → List ℕ
between i j b = take (j - i) (drop i b)

length-between : (i j : ℕ) (b : List ℕ) → i ≤ j → j ≤ length b → length (between i j b) ≡ j - i
length-between i j b h k = omega (arith, length-take (j - i) (drop i b), length-drop i b)

get_or-between :
    (i j : ℕ) (b : List ℕ) (n : ℕ)
    → get_or (between i j b) n 0 ≡ (if ltb n (j - i) then get_or b (i + n) 0 else 0)
get_or-between i j b n = ground (arith, get_or-take (j - i) (drop i b) n 0, get_or-drop i b n 0)

between-append :
    (i j k : ℕ) (b : List ℕ)
    → i ≤ j
    → j ≤ k
    → k ≤ length b
    → between i k b ≡ between i j b ++ between j k b
between-append i j k b h1 h2 h3 =
    list_ext (between i k b) (between i j b ++ between j k b) 0
      (omega (
        arith,
        length-append (between i j b) (between j k b),
        length-between i j b h1 (omega arith),
        length-between j k b h2 h3,
        length-between i k b (omega arith) h3,
      ))
      (λ n. entry n)
  where
    entry : (n : ℕ) → get_or (between i k b) n 0 ≡ get_or (between i j b ++ between j k b) n 0
    entry n =
        let first = length-between i j b h1 (omega arith) in
        let index : ltb n (j - i) ≡ false → get_or b (i + n) 0 ≡ get_or b (j + (n - (j - i))) 0 =
          λ e. ap (λ m. get_or b m 0) (ground arith) in
        get_or-between i k b n
        ∙ sym (
            get_or-append (between i j b) (between j k b) n 0
            ∙ rw (first, get_or-between i j b n, get_or-between j k b (n - (j - i)))
                (ground (arith, index)))

-- A range within the file.
read_range-inside :
    (b : List ℕ) (i j : ℕ)
    → i ≤ j
    → j ≤ length b
    → read_range (present b) (pos i) (pos j) ≡ some (between i j b)
unfolding read_range clamp_from clamp_to
read_range-inside b i j h k =
    let from : (if ltb (length b) i then length b else i) ≡ i = ground arith in
    let to : (if ltb (length b) j then length b else j) ≡ j = ground arith in
    rw (from, to)
      (if_intro (λ r. r ≡ some (between i j b)) (leb j i) _ _
        (λ e. let none_left : j - i ≡ 0 = ground arith in rw none_left refl) (λ _. refl))

-- Two ranges of the file that meet, and the range they make up.
abbrev IsReadInTwo : RawLog → ℕ → ℕ → ℕ → Type 0
IsReadInTwo log i j k =
    (x : List ℕ) × ((y : List ℕ) × ((read_range log (pos i) (pos j) ≡ some x)
        × ((read_range log (pos j) (pos k) ≡ some y)
            × (read_range log (pos i) (pos k) ≡ some (x ++ y)))))

-- Of a log that can be read, a range up to `j` followed by the range from `j` is the range over
-- both, whatever offsets within the log these are.
read_range-IsReadInTwo :
    (b : List ℕ) (i j k : ℕ) → i ≤ j → j ≤ k → k ≤ length b → IsReadInTwo (present b) i j k
read_range-IsReadInTwo b i j k h1 h2 h3 = (
  between i j b,
  (
    between j k b,
    (
      read_range-inside b i j h1 (omega arith),
      (
        read_range-inside b j k h2 h3,
        read_range-inside b i k (omega arith) h3 ∙ ap some (between-append i j k b h1 h2 h3),
      ),
    ),
  ),
)

tail_from-le : (count : ℤ) (n : ℕ) → tail_from count n ≤ n
unfolding tail_from
tail_from-le (pos m) n = ground arith
tail_from-le (negsuc m) n = omega arith

tail_bytes-drop :
    (b : List ℕ) (count : ℤ)
    → tail_bytes (present b) count
      ≡ some (drop (tail_from count (length b)) b, tail_from count (length b))
unfolding tail_bytes size with_offset
tail_bytes-drop b count =
    let from : ℕ = tail_from count (length b) in
    let rest : between from (length b) b ≡ drop from b =
      take-all (length b - from) (drop from b) (omega (arith, length-drop from b)) in
    rw (read_range-inside b from (length b) (tail_from-le count (length b)) (omega arith), rest)
      refl

-- The last bytes of a file, `n` of them or all when there are fewer, and where they begin.
abbrev pub IsLast : List ℕ → ℕ → Option (List ℕ × ℕ) → Type 0
IsLast b n r =
    (data' : List ℕ) × ((from : ℕ) × ((r ≡ some (data', from))
        × ((take from b ++ data' ≡ b) × (length data' ≡ min n (length b)))))

-- Of a log that can be read, `TailBytes` of a positive count returns the last bytes, that many or
-- all when there are fewer, and the offset at which they begin.
pub tail_bytes-IsLast : (b : List ℕ) (n : ℕ) → 0 < n → IsLast b n (tail_bytes (present b) (pos n))
unfolding tail_from
tail_bytes-IsLast b n h =
    let from : ℕ = tail_from (pos n) (length b) in
    (
      drop from b,
      (
        from,
        (tail_bytes-drop b (pos n), (take-append-drop from b, ground (arith, length-drop from b))),
      ),
    )

drop-append : (b rest : List ℕ) → drop (length b) (b ++ rest) ≡ rest
drop-append [] rest = refl
drop-append (x ∷ xs) rest = drop-append xs rest

between-end :
    (b rest : List ℕ) (from : ℕ)
    → from ≡ length b
    → between from (length (b ++ rest)) (b ++ rest) ≡ rest
between-end b rest from e =
    let whole : List ℕ = b ++ rest in
    take-all (length whole - from) (drop from whole) (omega (arith, length-drop from whole))
    ∙ ap (λ k. drop k whole) e
    ∙ drop-append b rest

-- A read up to the size of the log.
pub read_range-rest :
    (b rest : List ℕ) (from : ℕ)
    → from ≡ length b
    → read_range (present (b ++ rest)) (pos from) (pos (length (b ++ rest))) ≡ some rest
read_range-rest b rest from e =
    rw
      (
        read_range-inside (b ++ rest) from (length (b ++ rest))
            (omega (arith, length-append b rest)) (omega arith),
        between-end b rest from e,
      )
      refl

-- What a log has gained behind an offset at which it ended.
pub read_range-end :
    (b rest : List ℕ) (from : ℕ)
    → from ≡ length b
    → read_range (present (b ++ rest)) (pos from) (negsuc 0) ≡ some rest
unfolding read_range clamp_from clamp_to
read_range-end b rest from e =
    let whole : List ℕ = b ++ rest in
    let long = length-append b rest in
    let from' : (if ltb (length whole) from then length whole else from) ≡ from =
      ground (arith, long) in
    let all : between from (length whole) whole ≡ rest = between-end b rest from e in
    rw from' (
      if_intro (λ r. r ≡ some rest) (leb (length whole) from) _ _
        (λ t. let empty : length rest ≡ 0 = ground (arith, long) in nothing rest empty)
        (λ _. ap some all))
  where
    nothing : (xs : List ℕ) → length xs ≡ 0 → ◌≡◌ {A = Option (List ℕ)} (some []) (some xs)
    nothing [] n = refl
    nothing (x ∷ xs) n = absurd (omega arith)
