-- ===== src/Vt/History/Contents.antt =====
-- The history is a queue that forgets its oldest line when it is full.
use native.Mathlib.Nat.{mod-eq_of_lt, mod-eq-sub-mod}
use mathlib.Core.List.{append-nil}
use pairmux.Prelude.{
  ℕ, suc, ◌+◌, ◌-◌, ◌%◌, ◌≤◌, ◌<◌, ◌≡◌, ◌≢◌, ◌∙◌, ap, sym, List, [], ◌∷◌, ◌++◌, ltb, ◌==◌,
  if◌then◌else◌, arith, inl, inr, length, get_or, set, take, drop, length-append, length-set,
  length-take, length-drop, get_or-append, get_or-take, get_or-drop, get_or-set, get_or-above,
  list_ext, Bool-cases,
}
use pairmux.Vt.History.{History, len, at, push}

-- The lines, oldest first.
unfoldable pub contents : History → List (List ℕ)
contents h = drop h.head h.lines ++ take h.head h.lines

-- The ring has turned only once it is full.
pub record IsRing (h : History) : Type 0 where
  pub bounded : length h.lines ≤ h.limit
  pub head_in : h.head ≤ length h.lines
  pub head_lt : h.head ≢ 0 → h.head < length h.lines
  pub turned : h.head ≢ 0 → length h.lines ≡ h.limit

-- What the queue holds after a push: at most `limit` lines, the newest ones.
abbrev pub remember : ℕ → List (List ℕ) → List ℕ → List (List ℕ)
remember limit q l =
    if limit == 0 then q else if ltb (length q) limit then q ++ (l ∷ []) else drop 1 q ++ (l ∷ [])

pub length-contents : (h : History) → IsRing h → length (contents h) ≡ length h.lines
unfolding contents
length-contents h v = omega (
  arith,
  length-append (drop h.head h.lines) (take h.head h.lines),
  length-drop h.head h.lines,
  length-take h.head h.lines,
  v.head_in,
)

get_or-contents :
    (h : History) (i : ℕ)
    → IsRing h
    → get_or (contents h) i [] ≡ (
        if ltb i (length h.lines - h.head)
        then get_or h.lines (h.head + i) []
        else if ltb i (length h.lines)
        then get_or h.lines (h.head + i - length h.lines) []
        else [])
unfolding contents
get_or-contents h i v = ground (
  arith,
  v.head_in,
  get_or-append (drop h.head h.lines) (take h.head h.lines) i [],
  length-drop h.head h.lines,
  get_or-drop h.head h.lines i [],
  get_or-take h.head h.lines (i - length (drop h.head h.lines)) [],
)

wrap : (a n : ℕ) → n ≤ a → a < n + n → a % n ≡ a - n
wrap a n h k = mod-eq-sub-mod h ∙ mod-eq_of_lt (omega arith)

-- On a ring within its limit, index `i` below the length reads entry `i` of the queue of the lines
-- in order, the oldest first.
pub at-contents : (h : History) (i : ℕ) → IsRing h → i < len h → at h i ≡ get_or (contents h) i []
unfolding at
at-contents h i v lt = elim (Bool-cases (ltb i (length h.lines - h.head))) [
  | inl e ↦
      ap (λ k. get_or h.lines k []) (mod-eq_of_lt (ground arith))
      ∙ ground (arith, get_or-contents h i v)
  | inr e ↦
      ap (λ k. get_or h.lines k []) (wrap _ _ (ground arith) (ground (arith, v.head_in)))
      ∙ ground (arith, get_or-contents h i v)
]

push-full-IsRing :
    (h : History) (l : List ℕ)
    → IsRing h
    → h.limit ≢ 0
    → length h.lines ≡ h.limit
    → IsRing (record h { lines = set h.lines h.head l; head = (h.head + 1) % length h.lines })
push-full-IsRing h l v pos full = record {
  bounded = omega (arith, length-set h.lines h.head l);
  head_in = omega (arith, length-set h.lines h.head l);
  head_lt = λ _. omega (arith, length-set h.lines h.head l);
  turned = λ _. omega (arith, length-set h.lines h.head l);
}

-- Pushing a line keeps the ring within its limit: the head is inside the lines, and moves only
-- once the ring is full.
pub push-IsRing : (h : History) (l : List ℕ) → IsRing h → IsRing (push h l)
unfolding push
push-IsRing h l v = elim (Bool-cases (h.limit == 0)) [
  | inl e ↦ rw e v
  | inr e ↦ elim (Bool-cases (ltb (length h.lines) h.limit)) [
    | inl e' ↦
        rw (e, e')
          (record {
            bounded = ground (arith, length-append h.lines (l ∷ []));
            head_in = omega (arith, length-append h.lines (l ∷ []), v.head_in);
            head_lt = λ ne. omega (arith, length-append h.lines (l ∷ []), v.head_lt ne);
            turned = λ ne. ground (arith, v.turned ne);
          })
    | inr e' ↦ rw (e, e') (push-full-IsRing h l v (ground arith) (ground (arith, v.bounded)))
  ]
]

get_or-remember_full :
    (q : List (List ℕ)) (l : List ℕ) (i : ℕ)
    → 0 < length q
    → get_or (drop 1 q ++ (l ∷ [])) i [] ≡ (
        if ltb (suc i) (length q) then get_or q (suc i) [] else if suc i == length q then l else [])
get_or-remember_full q l i pos = ground (
  arith,
  get_or-append (drop 1 q) (l ∷ []) i [],
  get_or-drop 1 q i [],
  length-drop 1 q,
  get_or-above (l ∷ []) (i - length (drop 1 q)) [],
)

module _ (h : History) (l : List ℕ) (v : IsRing h) (pos : h.limit ≢ 0) where
  module _ (full : length h.lines ≡ h.limit) where
    abbrev turned_ring : History
    turned_ring = record h { lines = set h.lines h.head l; head = (h.head + 1) % length h.lines }

    head_below : h.head < length h.lines
    head_below = ground (arith, v.head_lt)

    -- The new head, with the wrap written out.
    next_head :
        (h.head + 1) % length h.lines
        ≡ (if ltb (h.head + 1) (length h.lines) then h.head + 1 else 0)
    next_head = elim (Bool-cases (ltb (h.head + 1) (length h.lines))) [
      | inl e ↦ rw e (mod-eq_of_lt (ground arith))
      | inr e ↦ rw e (
          wrap (h.head + 1) (length h.lines) (ground arith) (omega (arith, head_below))
          ∙ ground (arith, head_below))
    ]

    get_or-turned_ring :
        (i : ℕ) → get_or (contents turned_ring) i [] ≡ get_or (drop 1 (contents h) ++ (l ∷ [])) i []
    get_or-turned_ring i = ground (
      arith,
      next_head,
      head_below,
      get_or-contents turned_ring i (push-full-IsRing h l v pos full),
      length-set h.lines h.head l,
      get_or-set h.lines h.head l (turned_ring.head + i) [],
      get_or-set h.lines h.head l (turned_ring.head + i - length h.lines) [],
      get_or-remember_full (contents h) l i,
      length-contents h v,
      get_or-contents h (suc i) v,
    )

    contents-turned_ring : contents turned_ring ≡ drop 1 (contents h) ++ (l ∷ [])
    contents-turned_ring =
        list_ext _ _ []
          (omega (
            arith,
            length-contents turned_ring (push-full-IsRing h l v pos full),
            length-set h.lines h.head l,
            length-append (drop 1 (contents h)) (l ∷ []),
            length-drop 1 (contents h),
            length-contents h v,
            head_below,
          ))
          get_or-turned_ring

  -- A ring with room has not turned, and the line goes behind the others.
  contents-appended :
      length h.lines < h.limit
      → contents (record h { lines = h.lines ++ (l ∷ []) }) ≡ contents h ++ (l ∷ [])
  unfolding contents
  contents-appended room =
      let unturned : h.head ≡ 0 = ground (arith, v.turned) in
      rw unturned
        (append-nil (h.lines ++ (l ∷ [])) ∙ ap (λ q. q ++ (l ∷ [])) (sym (append-nil h.lines)))

-- On a ring within its limit, pushing a line is pushing it onto the queue of the lines in order,
-- which keeps the newest `limit` of them.
pub contents-push :
    (h : History) (l : List ℕ) → IsRing h → contents (push h l) ≡ remember h.limit (contents h) l
unfolding push
contents-push h l v = elim (Bool-cases (h.limit == 0)) [
  | inl e ↦ rw e
  | inr e ↦ elim (Bool-cases (ltb (length h.lines) h.limit)) [
    | inl e' ↦
        rw (e, length-contents h v, e') (contents-appended h l v (ground arith) (ground arith))
    | inr e' ↦
        rw (e, length-contents h v, e')
          (contents-turned_ring h l v (ground arith) (ground (arith, v.bounded)))
  ]
]
