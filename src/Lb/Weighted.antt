-- ===== src/Lb/Weighted.antt =====
-- internal/lb/selector.go: the weighted selector gives each backend its share.
use gslb.Prelude.{
  ℕ, ◌+◌, ◌%◌, ◌≤◌, ◌<◌, ◌≡◌, refl, ap, ◌∙◌, pos, some, List, [], ◌∷◌, ◌++◌, true, false,
  Bool-cases, lt→ltb, leb_ℤ, ltb, inl, inr, arith,
}
use native.Mathlib.Decide.{dec_lt}
use gslb.Types.{Backend}
use gslb.Lb.{word, next_count, share, total_weight, find_offset, weighted_select}

-- The sum of the shares, with no wrap.
abbrev pub shares : List Backend → ℕ
shares [] = 0
shares (b ∷ rest) = share b + shares rest

total_weight-eq : (l : List Backend) → shares l < word → total_weight l ≡ shares l
unfolding total_weight
total_weight-eq [] h = refl
total_weight-eq (b ∷ rest) h = rw (total_weight-eq rest (omega arith)) (omega arith)

-- `b` is the backend of the list whose range of offsets, as long as its share, has `offset`.
abbrev pub Owns : ℕ → Backend → List Backend → Type 0
Owns offset b l =
    (before : List Backend) × (after : List Backend) × (l ≡ before ++ b ∷ after)
    × (shares before ≤ offset)
    × (offset < shares before + share b)

module _ (offset current : ℕ) (b : Backend) (rest : List Backend) where
  find_offset_skip :
      leb_ℤ b.weight (pos 0) ≡ true
      → find_offset offset current (b ∷ rest) ≡ find_offset offset current rest
  unfolding find_offset
  find_offset_skip skip = rw skip

  find_offset_here :
      leb_ℤ b.weight (pos 0) ≡ false
      → current + share b < word
      → offset < current + share b
      → find_offset offset current (b ∷ rest) ≡ some b
  unfolding find_offset
  find_offset_here counts fits lt =
      let small : (current + share b) % word ≡ current + share b = omega arith in
      rw (counts, small, lt→ltb _ _ lt)

  find_offset_later :
      leb_ℤ b.weight (pos 0) ≡ false
      → current + share b < word
      → current + share b ≤ offset
      → find_offset offset current (b ∷ rest) ≡ find_offset offset (current + share b) rest
  unfolding find_offset
  find_offset_later counts fits le =
      let small : (current + share b) % word ≡ current + share b = omega arith in
      let past : ltb offset (current + share b) ≡ false = ground arith in rw (counts, small, past)

-- `b` owns `offset` in a list whose ranges begin at `current`.
abbrev OwnsFrom : ℕ → ℕ → Backend → List Backend → Type 0
OwnsFrom current offset b l =
    (before : List Backend) × (after : List Backend) × (l ≡ before ++ b ∷ after)
    × (current + shares before ≤ offset)
    × (offset < current + shares before + share b)

find_offset-OwnsFrom :
    (offset current : ℕ) (l : List Backend)
    → current ≤ offset
    → offset < current + shares l
    → current + shares l < word
    → (b : Backend) × (find_offset offset current l ≡ some b) × OwnsFrom current offset b l
find_offset-OwnsFrom offset current [] lo hi fits = absurd (omega arith)
find_offset-OwnsFrom offset current (b ∷ rest) lo hi fits =
    elim (Bool-cases (leb_ℤ b.weight (pos 0))) [
      | inl skip ↦
          let no_share : share b ≡ 0 = ground (arith, skip) in
          let (c, found, (before, after, e, h, k)) =
            find_offset-OwnsFrom offset current rest lo (omega arith) (omega arith) in
          (
            c,
            find_offset_skip offset current b rest skip ∙ found,
            (b ∷ before, after, ap (λ (x : List Backend). b ∷ x) e, omega arith, omega arith),
          )
      | inr counts ↦ elim (dec_lt offset (current + share b)) [
        | yes lt ↦ (
          b,
          find_offset_here offset current b rest counts (omega arith) lt,
          ([], rest, refl, omega arith, omega arith),
        )
        | no ge ↦
            let (c, found, (before, after, e, h, k)) =
              find_offset-OwnsFrom offset (current + share b) rest (omega arith) (omega arith)
                (omega arith) in
            (
              c,
              find_offset_later offset current b rest counts (omega arith) (omega arith) ∙ found,
              (b ∷ before, after, ap (λ (x : List Backend). b ∷ x) e, omega arith, omega arith),
            )
      ]
    ]

-- While the weights add up to less than 2^64 and not to 0, a call of the weighted selector on a
-- list selects the backend that owns the offset `count % total`: the ranges of the backends follow
-- one another in the order of the list, each as long as its weight (a weight that is not positive
-- has an empty range), so that of `total` offsets each backend has as many as its weight. The
-- fallback after the loop is not reached.
weighted_select-Owns :
    (counter : ℕ) (l : List Backend)
    → 0 < shares l
    → shares l < word
    → (b : Backend) × ((weighted_select counter l).0 ≡ some b)
      × Owns (next_count counter % shares l) b l
unfolding weighted_select
weighted_select-Owns counter [] positive fits = elim positive [ ]
weighted_select-Owns counter (c ∷ rest) positive fits =
    let count = next_count counter in
    let below : count % shares (c ∷ rest) < shares (c ∷ rest) = grind arith in
    let (b, found, (before, after, e, h, k)) =
      find_offset-OwnsFrom (count % shares (c ∷ rest)) 0 (c ∷ rest) (omega arith) (omega arith)
        (omega arith) in
    (
      b,
      rw (total_weight-eq (c ∷ rest) fits) (ground (arith, found, positive)),
      (before, after, e, omega arith, omega arith),
    )
