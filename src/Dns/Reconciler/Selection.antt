-- ===== src/Dns/Reconciler/Selection.antt =====
-- internal/dns/reconciler.go: which backends are healthy, and which of them is chosen.
use mathlib.Core.List.{append_assoc, append-nil}
use mathlib.Core.Path.{subst₂}
use gslb.Prelude.{
  ℕ, ◌≤◌, ◌<◌, to_ℕ, ltb_ℤ, ltb, false, ◌≡◌, refl, sym, ap, List, [], ◌∷◌, ◌++◌, All, All-append,
  Bool-cases, inl, inr, arith, ltb→lt, lt→ltb, ◌⊎◌,
}
use gslb.Types.{Backend, weighted}
use gslb.Dns.Reconciler.{effective_weight, select_from, select_weighted, choose}

-- The weight by which a backend is ranked, as a number: lower is better.
abbrev pub rank : Backend → ℕ
rank b = to_ℕ (effective_weight b)

ltb-effective_weight :
    (a b : Backend) → ltb_ℤ (effective_weight a) (effective_weight b) ≡ ltb (rank a) (rank b)
ltb-effective_weight a b = ground arith

-- `b` has the lowest rank of the list, and every one before it a higher one.
abbrev pub IsPrimary : Backend → List Backend → Type 0
IsPrimary b l =
    (before : List Backend) × (after : List Backend) × (l ≡ before ++ b ∷ after)
    × All (λ x. rank b < rank x) before
    × All (λ x. rank b ≤ rank x) after

All-imp :
    (P Q : Backend → Type 0) → ((x : Backend) → P x → Q x) → (l : List Backend) → All P l → All Q l
All-imp P Q f [] h = tt
All-imp P Q f (x ∷ l) h = (f x h.0, All-imp P Q f l h.1)

lower :
    (a b : Backend) (l : List Backend)
    → rank a < rank b
    → All (λ x. rank b ≤ rank x) l
    → All (λ x. rank a < rank x) l
lower a b l h = All-imp (λ x. rank b ≤ rank x) (λ x. rank a < rank x) (λ x k. omega arith) l

lower_strict :
    (a b : Backend) (l : List Backend)
    → rank a < rank b
    → All (λ x. rank b < rank x) l
    → All (λ x. rank a < rank x) l
lower_strict a b l h = All-imp (λ x. rank b < rank x) (λ x. rank a < rank x) (λ x k. omega arith) l

select_from_lower :
    (best b : Backend) (rest : List Backend)
    → rank b < rank best
    → select_from best (b ∷ rest) ≡ select_from b rest
unfolding select_from
select_from_lower best b rest h = rw (ltb-effective_weight, lt→ltb _ _ h)

select_from_kept :
    (best b : Backend) (rest : List Backend)
    → ltb (rank b) (rank best) ≡ false
    → select_from best (b ∷ rest) ≡ select_from best rest
unfolding select_from
select_from_kept best b rest h = rw (ltb-effective_weight, h)

select_from-IsPrimary :
    (best : Backend) (rest pre mid : List Backend)
    → All (λ x. rank best < rank x) pre
    → All (λ x. rank best ≤ rank x) mid
    → IsPrimary (select_from best rest) (pre ++ best ∷ (mid ++ rest))
unfolding select_from
select_from-IsPrimary best [] pre mid hp hm = (pre, mid, rw append-nil, hp, hm)
select_from-IsPrimary best (b ∷ rest) pre mid hp hm = elim (Bool-cases (ltb (rank b) (rank best))) [
  | inl test ↦
      let below : rank b < rank best = ltb→lt _ _ test in
      subst₂ IsPrimary (sym (select_from_lower best b rest below))
        (append_assoc pre (best ∷ mid) (b ∷ rest))
        (select_from-IsPrimary b rest (pre ++ best ∷ mid) []
          (All-append (λ x. rank b < rank x) pre (best ∷ mid) (lower_strict b best pre below hp)
            (below, lower b best mid below hm))
          tt)
  | inr test ↦
      subst₂ IsPrimary (sym (select_from_kept best b rest test))
        (ap (λ (l : List Backend). pre ++ best ∷ l) (append_assoc mid (b ∷ []) rest))
        (select_from-IsPrimary best rest pre (mid ++ b ∷ []) hp
          (All-append (λ x. rank best ≤ rank x) mid (b ∷ []) hm (ground arith, tt)))
]

-- For a weighted config the reconciler publishes one backend of a list that is not empty: one
-- with the lowest weight (a weight that is not positive counts as 1), and the first of these.
-- For an empty list it publishes none.
pub choose-weighted :
    (healthy : List Backend)
    → ((healthy ≡ []) × (choose weighted healthy ≡ []))
      ⊎ ((b : Backend) × (choose weighted healthy ≡ b ∷ []) × IsPrimary b healthy)
unfolding choose select_weighted
choose-weighted [] = inl (refl, refl)
choose-weighted (b ∷ rest) =
    inr (select_from b rest, refl, select_from-IsPrimary b rest [] [] tt tt)
