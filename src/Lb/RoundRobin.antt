-- ===== src/Lb/RoundRobin.antt =====
-- internal/lb/selector.go: the round-robin selector is fair.
use gslb.Prelude.{
  ℕ, suc, ◌+◌, ◌-◌, ◌%◌, ◌<◌, ◌≡◌, refl, List, ◌∷◌, length, get_elem?, zero, ap, sym, ◌∙◌, [],
  arith,
}
use native.Mathlib.Decide.{dec_le}
use gslb.Types.{Backend}
use gslb.Lb.{word, next_count, round_robin_select}

-- The index of the call after `count` calls.
abbrev index : ℕ → List Backend → ℕ
index count l = (count + 1) % length l

index-onto : (c n i : ℕ) → i < n → (j : ℕ) × (j < n) × ((c + j + 1) % n ≡ i)
index-onto c n i h = elim (dec_le ((c + 1) % n) i) [
  | yes le ↦ (i - (c + 1) % n, omega arith, grind arith)
  | no gt ↦ (i + n - (c + 1) % n, grind arith, grind arith)
]

index-inj : (c n j k : ℕ) → j < n → k < n → (c + j + 1) % n ≡ (c + k + 1) % n → j ≡ k
index-inj c n j k hj hk e = grind arith

-- The counter after `k` calls with the same backends.
unfoldable counter_after : ℕ → ℕ → List Backend → ℕ
counter_after zero counter l = counter
counter_after (suc k) counter l = counter_after k (round_robin_select counter l).1 l

counter_after-eq :
    (k counter : ℕ) (b : Backend) (l : List Backend)
    → counter + k < word
    → counter_after k counter (b ∷ l) ≡ counter + k
unfolding counter_after round_robin_select
counter_after-eq zero counter b l h = omega arith
counter_after-eq (suc k) counter b l h =
    let step : next_count counter ≡ counter + 1 = omega arith in
    rw step (counter_after-eq k (counter + 1) b l (omega arith) ∙ omega arith)

-- The index that the call after `k` calls selects.
abbrev selected_index : ℕ → ℕ → List Backend → ℕ
selected_index k counter l = next_count (counter_after k counter l) % length l

round_robin_select-selected_index :
    (k counter : ℕ) (b : Backend) (l : List Backend)
    → (round_robin_select (counter_after k counter (b ∷ l)) (b ∷ l)).0
      ≡ get_elem? (b ∷ l) (selected_index k counter (b ∷ l))
unfolding round_robin_select
round_robin_select-selected_index k counter b l = refl

selected_index-eq :
    (k counter : ℕ) (b : Backend) (l : List Backend)
    → counter + k + 1 < word
    → selected_index k counter (b ∷ l) ≡ (counter + k + 1) % length (b ∷ l)
selected_index-eq k counter b l h =
    rw (counter_after-eq k counter b l (omega arith))
      (ap (λ (x : ℕ). x % length (b ∷ l)) (omega arith))

-- Any `n` calls in a row with the same `n` backends select each of them exactly once, as long as
-- the counter does not reach 2^64: for every index there is one of the calls, and no other, that
-- selects the backend at that index.
round_robin_fair :
    (counter : ℕ) (l : List Backend) (i : ℕ)
    → i < length l
    → counter + length l < word
    → (k : ℕ) × (k < length l)
      × ((round_robin_select (counter_after k counter l) l).0 ≡ get_elem? l i)
      × ((j : ℕ) → j < length l → selected_index j counter l ≡ i → j ≡ k)
round_robin_fair counter [] i h bound = elim h [ ]
round_robin_fair counter (b ∷ l) i h bound =
    let (k, below, hit) = index-onto counter (length (b ∷ l)) i h in
    let at : selected_index k counter (b ∷ l) ≡ i =
      selected_index-eq k counter b l (omega arith) ∙ hit in
    (
      k,
      below,
      round_robin_select-selected_index k counter b l ∙ ap (get_elem? (b ∷ l)) at,
      λ j hj e.
          index-inj counter (length (b ∷ l)) j k hj below
            (sym (selected_index-eq j counter b l (omega arith)) ∙ e ∙ sym hit),
    )
