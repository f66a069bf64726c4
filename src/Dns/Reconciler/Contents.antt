-- ===== src/Dns/Reconciler/Contents.antt =====
-- internal/dns/reconciler.go: the addresses that a config's backends give.
use gslb.Prelude.{
  String, true, ◌≡◌, refl, ◌≢◌, ◌⊎◌, inl, inr, some, List, [], ◌∷◌, ◌∙◌, sym, Any, Any-imp,
  Bool-cases, Option-cases, ltb_ℤ, str_eq, eq_iff, arith,
}
use gslb.Prelude.Dict.{Dict, lookup}
use gslb.Types.{Backend, HealthState, healthy, LbMethod, round_robin, weighted, other_method}
use gslb.Dns.Ips.{insert_sorted, extract_ips}
use gslb.Dns.Ips.Order.{extract_ips-cons}
use gslb.Dns.Reconciler.{
  is_publishable, filter_healthy, choose, select_from, select_weighted, effective_weight,
}

-- `ip` is an element of the list.
abbrev pub Lists : String → List String → Type 0
Lists ip l = Any (λ x. x ≡ ip) l

from_insert_sorted :
    (ip a : String) (l : List String) → Lists ip (insert_sorted a l) → (a ≡ ip) ⊎ Lists ip l
unfolding insert_sorted
from_insert_sorted ip a [] h = h
from_insert_sorted ip a (b ∷ l) h = ground (arith, h, from_insert_sorted ip a l)

into_insert_sorted :
    (ip a : String) (l : List String) → (a ≡ ip) ⊎ Lists ip l → Lists ip (insert_sorted a l)
unfolding insert_sorted
into_insert_sorted ip a [] h = h
into_insert_sorted ip a (b ∷ l) h = ground (arith, h, into_insert_sorted ip a l)

-- `b` publishes the address `ip`.
abbrev HasIp : String → Backend → Type 0
HasIp ip b = (b.ip ≡ ip) × (ip ≢ "")

from_extract_ips : (ip : String) (l : List Backend) → Lists ip (extract_ips l) → Any (HasIp ip) l
unfolding extract_ips
from_extract_ips ip [] h = h
from_extract_ips ip (b ∷ l) h = elim (Bool-cases (str_eq b.ip "")) [
  | inl e ↦ inr (from_extract_ips ip l (rw (extract_ips-cons b l, e) at h))
  | inr e ↦ elim (from_insert_sorted ip b.ip (extract_ips l) (rw (extract_ips-cons b l, e) at h)) [
    | inl p ↦ inl (p, λ q. ground (arith, eq_iff b.ip "", e, p, q))
    | inr r ↦ inr (from_extract_ips ip l r)
  ]
]

into_extract_ips : (ip : String) (l : List Backend) → Any (HasIp ip) l → Lists ip (extract_ips l)
unfolding extract_ips
into_extract_ips ip [] h = h
into_extract_ips ip (b ∷ l) (inl h) = elim (Bool-cases (str_eq b.ip "")) [
  | inl e ↦ absurd (h.1 (sym h.0 ∙ (eq_iff b.ip "").0 e))
  | inr e ↦ rw (extract_ips-cons b l, e) (into_insert_sorted ip b.ip (extract_ips l) (inl h.0))
]
into_extract_ips ip (b ∷ l) (inr h) = elim (Bool-cases (str_eq b.ip "")) [
  | inl e ↦ rw (extract_ips-cons b l, e) (into_extract_ips ip l h)
  | inr e ↦
      rw (extract_ips-cons b l, e)
        (into_insert_sorted ip b.ip (extract_ips l) (inr (into_extract_ips ip l h)))
]

module _ (P : Backend → Type 0) (states : Dict HealthState) where
  from_filter_healthy :
      (l : List Backend)
      → Any P (filter_healthy states l)
      → Any (λ b. P b × (is_publishable states b ≡ true)) l
  unfolding filter_healthy
  from_filter_healthy [] h = h
  from_filter_healthy (b ∷ l) h = elim (Bool-cases (is_publishable states b)) [
    | inl e ↦ elim (rw e at h) [ inl p ↦ inl (p, e) | inr r ↦ inr (from_filter_healthy l r) ]
    | inr e ↦ inr (from_filter_healthy l (rw e at h))
  ]

  into_filter_healthy :
      (l : List Backend)
      → Any (λ b. P b × (is_publishable states b ≡ true)) l
      → Any P (filter_healthy states l)
  unfolding filter_healthy
  into_filter_healthy [] h = h
  into_filter_healthy (b ∷ l) (inl h) = rw (h.1) (inl h.0)
  into_filter_healthy (b ∷ l) (inr h) = elim (Bool-cases (is_publishable states b)) [
    | inl e ↦ rw e (inr (into_filter_healthy l h))
    | inr e ↦ rw e (into_filter_healthy l h)
  ]

select_from-Any :
    (P : Backend → Type 0) (best : Backend) (rest : List Backend)
    → P (select_from best rest)
    → Any P (best ∷ rest)
unfolding select_from
select_from-Any P best [] p = inl p
select_from-Any P best (b ∷ rest) p =
    elim (Bool-cases (ltb_ℤ (effective_weight b) (effective_weight best))) [
      | inl e ↦ inr (select_from-Any P b rest (rw e at p))
      | inr e ↦ elim (select_from-Any P best rest (rw e at p)) [
        | inl q ↦ inl q
        | inr r ↦ inr (inr r)
      ]
    ]

choose-Any : (P : Backend → Type 0) (m : LbMethod) (l : List Backend) → Any P (choose m l) → Any P l
unfolding choose select_weighted
choose-Any P weighted [] h = h
choose-Any P weighted (b ∷ rest) (inl p) = select_from-Any P b rest p
choose-Any P weighted (b ∷ rest) (inr h) = elim h [ ]
choose-Any P round_robin l h = h
choose-Any P (other_method name) l h = h

-- The backend has this address, which is not empty, it is enabled, and its stored state is healthy.
abbrev pub IsUpAt : Dict HealthState → String → Backend → Type 0
IsUpAt states ip b =
    (b.ip ≡ ip)
    × (ip ≢ "")
    × (b.enabled ≡ true)
    × ((state : HealthState) × (lookup b.id states ≡ some state) × (state.status ≡ healthy))

publishable-up :
    (states : Dict HealthState) (ip : String) (b : Backend)
    → HasIp ip b × (is_publishable states b ≡ true)
    → IsUpAt states ip b
publishable-up states ip b ((e, n), p) = elim (Option-cases (lookup b.id states)) [
  | inl q ↦ absurd (ground (arith, p, q))
  | inr (state, q) ↦ (e, n, ground (arith, p), (state, q, ground (arith, p, q)))
]

up-publishable :
    (states : Dict HealthState) (ip : String) (b : Backend)
    → IsUpAt states ip b
    → HasIp ip b × (is_publishable states b ≡ true)
up-publishable states ip b h = ((h.0, h.1), ground (arith, h.2, h.3.1, h.3.2))

-- Whatever the method, an address is published only if it is not empty and belongs to an enabled
-- backend of the config whose stored state is healthy.
pub published_address-up :
    (states : Dict HealthState) (backends : List Backend) (m : LbMethod) (ip : String)
    → Lists ip (extract_ips (choose m (filter_healthy states backends)))
    → Any (IsUpAt states ip) backends
published_address-up states backends m ip h =
    Any-imp (λ b. HasIp ip b × (is_publishable states b ≡ true)) (IsUpAt states ip)
      (publishable-up states ip) backends
      (from_filter_healthy (HasIp ip) states backends (
        choose-Any (HasIp ip) m (filter_healthy states backends)
          (from_extract_ips ip (choose m (filter_healthy states backends)) h)))

choose_all : (m : LbMethod) (l : List Backend) → m ≢ weighted → choose m l ≡ l
unfolding choose
choose_all weighted l n = absurd (n refl)
choose_all round_robin l n = refl
choose_all (other_method name) l n = refl

-- For every method but weighted, each address that is not empty and belongs to an enabled backend
-- of the config whose stored state is healthy is published.
pub up-published_address :
    (states : Dict HealthState) (backends : List Backend) (m : LbMethod) (ip : String)
    → m ≢ weighted
    → Any (IsUpAt states ip) backends
    → Lists ip (extract_ips (choose m (filter_healthy states backends)))
up-published_address states backends m ip n h =
    rw (choose_all m (filter_healthy states backends) n) (
      into_extract_ips ip (filter_healthy states backends) (
        into_filter_healthy (HasIp ip) states backends (
          Any-imp (IsUpAt states ip) (λ b. HasIp ip b × (is_publishable states b ≡ true))
            (up-publishable states ip) backends h)))
