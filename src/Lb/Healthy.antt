-- ===== src/Lb/Healthy.antt =====
-- internal/lb/selector.go: GetHealthyBackends beside the filter of internal/dns/reconciler.go.
use gslb.Prelude.{◌≡◌, ◌≢◌, refl, String, true, Option, some, none, List, [], ◌∷◌, All, arith}
use gslb.Prelude.Dict.{Dict, lookup}
use gslb.Types.{Backend, HealthState, HealthStatus}
use gslb.Lb.{get_healthy_backends}
use gslb.Dns.Reconciler.{filter_healthy}

-- The statuses alone of a map of states.
abbrev pub statuses : Dict HealthState → Dict HealthStatus
statuses [] = []
statuses ((id, state) ∷ rest) = (id, state.status) ∷ statuses rest

abbrev status_of : Option HealthState → Option HealthStatus
status_of none = none
status_of (some state) = some state.status

lookup-statuses :
    (id : String) (states : Dict HealthState)
    → lookup id (statuses states) ≡ status_of (lookup id states)
unfolding lookup
lookup-statuses id [] = refl
lookup-statuses id ((j, state) ∷ rest) = ground (arith, lookup-statuses id rest)

-- Where every enabled backend has a stored state, the selector's filter and the reconciler's keep
-- the same backends.
pub get_healthy_backends-eq-filter_healthy :
    (states : Dict HealthState) (l : List Backend)
    → All (λ b. b.enabled ≡ true → lookup b.id states ≢ none) l
    → get_healthy_backends (statuses states) l ≡ filter_healthy states l
unfolding get_healthy_backends filter_healthy
get_healthy_backends-eq-filter_healthy states [] h = refl
get_healthy_backends-eq-filter_healthy states (b ∷ l) h =
    ground
      (arith, h.0, lookup-statuses b.id states, get_healthy_backends-eq-filter_healthy states l h.1)

-- An enabled backend with no stored state is kept by the selector's filter and dropped by the
-- reconciler's.
pub missing_state_differs :
    (states : Dict HealthState) (b : Backend) (l : List Backend)
    → b.enabled ≡ true
    → lookup b.id states ≡ none
    → (get_healthy_backends (statuses states) (b ∷ l)
        ≡ b ∷ get_healthy_backends (statuses states) l)
      × (filter_healthy states (b ∷ l) ≡ filter_healthy states l)
unfolding get_healthy_backends filter_healthy
missing_state_differs states b l on missing =
    (ground (arith, on, missing, lookup-statuses b.id states), ground (arith, on, missing))
