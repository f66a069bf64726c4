-- ===== src/Examples/Lb.antt =====
-- internal/lb: the selectors on two backends.
use gslb.Prelude.{◌≡◌, refl, some, List, [], ◌∷◌}
use gslb.Types.{Backend}
use gslb.Lb.{round_robin_select}
use gslb.Examples.World.{first_backend, second_backend}

abbrev two : List Backend
two = first_backend ∷ second_backend ∷ []

round_robin_first : round_robin_select 0 two ≡ (some second_backend, 1)
unfolding round_robin_select
round_robin_first = refl
