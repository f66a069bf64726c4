-- ===== src/Dns/Ips.antt =====
-- `sort.Strings` and `extractIPs` of internal/dns/reconciler.go.
pub mod Order
use Prim.Native.String.{compare}
use text.Mathlib.Text.{is_le}
use gslb.Prelude.{String, Bool, List, [], ◌∷◌, str_eq, if◌then◌else◌}
use gslb.Types.{Backend}

-- `a <= b` of two Go strings: the order of their bytes, which is that of their code points.
abbrev pub text_le : String → String → Bool
text_le a b = is_le (compare a b)

unfoldable pub insert_sorted : String → List String → List String
insert_sorted a [] = a ∷ []
insert_sorted a (b ∷ rest) = if text_le a b then a ∷ b ∷ rest else b ∷ insert_sorted a rest

unfoldable pub sort_strings : List String → List String
unfolding insert_sorted
sort_strings [] = []
sort_strings (a ∷ rest) = insert_sorted a (sort_strings rest)

-- The addresses that are not empty, in the order of the backends.
unfoldable pub addresses : List Backend → List String
addresses [] = []
addresses (b ∷ rest) =
    let others = addresses rest in if str_eq b.ip "" then others else b.ip ∷ others

unfoldable pub extract_ips : List Backend → List String
unfolding sort_strings addresses
extract_ips backends = sort_strings (addresses backends)
