-- ===== src/Dns/Provider.antt =====
-- internal/dns/provider.go: the provider interface over a world `W`, the registry of factories and
-- the checks of a request.
use gslb.Prelude.{
  ℤ, pos, String, Bool, true, false, ◌||◌, Option, none, some, List, [], ◌∷◌, str_eq, leb_ℤ,
  if◌then◌else◌,
}
use gslb.Prelude.Dict.{Dict, lookup}
use gslb.Result.{GoError, message, err, Exec}
use gslb.Store.{Done}

pub record UpsertRequest : Type 0 where
  pub zone_id : String
  pub name : String
  pub ttl : ℤ
  pub records : List String

pub record DeleteRequest : Type 0 where
  pub zone_id : String
  pub name : String

pub record DnsProvider (W : Type 0) : Type 0 where
  pub upsert_record : UpsertRequest → Exec W Done
  pub delete_record : DeleteRequest → Exec W Done
  pub provider_name : String

-- `ProviderFactory`: a provider from its JSON configuration.
abbrev pub ProviderFactory : Type 0 → Type 0
ProviderFactory W = String → Exec W (DnsProvider W)

-- `CreateProvider`, over the registry `Providers`.
unfoldable pub create_provider :
    {W : Type 0} → Dict (ProviderFactory W) → String → String → Exec W (DnsProvider W)
create_provider registry provider_type config_json w = elim (lookup provider_type registry) [
  | some factory ↦ factory config_json w
  | none ↦ (err (message "unknown provider type"), w)
]

-- Some record of the list is the empty text.
abbrev pub has_empty : List String → Bool
has_empty [] = false
has_empty (r ∷ rest) = str_eq r "" || has_empty rest

abbrev pub is_nil : List String → Bool
is_nil [] = true
is_nil (r ∷ rest) = false

-- The error of a request, and `none` for a valid one.
unfoldable pub validate_upsert_request : UpsertRequest → Option GoError
validate_upsert_request req =
    if str_eq req.name ""
    then some (message "name is required")
    else if leb_ℤ req.ttl (pos 0)
    then some (message "ttl must be greater than 0")
    else if is_nil req.records
    then some (message "at least one record is required")
    else if has_empty req.records
    then some (message "record cannot be empty")
    else none

unfoldable pub validate_delete_request : DeleteRequest → Option GoError
validate_delete_request req = if str_eq req.name "" then some (message "name is required") else none
