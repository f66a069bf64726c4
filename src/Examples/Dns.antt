-- ===== src/Examples/Dns.antt =====
-- internal/dns: passes of the reconciler in the small world.
use gslb.Prelude.{pos, String, ◌≡◌, refl, ◌⊎◌, inl, true, none, List, [], ◌∷◌, Any, arith, eq_iff}
use gslb.Prelude.Dict.{Dict, lookup, insert}
use gslb.Types.{Config, Backend, weighted, round_robin}
use gslb.Result.{ok, message, wrapped}
use gslb.Dns.Ips.{extract_ips}
use gslb.Dns.Reconciler.{
  Reconciler, choose, filter_healthy, needs_update, notify, resolve_provider, push_records,
  update_dns, get_healthy_backends, publish, reconcile, reconcile_once, reconcile_all,
  reconcile_and_store, select_weighted,
}
use gslb.Dns.Reconciler.Selection.{IsPrimary, choose-weighted}
use gslb.Dns.Reconciler.Contents.{Lists, IsUpAt, published_address-up, up-published_address}
use gslb.Dns.Reconciler.Publish.{publish_retries, update_not_published}
use gslb.Dns.Reconciler.Failures.{failed_delete_forgotten}
use gslb.Examples.World.{
  World, app, first_backend, second_backend, all_up, store, provider, failing, reconciler,
}

abbrev backends : List Backend
backends = first_backend ∷ second_backend ∷ []

-- A weight of 0 counts as 1, and is before 2.
primary_is_second : choose weighted backends ≡ second_backend ∷ []
unfolding choose select_weighted
primary_is_second = refl

ips_sorted : extract_ips backends ≡ "10.0.0.1" ∷ "10.0.0.2" ∷ []
unfolding extract_ips
ips_sorted = refl

choose-weighted_example :
    ((backends ≡ []) × (choose weighted backends ≡ []))
    ⊎ ((b : Backend) × (choose weighted backends ≡ b ∷ []) × IsPrimary b backends)
choose-weighted_example = choose-weighted backends

published_address-up_example : Any (IsUpAt all_up "10.0.0.1") backends
unfolding choose select_weighted filter_healthy lookup extract_ips
published_address-up_example = published_address-up all_up backends weighted "10.0.0.1" (inl refl)

up-published_address_example :
    Lists "10.0.0.2" (extract_ips (choose round_robin (filter_healthy all_up backends)))
unfolding lookup
up-published_address_example =
    up-published_address all_up backends round_robin "10.0.0.2" (λ e. cc)
      (inl (refl, (λ e. ground (arith, eq_iff "10.0.0.2" "", e)), refl, (_, refl, refl)))

abbrev remembered : Dict (List String)
remembered = ("c", "10.0.0.1" ∷ []) ∷ []

-- The first pass publishes, and logs its success; the second only logs.
two_passes :
    (reconcile_once store [] (reconcile_once store [] (reconciler provider, [])).1).1.1
    ≡ "" ∷ "" ∷ "10.0.0.1" ∷ []
unfolding reconcile_once reconcile_all reconcile_and_store reconcile get_healthy_backends
    filter_healthy publish choose select_weighted notify needs_update update_dns resolve_provider
    push_records extract_ips lookup insert
two_passes = refl

-- The reconciler after a pass over the two backends with the logging provider.
abbrev after_pass : List Backend → Reconciler World
after_pass l = (publish store [] app l (reconciler provider, [])).1.0

failed_delete_forgotten_example :
    ((publish store [] app [] (reconciler provider, [])).0 ≡ ok tt)
    × ((w : World)
        → publish store [] app [] (after_pass [], w)
          ≡ (ok tt, (after_pass [], notify none (choose weighted []) w)))
unfolding choose select_weighted notify resolve_provider extract_ips
failed_delete_forgotten_example =
    failed_delete_forgotten store [] app [] (reconciler provider) [] provider refl refl

publish_retries_example :
    ((publish store [] app backends (reconciler failing, [])).1.0 ≡ reconciler failing)
    × (needs_update
          (publish store [] app backends (reconciler failing, [])).1.0.last_records
          "c"
          (extract_ips (choose weighted backends))
        ≡ true)
unfolding publish choose select_weighted notify needs_update update_dns resolve_provider
    push_records extract_ips lookup
publish_retries_example =
    publish_retries store [] app backends (reconciler failing) []
      {e = wrapped "failed to update DNS"
        (wrapped "failed to upsert DNS record" (message "rate limited"))}
      refl

-- The name and the TTL are changed, and the next pass only logs the choice.
abbrev renamed : Config
renamed = record app { dns_name = "www.example.com"; dns_ttl = pos 5 }

update_not_published_example :
    publish store [] renamed backends (after_pass backends, [])
    ≡ (ok tt, (after_pass backends, notify none (choose weighted backends) []))
unfolding publish choose select_weighted notify needs_update update_dns resolve_provider
    push_records extract_ips lookup
update_not_published_example =
    update_not_published store [] app renamed backends (reconciler provider) [] [] provider refl
      refl refl refl
