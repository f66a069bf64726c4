-- ===== src/Dns/Reconciler/Publish.antt =====
-- internal/dns/reconciler.go: when the provider is called, what the reconciler remembers, and what
-- happens after an error.
use gslb.Prelude.{
  String, true, false, ◌≡◌, refl, ◌↔◌, inl, inr, ap, ◌∙◌, Option-cases, some, List, [], ◌∷◌,
  Bool-cases, str_eq, eq_iff, eq_refl, arith,
}
use gslb.Prelude.Dict.{Dict, lookup, lookup-insert}
use gslb.Types.{Config, Backend}
use gslb.Result.{GoError, ok, err, Result-cases}
use gslb.Store.{Store}
use gslb.Dns.Provider.{DnsProvider, ProviderFactory}
use gslb.Dns.Ips.{extract_ips}
use gslb.Dns.Reconciler.{
  Reconciler, choose, same_texts, needs_update, notify, resolve_provider, update_dns, publish,
}

same_texts_refl : (xs : List String) → same_texts xs xs ≡ true
same_texts_refl [] = refl
same_texts_refl (x ∷ xs) = rw (eq_refl x) (same_texts_refl xs)

same_texts→eq : (xs ys : List String) → same_texts xs ys ≡ true → xs ≡ ys
same_texts→eq [] [] h = refl
same_texts→eq [] (y ∷ ys) h = cc
same_texts→eq (x ∷ xs) [] h = cc
same_texts→eq (x ∷ xs) (y ∷ ys) h = ground (arith, eq_iff x y, same_texts→eq xs ys)

-- An update is left out exactly when the remembered addresses of the config are the new ones.
pub needs_update_iff :
    (remembered : Dict (List String)) (id : String) (ips : List String)
    → (needs_update remembered id ips ≡ false) ↔ (lookup id remembered ≡ some ips)
unfolding needs_update
needs_update_iff remembered id ips = (
  λ h. elim (Option-cases (lookup id remembered)) [
    | inl e ↦ absurd (ground (arith, h, e))
    | inr (last, e) ↦ e ∙ ap some (same_texts→eq last ips (ground (arith, h, e)))
  ],
  λ h. ground (arith, h, same_texts_refl ips),
)

module _ {W : Type 0} (s : Store W) (registry : Dict (ProviderFactory W)) where
  -- With a provider, an update that succeeds is remembered.
  update_dns-lookup :
      (cfg : Config) (backends : List Backend) (r : Reconciler W) (w : W) (p : DnsProvider W)
      → (resolve_provider s registry r.provider cfg.id w).0 ≡ some p
      → (update_dns s registry cfg backends (r, w)).0 ≡ ok tt
      → lookup cfg.id (update_dns s registry cfg backends (r, w)).1.0.last_records
        ≡ some (extract_ips backends)
  unfolding update_dns
  update_dns-lookup cfg backends r w p resolved done = ground (
    arith,
    resolved,
    done,
    lookup-insert cfg.id cfg.id (extract_ips backends) r.last_records,
    eq_refl cfg.id,
  )

  -- An update that fails changes nothing in the reconciler; one that succeeds, only the entry of
  -- its config.
  update_dns-frame :
      (cfg : Config) (backends : List Backend) (r : Reconciler W) (w : W) (id : String)
      → let r' = (update_dns s registry cfg backends (r, w)).1.0 in
        (r'.provider ≡ r.provider)
        × (r'.on_backend_selected ≡ r.on_backend_selected)
        × (str_eq cfg.id id ≡ false → lookup id r'.last_records ≡ lookup id r.last_records)
  unfolding update_dns
  update_dns-frame cfg backends r w id = (
    ground arith,
    ground arith,
    λ n. ground (arith, n, lookup-insert cfg.id id (extract_ips backends) r.last_records),
  )

  update_dns-err :
      (cfg : Config) (backends : List Backend) (r : Reconciler W) (w : W) {e : GoError}
      → (update_dns s registry cfg backends (r, w)).0 ≡ err e
      → (update_dns s registry cfg backends (r, w)).1.0 ≡ r
  unfolding update_dns
  update_dns-err cfg backends r w h = ground arith

  -- When the remembered addresses are those of the chosen backends, a pass only notifies.
  publish_steady :
      (cfg : Config) (healthy : List Backend) (r : Reconciler W) (w : W)
      → lookup cfg.id r.last_records ≡ some (extract_ips (choose cfg.lb_method healthy))
      → publish s registry cfg healthy (r, w)
        ≡ (ok tt, (r, notify r.on_backend_selected (choose cfg.lb_method healthy) w))
  unfolding publish
  publish_steady cfg healthy r w h =
      rw ((needs_update_iff r.last_records cfg.id (extract_ips (choose cfg.lb_method healthy))).1 h)

  publish-lookup :
      (cfg : Config) (healthy : List Backend) (r : Reconciler W) (w : W) (p : DnsProvider W)
      → (resolve_provider s registry r.provider cfg.id
          (notify r.on_backend_selected (choose cfg.lb_method healthy) w)).0
        ≡ some p
      → (publish s registry cfg healthy (r, w)).0 ≡ ok tt
      → lookup cfg.id (publish s registry cfg healthy (r, w)).1.0.last_records
        ≡ some (extract_ips (choose cfg.lb_method healthy))
  unfolding publish
  publish-lookup cfg healthy r w p resolved done =
      let selected = choose cfg.lb_method healthy in
      let w' = notify r.on_backend_selected selected w in
      elim (Bool-cases (needs_update r.last_records cfg.id (extract_ips selected))) [
        | inl e ↦ ground (arith, e, done, update_dns-lookup cfg selected r w' p resolved)
        | inr e ↦ rw e ((needs_update_iff r.last_records cfg.id (extract_ips selected)).0 e)
      ]

  -- A pass for one config leaves the provider, the callback and the entries of the other configs
  -- as they were.
  pub publish-frame :
      (cfg : Config) (healthy : List Backend) (r : Reconciler W) (w : W) (id : String)
      → let r' = (publish s registry cfg healthy (r, w)).1.0 in
        (r'.provider ≡ r.provider)
        × (r'.on_backend_selected ≡ r.on_backend_selected)
        × (str_eq cfg.id id ≡ false → lookup id r'.last_records ≡ lookup id r.last_records)
  unfolding publish
  publish-frame cfg healthy r w id =
      let selected = choose cfg.lb_method healthy in
      let w' = notify r.on_backend_selected selected w in
      let frame = update_dns-frame cfg selected r w' id in
      (ground (arith, frame.0), ground (arith, frame.1), λ n. ground (arith, n, frame.2 n))

  publish-err :
      (cfg : Config) (healthy : List Backend) (r : Reconciler W) (w : W) {e : GoError}
      → (publish s registry cfg healthy (r, w)).0 ≡ err e
      → (needs_update r.last_records cfg.id (extract_ips (choose cfg.lb_method healthy)) ≡ true)
        × ((publish s registry cfg healthy (r, w)).1.0 ≡ r)
  unfolding publish
  publish-err cfg healthy r w h =
      let selected = choose cfg.lb_method healthy in
      let w' = notify r.on_backend_selected selected w in
      elim (Result-cases (update_dns s registry cfg selected (r, w')).0) [
        | inl (a, q) ↦ (ground (arith, q, h), ground (arith, q, h))
        | inr (e, q) ↦
            let same = update_dns-err cfg selected r w' q in
            (ground (arith, q, h), ground (arith, q, h, same))
      ]

  -- A pass for a config that ends with an error leaves the reconciler as it was, and the next pass
  -- with the same healthy backends needs an update again.
  pub publish_retries :
      (cfg : Config) (healthy : List Backend) (r : Reconciler W) (w : W) {e : GoError}
      → (publish s registry cfg healthy (r, w)).0 ≡ err e
      → let r' = (publish s registry cfg healthy (r, w)).1.0 in
        (r' ≡ r)
        × (needs_update r'.last_records cfg.id (extract_ips (choose cfg.lb_method healthy)) ≡ true)
  publish_retries cfg healthy r w h =
      let (needed, same) = publish-err cfg healthy r w h in (same, rw same needed)

  -- After a pass for a config that succeeds with a provider, a change of the config's DNS name, TTL
  -- or name reaches no provider: a pass for any config with the same id and method and the same
  -- healthy backends succeeds, calls no provider and changes nothing in the reconciler. What is
  -- remembered are the addresses alone.
  pub update_not_published :
      (cfg updated : Config) (healthy : List Backend) (r : Reconciler W) (w w' : W)
      (p : DnsProvider W)
      → (resolve_provider s registry r.provider cfg.id
          (notify r.on_backend_selected (choose cfg.lb_method healthy) w)).0
        ≡ some p
      → (publish s registry cfg healthy (r, w)).0 ≡ ok tt
      → updated.id ≡ cfg.id
      → updated.lb_method ≡ cfg.lb_method
      → let r' = (publish s registry cfg healthy (r, w)).1.0 in
        publish s registry updated healthy (r', w')
        ≡ (ok tt, (r', notify r.on_backend_selected (choose cfg.lb_method healthy) w'))
  update_not_published cfg updated healthy r w w' p resolved done same_id same_method =
      let r' = (publish s registry cfg healthy (r, w)).1.0 in
      let kept : lookup updated.id r'.last_records
          ≡ some (extract_ips (choose updated.lb_method healthy)) =
        rw (same_id, same_method) (publish-lookup cfg healthy r w p resolved done) in
      publish_steady updated healthy r' w' kept
      ∙ rw (same_method, (publish-frame cfg healthy r w cfg.id).1) refl
