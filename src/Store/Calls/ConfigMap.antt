-- ===== src/Store/Calls/ConfigMap.antt =====
-- internal/store/config.go: the table of the configs as a map from ids to configs. The order of the rows,
-- the other tables and the refusals to come are not in the map.
use std.Path.{fun_ext}
use gslb.Prelude.{
  String, Bool, true, false, ◌≡◌, refl, ap, sym, ◌∙◌, Option, none, some, List, [], ◌∷◌, str_eq,
  eq_iff, if◌then◌else◌, inl, inr, arith,
}
use gslb.Types.{Config}
use gslb.Result.{ok, err, not_found, is_ok, Result-cases}
use gslb.Store.Sql.{Database, statement, attempt_ran, in_context, foreign_key_or, calm}
use gslb.Store.Rows.{find_by, delete_by, has_key}
use gslb.Store.Tables.{
  Driver, Tables, set_config, insert_config_row, update_config_row, drop_config, drop_backends,
}
use gslb.Store.Configs.{create_config, update_config, delete_config, get_config, or_new_id}
use gslb.Store.Calls.Atomic.{create_config-atomic, update_config-atomic, delete_config-atomic}
use gslb.Store.Calls.Deleted.{delete_config-rows}
use gslb.Store.Calls.Reads.{find_by-set_config}

-- The calls that change a config. `create` has the id that would be made.
pub data Write : Type 0 where
  create : String → Config → Write
  update : Config → Write
  remove : String → Write

abbrev pub ConfigMap : Type 0
ConfigMap = String → Option Config

abbrev pub view : Database Tables → ConfigMap
view db id = find_by (has_key Config.id id) db.rows.configs

-- What a call that is accepted does to the map.
abbrev pub effect : Write → ConfigMap → ConfigMap
effect (Write.create new_id cfg) m id =
    if str_eq (or_new_id cfg.id new_id) id
    then some (record cfg { id = or_new_id cfg.id new_id; last_reconcile_error = "" })
    else m id
effect (Write.update cfg) m id =
    if str_eq cfg.id id
    then elim (m id) [ none ↦ none | some old ↦ some (set_config cfg old) ]
    else m id
effect (Write.remove gone) m id = if str_eq gone id then none else m id

abbrev pub effects : List Write → ConfigMap → ConfigMap
effects [] m = m
effects (w ∷ rest) m = effects rest (effect w m)

find_by-delete_config :
    (gone id : String) (rows : List Config)
    → find_by (has_key Config.id id) (delete_by (has_key Config.id gone) rows)
      ≡ (if str_eq gone id then none else find_by (has_key Config.id id) rows)
unfolding find_by delete_by
find_by-delete_config gone id [] = ground arith
find_by-delete_config gone id (r ∷ rest) =
    ground
      (arith, eq_iff r.id gone, eq_iff r.id id, eq_iff gone id, find_by-delete_config gone id rest)

accepted_first :
    (is_accepted : Bool) (w : Write) (later : List Write) (m n : ConfigMap)
    → ((id : String) → n id ≡ (if is_accepted then effect w m id else m id))
    → effects later n ≡ effects (if is_accepted then w ∷ later else later) m
accepted_first true w later m n h = ap (effects later) (fun_ext h)
accepted_first false w later m n h = ap (effects later) (fun_ext h)

get_config-view :
    (id : String) (db : Database Tables)
    → (get_config id (calm db)).0 ≡ elim (view db id) [ none ↦ err not_found | some c ↦ ok c ]
unfolding statement get_config
get_config-view id db = refl

module _ (driver : Driver) where
  -- Whether the call returns without an error, and the database after it.
  abbrev pub perform : Write → Database Tables → Bool × Database Tables
  perform (Write.create new_id cfg) db =
      (is_ok (create_config driver new_id cfg db).0, (create_config driver new_id cfg db).1)
  perform (Write.update cfg) db =
      (is_ok (update_config driver cfg db).0, (update_config driver cfg db).1)
  perform (Write.remove id) db = (is_ok (delete_config id db).0, (delete_config id db).1)

  abbrev pub perform_all : List Write → Database Tables → Database Tables
  perform_all [] db = db
  perform_all (w ∷ rest) db = perform_all rest (perform w db).1

  -- The calls that returned without an error.
  abbrev pub accepted : List Write → Database Tables → List Write
  accepted [] db = []
  accepted (w ∷ rest) db =
      let later = accepted rest (perform w db).1 in if (perform w db).0 then w ∷ later else later

  view-create :
      (new_id : String) (cfg c : Config) (db : Database Tables) (id : String)
      → (create_config driver new_id cfg db).0 ≡ ok c
      → view (create_config driver new_id cfg db).1 id
        ≡ effect (Write.create new_id cfg) (view db) id
  unfolding create_config insert_config_row find_by
  view-create new_id cfg c db id h = ground (
    arith,
    attempt_ran (foreign_key_or "insert config")
        (insert_config_row driver (record cfg { id = or_new_id cfg.id new_id })) db c h,
  )

  view-update :
      (cfg : Config) (db : Database Tables) (id : String)
      → (update_config driver cfg db).0 ≡ ok tt
      → view (update_config driver cfg db).1 id ≡ effect (Write.update cfg) (view db) id
  unfolding update_config update_config_row
  view-update cfg db id h = ground (
    arith,
    find_by-set_config cfg id db.rows.configs,
    attempt_ran (in_context "update config") (update_config_row driver cfg) db tt h,
  )

  view-delete :
      (gone : String) (db : Database Tables) (id : String)
      → (delete_config gone db).0 ≡ ok tt
      → view (delete_config gone db).1 id ≡ effect (Write.remove gone) (view db) id
  unfolding drop_config drop_backends
  view-delete gone db id h =
      rw (delete_config-rows gone db h) (find_by-delete_config gone id db.rows.configs)

  view-perform :
      (w : Write) (db : Database Tables) (id : String)
      → view (perform w db).1 id ≡ (if (perform w db).0 then effect w (view db) id else view db id)
  view-perform (Write.create new_id cfg) db id =
      elim (Result-cases (create_config driver new_id cfg db).0) [
        | inl (c, made) ↦ rw made (view-create new_id cfg c db id made)
        | inr (e, failed) ↦
            rw (failed, create_config-atomic driver new_id cfg db (rw failed refl)) refl
      ]
  view-perform (Write.update cfg) db id = elim (Result-cases (update_config driver cfg db).0) [
    | inl (tt, made) ↦ rw made (view-update cfg db id made)
    | inr (e, failed) ↦ rw (failed, update_config-atomic driver cfg db (rw failed refl)) refl
  ]
  view-perform (Write.remove gone) db id = elim (Result-cases (delete_config gone db).0) [
    | inl (tt, made) ↦ rw made (view-delete gone db id made)
    | inr (e, failed) ↦ rw (failed, delete_config-atomic gone db (rw failed refl)) refl
  ]

  view-perform_all :
      (writes : List Write) (db : Database Tables)
      → view (perform_all writes db) ≡ effects (accepted writes db) (view db)
  view-perform_all [] db = refl
  view-perform_all (w ∷ rest) db =
      view-perform_all rest (perform w db).1
      ∙ accepted_first (perform w db).0 w (accepted rest (perform w db).1) (view db)
          (view (perform w db).1) (view-perform w db)

  -- The table of the configs implements the map: after any calls of CreateConfig, UpdateConfig and
  -- DeleteConfig, whatever the database refuses of them, GetConfig of any id returns what the map has
  -- there after the effects of the calls that returned without an error, in their order, and ErrNotFound
  -- where it has nothing, as long as the database refuses no query.
  pub get_config-effects :
      (writes : List Write) (db : Database Tables) (id : String)
      → (get_config id (calm (perform_all writes db))).0
        ≡ elim (effects (accepted writes db) (view db) id) [ none ↦ err not_found | some c ↦ ok c ]
  get_config-effects writes db id =
      rw (sym (ap (λ m. m id) (view-perform_all writes db)))
        (get_config-view id (perform_all writes db))
