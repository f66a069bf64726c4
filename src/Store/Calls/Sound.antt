-- ===== src/Store/Calls/Sound.antt =====
-- internal/store: the constraints of the schema through any calls.
use gslb.Prelude.{ℕ, ◌-◌, not, String, true, ◌≡◌, Option, List, [], ◌∷◌, inl, inr, arith}
use gslb.Types.{DnsProviderConfig, HealthHistoryBucket}
use gslb.Result.{Result, message, Result-cases}
use gslb.Crypto.{CryptoLib, Encryptor, encrypt}
use gslb.Store.Sql.{Database, attempt_keeps, tables_after, foreign_key_or, in_context}
use gslb.Store.Tables.{
  Driver, Tables, is_sound, insert_config_row, update_config_row, insert_backend_row,
  update_backend_row, insert_check_row, upsert_state_row, insert_provider_row, set_error_row,
  update_check_row, update_provider_row, delete_check_row, delete_provider_row, delete_backend_row,
  delete_config_row,
}
use gslb.Store.Tables.Sound.{
  insert_config_row-is_sound, update_config_row-is_sound, insert_backend_row-is_sound,
  update_backend_row-is_sound, insert_check_row-is_sound, upsert_state_row-is_sound,
  insert_provider_row-is_sound, set_error_row-is_sound, update_check_row-is_sound,
  update_provider_row-is_sound, delete_check_row-is_sound, delete_provider_row-is_sound,
}
use gslb.Store.Tables.Cascade.{delete_backend_row-is_sound, delete_config_row-is_sound}
use gslb.Store.Configs.{
  create_config, update_config, delete_config, set_config_reconcile_error, or_new_id,
}
use gslb.Store.Backends.{create_backend, update_backend, delete_backend}
use gslb.Store.Checks.{
  create_health_check, update_health_check, delete_health_check, update_health_state,
}
use gslb.Store.Providers.{create_dns_provider, update_dns_provider, delete_dns_provider}
use gslb.Store.History.{
  upsert_health_history_bucket, delete_old_health_history, upsert_bucket_row, delete_old_rows,
  is_older,
}
use gslb.Store.History.Keys.{distinct_buckets-upsert_bucket, distinct_buckets-filter_by}
use gslb.Store.Calls.{Call, run_call, run_calls}

upsert_bucket_row-is_sound :
    (bucket : HealthHistoryBucket) (t : Tables)
    → is_sound t ≡ true
    → is_sound (tables_after t (upsert_bucket_row bucket t)) ≡ true
unfolding upsert_bucket_row is_sound
upsert_bucket_row-is_sound bucket t h =
    ground (arith, h, distinct_buckets-upsert_bucket bucket t.history)

delete_old_rows-is_sound :
    (cutoff : ℕ) (t : Tables)
    → is_sound t ≡ true
    → is_sound (tables_after t (delete_old_rows cutoff t)) ≡ true
unfolding delete_old_rows is_sound
delete_old_rows-is_sound cutoff t h =
    ground (arith, h, distinct_buckets-filter_by (λ row. not (is_older cutoff row)) t.history)

module _ (lib : CryptoLib) (enc : Option Encryptor) (random : ℕ → Result (List ℕ))
    (driver : Driver) where
  create_dns_provider-is_sound :
      (new_id : String) (p : DnsProviderConfig) (db : Database Tables)
      → is_sound db.rows ≡ true
      → is_sound (create_dns_provider lib enc random driver new_id p db).1.rows ≡ true
  unfolding create_dns_provider
  create_dns_provider-is_sound new_id p db h =
      elim (Result-cases (encrypt lib enc random p.config_json)) [
        | inr (e, failed) ↦ ground (arith, h, failed)
        | inl (enc_json, encrypted) ↦
            let row : DnsProviderConfig = record p {
              id = or_new_id p.id new_id;
              config_json = enc_json;
            } in
            ground (
              arith,
              encrypted,
              attempt_keeps is_sound (foreign_key_or "insert dns provider")
                  (insert_provider_row driver row) db h
                  (insert_provider_row-is_sound driver db.rows row h),
            )
      ]

  update_dns_provider-is_sound :
      (p : DnsProviderConfig) (db : Database Tables)
      → is_sound db.rows ≡ true
      → is_sound (update_dns_provider lib enc random p db).1.rows ≡ true
  unfolding update_dns_provider
  update_dns_provider-is_sound p db h = elim (Result-cases (encrypt lib enc random p.config_json)) [
    | inr (e, failed) ↦ ground (arith, h, failed)
    | inl (enc_json, encrypted) ↦
        let row : DnsProviderConfig = record p { config_json = enc_json } in
        ground (
          arith,
          encrypted,
          attempt_keeps is_sound (foreign_key_or "update dns provider") (update_provider_row row) db
              h (update_provider_row-is_sound driver db.rows row h),
        )
  ]

  run_call-is_sound :
      (call : Call) (db : Database Tables)
      → is_sound db.rows ≡ true
      → is_sound (run_call lib enc random driver call db).rows ≡ true
  unfolding run_call create_config update_config delete_config set_config_reconcile_error
      create_backend update_backend delete_backend create_health_check update_health_check
      delete_health_check update_health_state delete_dns_provider upsert_health_history_bucket
      delete_old_health_history
  run_call-is_sound (Call.create_config new_id cfg) db h =
      attempt_keeps is_sound (foreign_key_or "insert config")
        (insert_config_row driver (record cfg { id = or_new_id cfg.id new_id })) db h
        (insert_config_row-is_sound driver db.rows (record cfg { id = or_new_id cfg.id new_id }) h)
  run_call-is_sound (Call.update_config cfg) db h =
      attempt_keeps is_sound (in_context "update config") (update_config_row driver cfg) db h
        (update_config_row-is_sound driver db.rows cfg h)
  run_call-is_sound (Call.delete_config id) db h =
      attempt_keeps is_sound (in_context "delete config") (delete_config_row id) db h
        (delete_config_row-is_sound db.rows id h)
  run_call-is_sound (Call.set_config_reconcile_error id text) db h =
      attempt_keeps is_sound message (set_error_row id text) db h
        (set_error_row-is_sound driver db.rows id text h)
  run_call-is_sound (Call.create_backend new_id b) db h =
      attempt_keeps is_sound (foreign_key_or "insert backend")
        (insert_backend_row driver (record b { id = or_new_id b.id new_id })) db h
        (insert_backend_row-is_sound driver db.rows (record b { id = or_new_id b.id new_id }) h)
  run_call-is_sound (Call.update_backend b) db h =
      attempt_keeps is_sound (foreign_key_or "update backend") (update_backend_row driver b) db h
        (update_backend_row-is_sound driver db.rows b h)
  run_call-is_sound (Call.delete_backend id) db h =
      attempt_keeps is_sound (in_context "delete backend") (delete_backend_row id) db h
        (delete_backend_row-is_sound db.rows id h)
  run_call-is_sound (Call.create_health_check new_id hc) db h =
      attempt_keeps is_sound (foreign_key_or "insert health check")
        (insert_check_row driver (record hc { id = or_new_id hc.id new_id })) db h
        (insert_check_row-is_sound driver db.rows (record hc { id = or_new_id hc.id new_id }) h)
  run_call-is_sound (Call.update_health_check hc) db h =
      attempt_keeps is_sound (foreign_key_or "update health check") (update_check_row hc) db h
        (update_check_row-is_sound driver db.rows hc h)
  run_call-is_sound (Call.delete_health_check id) db h =
      attempt_keeps is_sound (in_context "delete health check") (delete_check_row id) db h
        (delete_check_row-is_sound driver db.rows id h)
  run_call-is_sound (Call.update_health_state st) db h =
      attempt_keeps is_sound (foreign_key_or "update health state") (upsert_state_row driver st) db
        h (upsert_state_row-is_sound driver db.rows st h)
  run_call-is_sound (Call.delete_dns_provider id) db h =
      attempt_keeps is_sound (in_context "delete dns provider") (delete_provider_row id) db h
        (delete_provider_row-is_sound driver db.rows id h)
  run_call-is_sound (Call.create_dns_provider new_id p) db h =
      create_dns_provider-is_sound new_id p db h
  run_call-is_sound (Call.update_dns_provider p) db h = update_dns_provider-is_sound p db h
  run_call-is_sound (Call.upsert_health_history_bucket bucket) db h =
      attempt_keeps is_sound (in_context "upsert health history bucket") (upsert_bucket_row bucket)
        db h (upsert_bucket_row-is_sound bucket db.rows h)
  run_call-is_sound (Call.delete_old_health_history now age) db h =
      attempt_keeps is_sound (in_context "delete old health history") (delete_old_rows (now - age))
        db h (delete_old_rows-is_sound (now - age) db.rows h)

  -- Whatever calls are made, with whatever arguments, and whichever of them the database refuses, the
  -- tables satisfy every key and foreign key that the schema gives them afterwards when they did before.
  -- Ids, DNS names, and the configs of health checks and providers are unique, as are the backend and
  -- the start of a bucket of the history; and every backend, health check and provider has its config,
  -- and every health state its backend. The id of a bucket, which SQLite numbers, is not in the model.
  pub run_calls-is_sound :
      (calls : List Call) (db : Database Tables)
      → is_sound db.rows ≡ true
      → is_sound (run_calls lib enc random driver calls db).rows ≡ true
  unfolding run_calls
  run_calls-is_sound [] db h = h
  run_calls-is_sound (call ∷ rest) db h =
      run_calls-is_sound rest (run_call lib enc random driver call db) (run_call-is_sound call db h)
