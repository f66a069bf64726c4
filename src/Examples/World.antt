-- ===== src/Examples/World.antt =====
-- A small world for the examples: a store with one config and two backends, and a provider that
-- logs what it is asked and refuses every deletion.
use gslb.Prelude.{pos, String, true, false, none, some, List, [], ◌∷◌}
use gslb.Prelude.Dict.{Dict}
use gslb.Types.{Config, Backend, HealthState, HealthStatus, healthy, weighted}
use gslb.Result.{ok, err, not_found, message}
use gslb.Store.{Store}
use gslb.Dns.Provider.{DnsProvider}
use gslb.Dns.Reconciler.{Reconciler}

-- The log of the calls.
abbrev pub World : Type 0
World = List String

abbrev pub app : Config
app = record {
  id = "c";
  name = "app";
  dns_name = "app.example.com";
  dns_ttl = pos 30;
  lb_method = weighted;
  last_reconcile_error = "";
}

abbrev pub first_backend : Backend
first_backend = record {
  id = "b1";
  config_id = "c";
  ip = "10.0.0.2";
  port = none;
  weight = pos 2;
  enabled = true;
}

abbrev pub second_backend : Backend
second_backend = record {
  id = "b2";
  config_id = "c";
  ip = "10.0.0.1";
  port = none;
  weight = pos 0;
  enabled = true;
}

abbrev pub state_of : String → HealthStatus → HealthState
state_of id status = record {
  backend_id = id;
  status = status;
  consecutive_successes = pos 2;
  consecutive_failures = pos 0;
  last_check_at = none;
  last_healthy_at = none;
  last_error = "";
}

abbrev pub all_up : Dict HealthState
all_up = ("b1", state_of "b1" healthy) ∷ ("b2", state_of "b2" healthy) ∷ []

abbrev pub store : Store World
store = record {
  configs = record {
    create_config = λ c w. (ok c, w);
    get_config = λ id w. (ok app, w);
    update_config = λ c w. (ok tt, w);
    delete_config = λ id w. (ok tt, w);
    list_configs = λ w. (ok (app ∷ []), w);
    set_config_reconcile_error = λ id text w. (ok tt, text ∷ w);
  };
  backends = record {
    create_backend = λ b w. (ok b, w);
    get_backend = λ id w. (ok first_backend, w);
    update_backend = λ b w. (ok tt, w);
    delete_backend = λ id w. (ok tt, w);
    list_backends = λ id w. (ok (first_backend ∷ second_backend ∷ []), w);
  };
  health = record {
    create_health_check = λ hc w. (ok hc, w);
    get_health_check = λ id w. (err not_found, w);
    update_health_check = λ hc w. (ok tt, w);
    delete_health_check = λ id w. (ok tt, w);
    update_health_state = λ st w. (ok tt, w);
    get_health_state = λ id w. (err not_found, w);
    get_health_states = λ id w. (ok all_up, w);
  };
  history = record {
    upsert_health_history_bucket = λ b w. (ok tt, w);
    get_health_history = λ id since w. (ok [], w);
    delete_old_health_history = λ age w. (ok 0, w);
  };
  providers = record {
    create_dns_provider = λ p w. (ok p, w);
    get_dns_provider = λ id w. (err not_found, w);
    update_dns_provider = λ p w. (ok tt, w);
    delete_dns_provider = λ id w. (ok tt, w);
  };
}

-- Upserts are logged by their first record; a deletion is logged and refused.
abbrev pub first_record : List String → String
first_record [] = ""
first_record (r ∷ rest) = r

abbrev pub provider : DnsProvider World
provider = record {
  upsert_record = λ req w. (ok tt, first_record req.records ∷ w);
  delete_record = λ req w. (err (message "service unavailable"), "delete" ∷ w);
  provider_name = "logging";
}

-- A provider that fails.
abbrev pub failing : DnsProvider World
failing = record {
  upsert_record = λ req w. (err (message "rate limited"), w);
  delete_record = λ req w. (err (message "rate limited"), w);
  provider_name = "failing";
}

abbrev pub reconciler : DnsProvider World → Reconciler World
reconciler p = record {
  provider = some p;
  interval_seconds = pos 30;
  last_records = [];
  running = false;
  on_backend_selected = none;
}
