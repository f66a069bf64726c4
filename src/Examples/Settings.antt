-- ===== src/Examples/Settings.antt =====
-- internal/config: a file and an environment.
use gslb.Prelude.{true, ◌≡◌, ◌↔◌, refl, pos, str_eq, if◌then◌else◌}
use gslb.Result.{ok, err, message}
use gslb.Settings.{
  Settings, Platform, missing, contents, default_config, load, load_file, apply_env_overrides,
  validate,
}
use gslb.Settings.Overrides.{Overridden}
use gslb.Settings.Valid.{is_usable, FileGives, load-loads}

-- Two workers by the environment, and a file that turns OIDC on.
abbrev os : Platform
os = record {
  getenv = λ name. if str_eq name "GSLB_HEALTH_CHECK_WORKERS" then "2" else "";
  read_file = λ path. if str_eq path "gslb.yaml" then contents "oidc" else missing;
  to_lower = λ s. s;
  unmarshal = λ text cfg. ok (record cfg { oidc = record cfg.oidc { enabled = true } });
  scan_int = λ s. ok (pos 2);
  parse_duration = λ s. err (message "time: invalid duration");
}

load_defaults : load os "" ≡ ok (record default_config { health_check_workers = pos 2 })
unfolding load load_file apply_env_overrides validate
load_defaults = refl

abbrev two_workers : Settings
two_workers = record default_config { health_check_workers = pos 2 }

load-loads_example : (load os "" ≡ ok two_workers) ↔ (
    (base : Settings) × FileGives os "" base
    × Overridden os base two_workers
    × (is_usable two_workers ≡ true))
load-loads_example = load-loads os "" two_workers

load_refuses :
    load os "gslb.yaml" ≡ err (message "jwt.secret must be at least 32 bytes when OIDC is enabled")
unfolding load load_file apply_env_overrides validate
load_refuses = refl
