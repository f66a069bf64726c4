-- ===== src/Settings/Valid.antt =====
-- internal/config/config.go: what the rest of the program can rely on in loaded settings.
use Prim.Native.String.{len}
use gslb.Prelude.{
  pos, ltb_ℤ, String, Bool, true, false, not, ◌&&◌, ◌||◌, leb, ◌≡◌, ◌≢◌, ◌⊎◌, ◌↔◌, refl, sym, ◌∙◌,
  str_eq, eq_iff, inl, inr, arith,
}
use gslb.Result.{GoError, Result-cases, is_ok, ok, err}
use gslb.Settings.{
  Settings, Platform, FileRead, missing, failed, contents, default_config, accepted,
  apply_env_overrides, load_file, load, validate,
}
use gslb.Settings.Overrides.{Overridden, apply_env_overrides-Overridden}

-- Settings that the process can start with.
abbrev pub is_usable : Settings → Bool
is_usable cfg =
    not (str_eq cfg.listen_addr "")
    && ltb_ℤ (pos 0) cfg.health_check_workers
    && ltb_ℤ (pos 0) cfg.reconcile_interval
    && (not cfg.oidc.enabled
        || leb 32 (len cfg.jwt.secret)
          && not (str_eq cfg.oidc.issuer "")
          && not (str_eq cfg.oidc.client_id "")
          && not (str_eq cfg.oidc.client_secret "")
          && not (str_eq cfg.oidc.redirect_url ""))

-- Validate accepts a config exactly when it is usable.
validate-is_usable : (cfg : Settings) → is_usable cfg ≡ is_ok (validate cfg)
unfolding validate
validate-is_usable cfg = ground arith

-- The settings of the file: the defaults, where there is none.
abbrev pub FileGives : Platform → String → Settings → Type 0
FileGives os path cfg =
    (((path ≡ "") ⊎ ((path ≢ "") × (os.read_file path ≡ missing))) × (cfg ≡ default_config))
    ⊎ ((text : String) × (path ≢ "")
        × (os.read_file path ≡ contents text)
        × (os.unmarshal text default_config ≡ ok cfg))

FileRead-cases :
    (r : FileRead)
    → (r ≡ missing) ⊎ ((e : GoError) × (r ≡ failed e)) ⊎ ((text : String) × (r ≡ contents text))
FileRead-cases missing = inl refl
FileRead-cases (failed e) = inr (inl (e, refl))
FileRead-cases (contents text) = inr (inr (text, refl))

load_file-FileGives :
    (os : Platform) (path : String) (cfg : Settings)
    → FileGives os path cfg ↔ (load_file os path ≡ ok cfg)
unfolding load_file
load_file-FileGives os path cfg = elim (FileRead-cases (os.read_file path)) [
  | inl absent ↦ ground (arith, absent, eq_iff path "")
  | inr (inl (e, broken)) ↦ ground (arith, broken, eq_iff path "")
  | inr (inr (text, found)) ↦ elim (Result-cases (os.unmarshal text default_config)) [
    | inl (base, parsed) ↦ ground (arith, found, parsed, eq_iff path "")
    | inr (e, wrong) ↦ ground (arith, found, wrong, eq_iff path "")
  ]
]

-- Load, once the file is read: what Validate accepts.
load-load_file :
    (os : Platform) (path : String) (base cfg : Settings)
    → load_file os path ≡ ok base
    → (load os path ≡ ok cfg)
      ↔ ((cfg ≡ apply_env_overrides os base) × (is_ok (validate cfg) ≡ true))
unfolding load
load-load_file os path base cfg found =
    elim (Result-cases (validate (apply_env_overrides os base))) [
      | inl (d, valid) ↦ (
        λ loaded.
            let same : cfg ≡ apply_env_overrides os base = ground (arith, loaded, found, valid) in
            (same, rw same (rw valid refl)),
        λ (same, accepted). ground (arith, found, valid, same),
      )
      | inr (e, wrong) ↦ (
        λ loaded. absurd (ground (arith, loaded, found, wrong)),
        λ (same, accepted).
            let refused : is_ok (validate cfg) ≡ false = rw same (rw wrong refl) in
            absurd (ground (arith, refused, accepted)),
      )
    ]

-- Load returns no settings where the file gives none.
load-broken :
    (os : Platform) (path : String) (e : GoError) (cfg : Settings)
    → load_file os path ≡ err e
    → load os path ≢ ok cfg
unfolding load
load-broken os path e cfg broken loaded = ground (arith, broken, loaded)

-- Load, whatever the file and the environment, returns some settings exactly when they are the defaults or,
-- where there is a file, what it makes of the defaults, with what the environment replaces, and are usable:
-- there is an address, at least one worker, an interval above 0, and with OIDC a secret of 32 bytes or
-- more, an issuer, a client with a secret, and a redirect URL. A variable replaces a text where it is not
-- empty, a flag by whether it is "true" or "1", and a number where it parses and is positive. So a file that
-- cannot be read or parsed ends in an error, but not one that is missing.
pub load-loads :
    (os : Platform) (path : String) (cfg : Settings)
    → (load os path ≡ ok cfg) ↔ (
        (base : Settings) × FileGives os path base
        × Overridden os base cfg
        × (is_usable cfg ≡ true))
load-loads os path cfg = (
  λ loaded. elim (Result-cases (load_file os path)) [
    | inl (base, found) ↦
        let (same, valid) = (load-load_file os path base cfg found).0 loaded in
        (
          base,
          (load_file-FileGives os path base).1 found,
          (apply_env_overrides-Overridden os base cfg).1 same,
          validate-is_usable cfg ∙ valid,
        )
    | inr (e, broken) ↦ absurd (load-broken os path e cfg broken loaded)
  ],
  λ (base, gives, over, usable).
      (load-load_file os path base cfg ((load_file-FileGives os path base).0 gives)).1 (
        (apply_env_overrides-Overridden os base cfg).0 over,
        sym (validate-is_usable cfg) ∙ usable,
      ),
)
