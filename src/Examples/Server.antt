-- ===== src/Examples/Server.antt =====
-- A server with a small database: one config with two backends, a health check and a provider, and a
-- second config. The ciphers mark what they seal, and texts are written in unary.
use Prim.Native.Char.{char, code}
use gslb.Prelude.{
  ℕ, ◌+◌, suc, zero, pos, String, true, false, Option, some, List, [], ◌∷◌, ◌≡◌, refl, ap, ◌∙◌,
  replicate, ◌==◌, if◌then◌else◌, arith,
}
use gslb.Types.{HealthCheck, DnsProviderConfig, Config, round_robin, healthy}
use gslb.Result.{message, Result, ok, err}
use gslb.Crypto.{Aead, CryptoLib, Encryptor}
use gslb.Store.Sql.{Database}
use gslb.Store.Tables.{Driver, Tables}
use gslb.Handlers.Api.{Caller}
use gslb.Handlers.Site.{Server, Site}
use gslb.Examples.World.{app, first_backend, second_backend, state_of}
use gslb.Examples.Access.{tables as role_tables}
use gslb.Examples.Sessions.{alice}

abbrev seal : List ℕ → List ℕ → List ℕ
seal nonce bytes = 7 ∷ bytes

abbrev open_sealed : List ℕ → List ℕ → Result (List ℕ)
open_sealed nonce [] = err (message "cipher: message authentication failed")
open_sealed nonce (t ∷ bytes) =
    if t == 7 then ok bytes else err (message "cipher: message authentication failed")

abbrev pub gcm : Aead
gcm = record { nonce_size = 2; seal = seal; open_sealed = open_sealed }

abbrev marks : ℕ → String → String
marks zero rest = String.◌∷◌ (char 98 tt) rest
marks (suc n) rest = String.◌∷◌ (char 97 tt) (marks n rest)

abbrev encode : List ℕ → String
encode [] = String.[]
encode (n ∷ rest) = marks n (encode rest)

abbrev decode : ℕ → String → List ℕ
decode n String.[] = []
decode n (String.◌∷◌ c s) = elim (code c == 97) [ true ↦ decode (suc n) s | false ↦ n ∷ decode 0 s ]

decode-marks : (m n : ℕ) (s : String) → decode m (marks n s) ≡ (m + n) ∷ decode 0 s
decode-marks m zero s = ap (λ k. k ∷ decode 0 s) (omega arith)
decode-marks m (suc n) s = decode-marks (suc m) n s ∙ ap (λ k. k ∷ decode 0 s) (omega arith)

pub decode-encode : (bytes : List ℕ) → decode 0 (encode bytes) ≡ bytes
decode-encode [] = refl
decode-encode (n ∷ rest) =
    decode-marks 0 n (encode rest)
    ∙ ap (λ k. k ∷ decode 0 (encode rest)) (omega arith)
    ∙ ap (λ more. n ∷ more) (decode-encode rest)

-- The bytes of the one text that the examples encrypt.
abbrev pub lib : CryptoLib
lib = record {
  Block = List ℕ;
  to_bytes = λ s. 116 ∷ 111 ∷ 107 ∷ [];
  of_bytes = λ bytes. "tok";
  encode_base64 = encode;
  decode_base64 = λ s. ok (decode 0 s);
  new_cipher = λ key. ok key;
  new_gcm = λ block. ok gcm;
}

abbrev pub fill : ℕ → List ℕ
fill n = replicate n 0

abbrev pub encryptor : Option Encryptor
encryptor = some (record { gcm = gcm })

abbrev pub driver : Driver
driver = record {
  foreign_key_failed = "FOREIGN KEY constraint failed";
  unique_failed = λ column. column;
}

abbrev pub other_app : Config
other_app = record app {
  id = "d";
  name = "other";
  dns_name = "other.example.com";
  lb_method = round_robin;
}

abbrev pub check : HealthCheck
check = record {
  id = "h1";
  config_id = "c";
  type = "tcp";
  interval_seconds = pos 10;
  timeout_seconds = pos 5;
  threshold_healthy = pos 2;
  threshold_unhealthy = pos 3;
}

-- The credentials were written with another key.
abbrev pub old_provider : DnsProviderConfig
old_provider = record {
  id = "p1";
  config_id = "c";
  provider_type = "cloudflare";
  config_json = "enc:ab";
}

abbrev pub db : Database Tables
db = record {
  rows = record {
    configs = app ∷ other_app ∷ [];
    backends = first_backend ∷ second_backend ∷ [];
    checks = check ∷ [];
    states = state_of "b1" healthy ∷ [];
    providers = old_provider ∷ [];
    history = [];
  };
  faults = [];
}

abbrev pub site : Site
site = record {
  db = db;
  roles = role_tables;
  logs = record { rows = []; faults = [] };
  started = [];
}

abbrev pub server : Server
server = record {
  lib = lib;
  enc = encryptor;
  random = λ n. ok (fill n);
  driver = driver;
  new_id = "n1";
  log_id = "l1";
  now = 50;
  oidc_enabled = true;
  marshal = λ changes. ok "changes";
}

abbrev pub caller : String → Caller
caller id = record { id = id; context = some alice; client_ip = "127.0.0.1"; user_agent = "curl" }
