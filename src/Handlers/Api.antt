-- ===== src/Handlers/Api.antt =====
-- internal/handlers/handlers.go: the responses, the audit log of the user's actions, and what the
-- handlers share. A handler takes the state `W` to a response and a new state. What gin's
-- `ShouldBindJSON` makes of a body is an argument of a handler, and `json.Marshal` a parameter.
use Prim.Native.String.{◌++◌}
use gslb.Prelude.{
  ℕ, ℤ, pos, negsuc, ◌+◌, String, Bool, Option, none, some, List, [], ◌∷◌, decimal, if◌then◌else◌,
}
use gslb.Types.{LbMethod, round_robin, weighted, other_method, AuditLog, Role}
use gslb.Result.{
  GoError, not_found, already_exists, foreign_key_violation, error_text, Result, ok, err, Exec,
}
use gslb.Store.{Store, ConfigRoleStore, Done}
use gslb.Auth.Middleware.{Context, user_id_of}

pub record ChangeEntry : Type 0 where
  pub field : String
  pub old : String
  pub new : String

-- `Response` with its status; a response without a body has neither data nor an error.
pub record Response (A : Type 0) : Type 0 where
  pub status : ℕ
  pub body : Option A
  pub error : String

-- The request as the handlers read it: the `:id` of the path, the session that the middleware set,
-- and the client.
pub record Caller : Type 0 where
  pub id : String
  pub context : Context
  pub client_ip : String
  pub user_agent : String

-- `oidc_enabled` is that `oidcService` is not nil. `start_reconcile` starts the goroutine that calls
-- `ReconcileConfig`; without a reconciler it is `none`. `marshal` is `json.Marshal`.
pub record Handlers (W : Type 0) : Type 0 where
  pub store : Store W
  pub config_roles : ConfigRoleStore W
  pub get_role_by_name : String → Exec W Role
  pub create_audit_log : AuditLog → Exec W Done
  pub oidc_enabled : Bool
  pub start_reconcile : Option (String → W → W)
  pub marshal : List ChangeEntry → Result String

abbrev pub build_details : (List ChangeEntry → Result String) → List ChangeEntry → String
build_details marshal [] = "{}"
build_details marshal (change ∷ rest) = elim (marshal (change ∷ rest)) [
  | ok text ↦ text
  | err e ↦ "{}"
]

-- `strconv.Itoa`
abbrev pub itoa : ℤ → String
itoa (pos n) = decimal n
itoa (negsuc n) = "-" ++ decimal (n + 1)

abbrev pub format_port : Option ℤ → String
format_port none = ""
format_port (some port) = itoa port

abbrev pub format_bool : Bool → String
format_bool b = if b then "true" else "false"

-- `string(cfg.LBMethod)`
abbrev pub method_text : LbMethod → String
method_text round_robin = "round_robin"
method_text weighted = "weighted"
method_text (other_method text) = text

abbrev pub entry : String → String → String → ChangeEntry
entry field old new = record { field = field; old = old; new = new }

-- An entry for a field that is not the same as before.
abbrev pub changed : Bool → String → String → String → List ChangeEntry
changed same field old new = if same then [] else entry field old new ∷ []

module _ {A : Type 0} where
  abbrev pub send_success : A → Response A
  send_success a = record { status = 200; body = some a; error = "" }

  -- `c.Status(http.StatusNoContent)`
  abbrev pub send_no_content : Response A
  send_no_content = record { status = 204; body = none; error = "" }

  abbrev pub send_error : ℕ → String → Response A
  send_error status text = record { status = status; body = none; error = text }

  abbrev pub send_validation_error : String → Response A
  send_validation_error text = send_error 400 text

  abbrev pub send_not_found : String → Response A
  send_not_found resource = send_error 404 (resource ++ " not found")

  abbrev pub send_internal_error : String → Response A
  send_internal_error text = send_error 500 text

  -- The comparisons are of values: a wrapped error is none of the three.
  unfoldable pub handle_store_error : GoError → Response A
  handle_store_error not_found = send_not_found "Resource"
  handle_store_error already_exists = send_error 409 "Resource already exists"
  handle_store_error foreign_key_violation = send_validation_error "Foreign key violation"
  handle_store_error _ = send_internal_error "internal error"

-- A handler that has its request.
abbrev pub Serve : Type 0 → Type 0 → Type 0
Serve W A = W → Response A × W

module _ {W A B : Type 0} where
  -- `if err != nil { ...; return }`
  abbrev pub served : (GoError → Response B) → Result A × W → (A → Serve W B) → Response B × W
  served on_error (ok a, w) next = next a w
  served on_error (err e, w) next = (on_error e, w)

  abbrev pub or_reply : (GoError → Response B) → Exec W A → (A → Serve W B) → Serve W B
  or_reply on_error m next w = served on_error (m w) next

  abbrev pub or_store_error : Exec W A → (A → Serve W B) → Serve W B
  or_store_error m next w = served handle_store_error (m w) next

  -- `ShouldBindJSON`
  abbrev pub bind_json : Result A → (A → Serve W B) → Serve W B
  bind_json (ok a) next w = next a w
  bind_json (err e) next w = (send_validation_error (error_text e), w)

-- The entry that `logAudit` makes.
abbrev pub audit_entry : String → String → String → String → String → String → Caller → AuditLog
audit_entry action entity_type entity_id entity_name config_id details caller = record {
  id = "";
  action = action;
  entity_type = entity_type;
  entity_id = entity_id;
  entity_name = entity_name;
  config_id = config_id;
  details = details;
  user_id = user_id_of caller.context;
  ip_address = caller.client_ip;
  user_agent = caller.user_agent;
  created_at = 0;
}

module _ {W : Type 0} (h : Handlers W) where
  abbrev pub trigger_reconcile : String → W → W
  trigger_reconcile config_id w = elim h.start_reconcile [
    | none ↦ w
    | some start ↦ start config_id w
  ]

  -- An error of the audit log is dropped.
  abbrev pub log_audit : String → String → String → String → String → String → Caller → W → W
  log_audit action entity_type entity_id entity_name config_id details caller w =
      (h.create_audit_log
        (audit_entry action entity_type entity_id entity_name config_id details caller) w).1
