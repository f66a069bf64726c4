-- ===== src/Handlers/Users.antt =====
-- internal/handlers/auth.go: GetCurrentUser, ListRoles, ListUsers, AssignUserRole and RemoveUserRole. A type
-- assertion on a session that is missing panics, which gin.Recovery answers with an empty 500; the routes
-- put auth.Middleware in front.
pub mod Granted
use gslb.Prelude.{ℕ, String, none, some, List}
use gslb.Types.{User, Role, AuditLog}
use gslb.Result.{Result, ok, err, Exec}
use gslb.Store.{UserStore, Done}
use gslb.Store.Sql.{Database}
use gslb.Store.Tables.{Driver}
use gslb.Store.Audit.{Logs, create_audit_log}
use gslb.Store.Users
use gslb.Store.Users.{Accounts, user_store}
use gslb.Handlers.Api.{
  Caller, Serve, audit_entry, send_success, send_error, send_internal_error, or_reply,
  or_store_error, bind_json,
}

-- What these handlers use of the store.
pub record UserAdministration (W : Type 0) : Type 0 where
  pub users : UserStore W
  pub list_users : Exec W (List User)
  pub list_roles : Exec W (List Role)
  pub create_audit_log : AuditLog → Exec W Done

pub record AssignRoleRequest : Type 0 where
  pub role_id : String

module _ {W : Type 0} (h : UserAdministration W) where
  unfoldable pub get_current_user : Caller → Serve W User
  get_current_user caller w = elim caller.context [
    | none ↦ (send_error 401 "not authenticated", w)
    | some session ↦
        or_reply (λ e. send_internal_error "failed to get user")
          (h.users.get_user_by_id session.user_id) (λ user w'. (send_success user, w')) w
  ]

  unfoldable pub list_roles : Serve W (List Role)
  list_roles =
      or_reply (λ e. send_internal_error "failed to list roles") h.list_roles
        (λ roles w. (send_success roles, w))

  unfoldable pub list_users : Serve W (List User)
  list_users =
      or_reply (λ e. send_internal_error "failed to list users") h.list_users
        (λ users w. (send_success users, w))

  unfoldable pub assign_user_role : Caller → Result AssignRoleRequest → Serve W String
  assign_user_role caller body = bind_json body (λ req w. elim caller.context [
    | none ↦ (send_internal_error "", w)
    | some session ↦
        or_store_error (h.users.assign_role caller.id req.role_id session.user_id)
          (λ _ w'. (
            send_success "role assigned",
            (h.create_audit_log
                (audit_entry "user:role:assign" "user" caller.id "" "" req.role_id caller) w').1,
          ))
          w
  ])

  -- The role of the path is `role_id`.
  unfoldable pub remove_user_role : Caller → String → Serve W String
  remove_user_role caller role_id = or_store_error (h.users.remove_role caller.id role_id) (λ _ w. (
    send_success "role removed",
    (h.create_audit_log (audit_entry "user:role:remove" "user" caller.id "" "" role_id caller) w).1,
  ))

-- The database, less the tables that these handlers do not read.
pub record Office : Type 0 where
  pub accounts : Database Accounts
  pub logs : Logs

module _ {A : Type 0} where
  abbrev pub at_accounts : Exec (Database Accounts) A → Exec Office A
  at_accounts m w = ((m w.accounts).0, record w { accounts = (m w.accounts).1 })

  abbrev pub at_logs : Exec Logs A → Exec Office A
  at_logs m w = ((m w.logs).0, record w { logs = (m w.logs).1 })

abbrev pub administration : Driver → String → String → ℕ → UserAdministration Office
administration driver new_id log_id now =
    let s = user_store driver new_id in
    record {
      users = record {
        create_user = λ u. at_accounts (s.create_user u);
        get_user_by_id = λ id. at_accounts (s.get_user_by_id id);
        get_user_by_subject = λ subject. at_accounts (s.get_user_by_subject subject);
        update_user = λ u. at_accounts (s.update_user u);
        assign_role = λ user_id role_id by. at_accounts (s.assign_role user_id role_id by);
        remove_role = λ user_id role_id. at_accounts (s.remove_role user_id role_id);
        get_user_roles = λ user_id. at_accounts (s.get_user_roles user_id);
        get_role_by_name = λ name. at_accounts (s.get_role_by_name name);
      };
      list_users = at_accounts Users.list_users;
      list_roles = at_accounts Users.list_roles;
      create_audit_log = λ log. at_logs (create_audit_log driver log_id now log);
    }
