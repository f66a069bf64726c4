-- ===== src/Handlers/Users/Granted.antt =====
-- internal/handlers/auth.go: what a role that is assigned or removed changes.
use gslb.Prelude.{
  leb, ℕ, String, Bool, true, ◌&&◌, ◌||◌, ◌≡◌, refl, ◌⊎◌, inl, inr, none, [], ◌∷◌, ltb, str_eq,
  eq_iff, Option-cases, arith,
}
use gslb.Types.{User, Role}
use gslb.Result.{
  GoError, not_found, already_exists, foreign_key_violation, message, wrapped, annotated, Result,
  ok, err, Result-cases,
}
use gslb.Store.{Done}
use gslb.Store.Sql.{Database, attempt, attempt_ran, in_context}
use gslb.Store.Rows.{exists_by, has_key}
use gslb.Store.Tables.{Driver}
use gslb.Store.Access.{Pairs, has_pair, insert_pair, count_access}
use gslb.Store.Access.Granted.{has_pair-insert_pair, count_users-has_pair}
use gslb.Store.Users.{Accounts, assign_role, assign_role_row}
use gslb.Handlers.Api.{Caller, handle_store_error}
use gslb.Handlers.Users.{AssignRoleRequest, Office, administration, assign_user_role}

-- What CanAccess answers of a config, on the tables as they are.
abbrev pub access : String → String → Accounts → Bool
access user_id config_id t =
    ltb 0 (count_access user_id config_id t.tables.user_roles t.tables.config_roles)

access-insert_pair :
    (user_id role_id other config_id : String) (pairs l : Pairs)
    → ltb 0 (count_access other config_id (insert_pair user_id role_id pairs) l) ≡ (
        str_eq user_id other && has_pair config_id role_id l
        || ltb 0 (count_access other config_id pairs l))
unfolding count_access
access-insert_pair user_id role_id other config_id pairs [] = ground arith
access-insert_pair user_id role_id other config_id pairs ((c, r) ∷ rest) = ground (
  arith,
  access-insert_pair user_id role_id other config_id pairs rest,
  count_users-has_pair other r (insert_pair user_id role_id pairs),
  count_users-has_pair other r pairs,
  has_pair-insert_pair user_id role_id other r pairs,
  eq_iff role_id r,
  eq_iff r role_id,
)

-- The rows after an assignment that ran.
abbrev with_pairs : Pairs → Accounts → Accounts
with_pairs pairs t = record t { tables = record t.tables { user_roles = pairs } }

module _ (driver : Driver) (user_id role_id assigned_by : String) (db : Database Accounts) where
  abbrev assigned : Result Done × Database Accounts
  assigned = assign_role driver user_id role_id assigned_by db

  assign_role-cases :
      ((assigned.0 ≡ ok tt)
        × (exists_by (has_key User.id user_id) db.rows.users ≡ true)
        × (exists_by (has_key Role.id role_id) db.rows.tables.roles ≡ true)
        × (assigned.1.rows
            ≡ with_pairs (insert_pair user_id role_id db.rows.tables.user_roles) db.rows))
      ⊎ ((e : GoError) × (assigned.0 ≡ err e) × (assigned.1.rows ≡ db.rows))
  unfolding assign_role assign_role_row attempt
  assign_role-cases = elim (Result-cases assigned.0) [
    | inl (d, ok_) ↦ inl (
        ground (
          arith,
          ok_,
          attempt_ran (in_context "assign role") (assign_role_row driver user_id role_id) db tt ok_,
        ))
    | inr (e, err_) ↦ inr (e, err_, ground (arith, err_))
  ]

refusal :
    (e : GoError)
    → (leb 400 (handle_store_error {A = String} e).status ≡ true)
      × ((handle_store_error {A = String} e).body ≡ none)
unfolding handle_store_error
refusal not_found = (refl, refl)
refusal already_exists = (refl, refl)
refusal foreign_key_violation = (refl, refl)
refusal (message text) = (refl, refl)
refusal (wrapped text e) = (refl, refl)
refusal (annotated e text) = (refl, refl)

module _ (driver : Driver) (new_id log_id : String) (now : ℕ) where
  -- An assignment of a role to a user, whatever the body and whichever statements the database refuses.
  -- Either it answers 200: then the user and the role exist, and afterwards every user has access to the
  -- configs as before, and the user of the request to those with the role too. Or it answers with a
  -- status of 400 or more and without data, and the tables and the audit log are as before.
  pub assign_user_role-grants :
      (caller : Caller) (body : Result AssignRoleRequest) (other config_id : String) (w : Office)
      → let reply = assign_user_role (administration driver new_id log_id now) caller body w in
        ((role_id : String) × (body ≡ ok (record { role_id = role_id }))
          × (reply.0.status ≡ 200)
          × (exists_by (has_key User.id caller.id) w.accounts.rows.users ≡ true)
          × (exists_by (has_key Role.id role_id) w.accounts.rows.tables.roles ≡ true)
          × (access other config_id reply.1.accounts.rows ≡ (
              str_eq caller.id other
                && has_pair config_id role_id w.accounts.rows.tables.config_roles
              || access other config_id w.accounts.rows)))
        ⊎ ((leb 400 reply.0.status ≡ true)
            × (reply.0.body ≡ none)
            × (reply.1.accounts.rows ≡ w.accounts.rows)
            × (reply.1.logs ≡ w.logs))
  unfolding assign_user_role
  assign_user_role-grants caller body other config_id w = elim (Result-cases body) [
    | inr (e, b) ↦ inr (ground (arith, b))
    | inl (req, b) ↦ elim (Option-cases caller.context) [
      | inl c ↦ inr (ground (arith, b, c))
      | inr (session, c) ↦
          elim (assign_role-cases driver caller.id req.role_id session.user_id w.accounts) [
            | inl (ok_, user, role, rows) ↦
                let after : (assign_user_role (administration driver new_id log_id now) caller body
                      w).1.accounts.rows
                    ≡ with_pairs
                        (insert_pair caller.id req.role_id w.accounts.rows.tables.user_roles)
                        w.accounts.rows =
                  ground (arith, b, c, ok_, rows) in
                inl (
                  req.role_id,
                  b,
                  ground (arith, b, c, ok_),
                  user,
                  role,
                  rw after (
                      access-insert_pair caller.id req.role_id other config_id
                        w.accounts.rows.tables.user_roles w.accounts.rows.tables.config_roles),
                )
            | inr (e, err_, rows) ↦ inr (
              ground (arith, b, c, err_, refusal e),
              ground (arith, b, c, err_, refusal e),
              ground (arith, b, c, err_, rows),
              ground (arith, b, c, err_),
            )
          ]
    ]
  ]
