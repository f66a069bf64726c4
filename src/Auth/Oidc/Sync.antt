-- ===== src/Auth/Oidc/Sync.antt =====
-- internal/auth/oidc.go: who can log in, and what a login does to the roles.
use gslb.Prelude.{ℕ, String, false, ◌≡◌, List, [], arith}
use gslb.Types.{User, Role}
use gslb.Result.{ok, err, message, Exec}
use gslb.Store.{UserStore, Done}
use gslb.Auth.Oidc.{sync_user}

-- A user who is disabled cannot log in, and the login changes nothing but what the lookup did.
pub sync_user_disabled :
    {W : Type 0} (s : UserStore W) (now : ℕ) (default_role : String) (oidc_user existing : User)
    (names : List String) (w : W)
    → (s.get_user_by_subject oidc_user.subject w).0 ≡ ok existing
    → existing.is_active ≡ false
    → sync_user s now default_role oidc_user names w
      ≡ (err (message "authentication failed"), (s.get_user_by_subject oidc_user.subject w).1)
unfolding sync_user
sync_user_disabled s now default_role oidc_user existing names w found disabled =
    ground (arith, found, disabled)

-- Where the provider names no role, a login of a user who exists removes none: it does the same
-- whatever RemoveRole, AssignRole and GetUserRoles do.
sync_user_keeps_roles :
    {W : Type 0} (s : UserStore W) (remove : String → String → Exec W Done)
    (assign : String → String → String → Exec W Done) (list : String → Exec W (List Role)) (now : ℕ)
    (default_role : String) (oidc_user existing : User) (w : W)
    → (s.get_user_by_subject oidc_user.subject w).0 ≡ ok existing
    → sync_user s now default_role oidc_user [] w
      ≡ sync_user
          (record s { remove_role = remove; assign_role = assign; get_user_roles = list })
          now
          default_role
          oidc_user
          []
          w
unfolding sync_user
sync_user_keeps_roles s remove assign list now default_role oidc_user existing w found =
    ground (arith, found)
