-- ===== src/Handlers/Configs.antt =====
-- internal/handlers/config.go and config_roles.go: the configs and the roles that may access them.
pub mod Roles
use gslb.Prelude.{
  String, Bool, true, false, ◌&&◌, not, Option, none, some, List, [], ◌∷◌, ◌++◌, ℤ, eqb_ℤ, str_eq,
  filter_by, if◌then◌else◌,
}
use gslb.Types.{Config, LbMethod, Role}
use gslb.Result.{Result, ok, err, Exec}
use gslb.Auth.Middleware.{roles_of, user_id_of}
use gslb.Auth.Oidc.{has_role}
use gslb.Store.{Done}
use gslb.Store.Access.{has_text}
use gslb.Handlers.Api.{
  Handlers, Caller, Response, Serve, ChangeEntry, entry, changed, build_details, itoa, method_text,
  send_success, send_no_content, send_validation_error, send_internal_error, or_store_error,
  or_reply, bind_json, log_audit,
}

pub record CreateConfigRequest : Type 0 where
  pub name : String
  pub dns_name : String
  pub dns_ttl : ℤ
  pub lb_method : LbMethod
  pub roles : List String

pub record UpdateConfigRequest : Type 0 where
  pub name : String
  pub dns_name : String
  pub dns_ttl : ℤ
  pub lb_method : LbMethod

abbrev pub config_of : CreateConfigRequest → Config
config_of req = record {
  id = "";
  name = req.name;
  dns_name = req.dns_name;
  dns_ttl = req.dns_ttl;
  lb_method = req.lb_method;
  last_reconcile_error = "";
}

module _ {W : Type 0} (h : Handlers W) where
  -- A role that is not known is passed over, and so is a role that cannot be assigned.
  unfoldable pub assign_known : String → List String → W → W
  assign_known config_id [] w = w
  assign_known config_id (name ∷ rest) w =
      let found = h.get_role_by_name name w in
      elim found.0 [
        | err e ↦ assign_known config_id rest found.1
        | ok role ↦
            assign_known config_id rest
              (h.config_roles.assign_config_role config_id role.id found.1).1
      ]

  abbrev pub roles_to_assign : CreateConfigRequest → Caller → List String
  roles_to_assign req caller = elim req.roles [ [] ↦ roles_of caller.context | r ∷ rest ↦ r ∷ rest ]

  abbrev pub created_changes : Config → List ChangeEntry
  created_changes cfg =
      entry "name" "" cfg.name
      ∷ entry "dns_name" "" cfg.dns_name
      ∷ entry "dns_ttl" "" (itoa cfg.dns_ttl)
      ∷ entry "lb_method" "" (method_text cfg.lb_method)
      ∷ []

  unfoldable pub create_config : Caller → Result CreateConfigRequest → Serve W Config
  create_config caller body w =
      bind_json body
        (λ req. or_store_error (h.store.configs.create_config (config_of req)) (λ cfg w.
          let assigned =
            if h.oidc_enabled then assign_known cfg.id (roles_to_assign req caller) w else w in
          (
            send_success cfg,
            log_audit h "config:create" "config" cfg.id cfg.name cfg.id
                (build_details h.marshal (created_changes cfg)) caller assigned,
          )))
        w

  unfoldable pub get_config : Caller → Serve W Config
  get_config caller w =
      if str_eq caller.id ""
      then (send_validation_error "config id is required", w)
      else or_store_error (h.store.configs.get_config caller.id) (λ cfg w. (send_success cfg, w)) w

  abbrev pub config_changes : Config → Config → List ChangeEntry
  config_changes existing cfg =
      changed (str_eq existing.name cfg.name) "name" existing.name cfg.name
      ++ changed (str_eq existing.dns_name cfg.dns_name) "dns_name" existing.dns_name cfg.dns_name
      ++ changed (eqb_ℤ existing.dns_ttl cfg.dns_ttl) "dns_ttl" (itoa existing.dns_ttl)
          (itoa cfg.dns_ttl)
      ++ changed (str_eq (method_text existing.lb_method) (method_text cfg.lb_method)) "lb_method"
          (method_text existing.lb_method) (method_text cfg.lb_method)

  abbrev pub updated_config : String → UpdateConfigRequest → Config
  updated_config id req = record {
    id = id;
    name = req.name;
    dns_name = req.dns_name;
    dns_ttl = req.dns_ttl;
    lb_method = req.lb_method;
    last_reconcile_error = "";
  }

  unfoldable pub update_config : Caller → Result UpdateConfigRequest → Serve W Config
  update_config caller body w =
      if str_eq caller.id ""
      then (send_validation_error "config id is required", w)
      else bind_json body
          (λ req. or_store_error (h.store.configs.get_config caller.id) (λ existing.
            or_store_error (h.store.configs.update_config (updated_config caller.id req)) (λ done w.
              let cfg = updated_config caller.id req in
              (
                send_success cfg,
                log_audit h "config:update" "config" cfg.id cfg.name cfg.id
                    (build_details h.marshal (config_changes existing cfg)) caller w,
              ))))
          w

  abbrev pub deleted_changes : Config → List ChangeEntry
  deleted_changes cfg =
      entry "name" cfg.name ""
      ∷ entry "dns_name" cfg.dns_name ""
      ∷ entry "dns_ttl" (itoa cfg.dns_ttl) ""
      ∷ entry "lb_method" (method_text cfg.lb_method) ""
      ∷ []

  unfoldable pub delete_config : Caller → Serve W Done
  delete_config caller w =
      if str_eq caller.id ""
      then (send_validation_error "config id is required", w)
      else or_store_error (h.store.configs.get_config caller.id)
          (λ cfg. or_store_error (h.store.configs.delete_config caller.id) (λ done w. (
            send_no_content,
            log_audit h "config:delete" "config" caller.id cfg.name caller.id
                (build_details h.marshal (deleted_changes cfg)) caller w,
          )))
          w

  -- The config is one of those that the ids name.
  abbrev pub is_accessible : List String → Config → Bool
  is_accessible ids cfg = has_text cfg.id ids

  abbrev pub list_all : Serve W (List Config)
  list_all w =
      or_store_error h.store.configs.list_configs (λ configs w. (send_success configs, w)) w

  abbrev pub list_accessible : String → Serve W (List Config)
  list_accessible user_id w =
      or_reply (λ e. send_internal_error "failed to list configs")
        (h.config_roles.list_configs_for_user user_id)
        (λ ids w. elim ids [
          | [] ↦ (send_success [], w)
          | id ∷ rest ↦
              or_reply (λ e. send_internal_error "failed to list configs")
                h.store.configs.list_configs
                (λ all w. (send_success (filter_by (is_accessible (id ∷ rest)) all), w)) w
        ])
        w

  unfoldable pub list_configs : Caller → Serve W (List Config)
  list_configs caller w =
      if h.oidc_enabled
        && not (has_role "admin" (roles_of caller.context))
        && not (str_eq (user_id_of caller.context) "")
      then list_accessible (user_id_of caller.context) w
      else list_all w

  -- config_roles.go
  unfoldable pub get_config_roles : Caller → Serve W (List Role)
  get_config_roles caller w =
      if str_eq caller.id ""
      then (send_validation_error "config id is required", w)
      else or_store_error (h.store.configs.get_config caller.id)
          (λ cfg.
            or_reply (λ e. send_internal_error "failed to get config roles")
              (h.config_roles.get_config_roles caller.id) (λ roles w. (send_success roles, w)))
          w

  unfoldable pub remove_all : String → List Role → Exec W Done
  remove_all config_id [] w = (ok tt, w)
  remove_all config_id (r ∷ rest) w =
      let removed = h.config_roles.remove_config_role config_id r.id w in
      elim removed.0 [ err e ↦ (err e, removed.1) | ok _ ↦ remove_all config_id rest removed.1 ]

  -- Here a role that cannot be assigned ends the loop.
  unfoldable pub assign_all : String → List String → Exec W Done
  assign_all config_id [] w = (ok tt, w)
  assign_all config_id (name ∷ rest) w =
      let found = h.get_role_by_name name w in
      elim found.0 [
        | err e ↦ assign_all config_id rest found.1
        | ok role ↦
            let assigned = h.config_roles.assign_config_role config_id role.id found.1 in
            elim assigned.0 [
              | err e ↦ (err e, assigned.1)
              | ok _ ↦ assign_all config_id rest assigned.1
            ]
      ]

  unfoldable pub update_config_roles : Caller → Result (List String) → Serve W String
  update_config_roles caller body w =
      if str_eq caller.id ""
      then (send_validation_error "config id is required", w)
      else or_store_error (h.store.configs.get_config caller.id)
          (λ cfg. bind_json body (λ names.
            or_reply (λ e. send_internal_error "failed to get existing config roles")
              (h.config_roles.get_config_roles caller.id)
              (λ existing.
                or_reply (λ e. send_internal_error "failed to remove config role")
                  (remove_all caller.id existing)
                  (λ removed.
                    or_reply (λ e. send_internal_error "failed to assign config role")
                      (assign_all caller.id names)
                      (λ assigned w. (
                        send_success "roles updated",
                        log_audit h "config:roles:update" "config" caller.id "" caller.id "" caller
                            w,
                      ))))))
          w
