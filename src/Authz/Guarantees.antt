-- ===== src/Authz/Guarantees.antt =====
-- What the commands on roles and permissions leave true of the enforcer's decisions.
use mathlib.Core.Path.{subst}
use go_codebase.Prelude.{ℕ, ◌≡◌, refl, sym, ap, ◌∙◌, String, true, some, List, map, All}
use go_codebase.Core.Proc.{ok}
use go_codebase.Core.Runtime.{Env}
use go_codebase.Authz.Tables.{Db}
use go_codebase.Authz.Repositories.{State}
use go_codebase.Authz.Casbin.{Casbin, Policy, rule_of}
use go_codebase.Authz.Policy.{
  load_user_flattened_policies, load_all_flattened_policies, reload_policies, enforce,
}
use go_codebase.Authz.Joins.{granted, role_grants}
use go_codebase.Authz.Synced.{Loaded, user_rules, all_rules, reload_policies-Loaded}
use go_codebase.Authz.Enforced.{Allows, Agrees, user_rules-Agrees, all_rules-Agrees}
use go_codebase.Authz.Changes.{
  RoleChange, PermissionChange, change_role, change_permission, Changed, change_role-Ensures,
  change_permission-Ensures,
}

module _ {M : Type 0} (env : Env) (c : Casbin M) (law : Allows c) where
  -- The rules and the decisions after a reload of the user's policies, where only the user's rows
  -- were changed since the rules last agreed with the tables.
  reload-Agrees :
      (user_id : ℕ) (d db end : Db M)
      → Agrees c law d
      → Changed user_id d db
      → All (λ p. law.readable p ≡ true) (load_user_flattened_policies c user_id end)
      → Loaded c db (user_rules c user_id db) end
      → Agrees c law end
  unfolding load_user_flattened_policies
  reload-Agrees user_id d db end before ch readable l =
      let fresh : All (λ p. law.readable p ≡ true) (load_user_flattened_policies c user_id db) =
        subst (λ x. All (λ p. law.readable p ≡ true) (load_user_flattened_policies c user_id x))
          l.same readable in
      user_rules-Agrees c law user_id db before.rules end
        (ap (λ x. x.casbin_rule) ch.same ∙ before.table) before.readable fresh
        (λ other obj act e.
          before.exact other obj act
          ∙ ch.others (λ role_id. role_grants d role_id obj act) other e
          ∙ ap (λ x. granted x other obj act) (sym ch.same))
        l

  -- Where the rules in casbin_rule and the enforcer's decisions are those of the tables, they still
  -- are after a role is given to a user or taken from it, if the command returns no error and the
  -- lines of the user's policies can be read.
  pub change_role-Agrees :
      (ch : RoleChange) (user_id role_id : ℕ) (w : State M)
      → Agrees c law w.db
      → (change_role env c ch user_id role_id w).0 ≡ ok tt
      → All
          (λ p. law.readable p ≡ true)
          (load_user_flattened_policies c user_id (change_role env c ch user_id role_id w).1.db)
      → Agrees c law (change_role env c ch user_id role_id w).1.db
  change_role-Agrees ch user_id role_id w before h readable =
      let (db, changed, loaded) =
        (change_role-Ensures env c ch user_id role_id w.db).at w tt (record { tables = refl }) h in
      reload-Agrees user_id w.db db (change_role env c ch user_id role_id w).1.db before changed
        readable loaded

  Loaded-Agrees :
      (db end : Db M) (old : List Policy)
      → db.casbin_rule ≡ map rule_of old
      → All (λ p. law.readable p ≡ true) (load_all_flattened_policies c end)
      → Loaded c db (all_rules c db) end
      → Agrees c law end
  unfolding load_all_flattened_policies
  Loaded-Agrees db end old table readable l =
      all_rules-Agrees c law db old end table
        (subst (λ x. All (λ p. law.readable p ≡ true) (load_all_flattened_policies c x)) l.same
          readable)
        l

  -- Where casbin_rule has only policies, and whatever they are, after a permission is given to a
  -- role or taken from it the rules and the enforcer's decisions are those of the tables, if the
  -- command returns no error and the lines of all policies can be read.
  pub change_permission-Agrees :
      (ch : PermissionChange) (role_id permission_id : ℕ) (old : List Policy) (w : State M)
      → w.db.casbin_rule ≡ map rule_of old
      → (change_permission env c ch role_id permission_id w).0 ≡ ok tt
      → All
          (λ p. law.readable p ≡ true)
          (load_all_flattened_policies c (change_permission env c ch role_id permission_id w).1.db)
      → Agrees c law (change_permission env c ch role_id permission_id w).1.db
  change_permission-Agrees ch role_id permission_id old w table h readable =
      let (db, same, loaded) =
        (change_permission-Ensures env c ch role_id permission_id w.db).at w tt
          (record { tables = refl }) h in
      Loaded-Agrees db (change_permission env c ch role_id permission_id w).1.db old (same ∙ table)
        readable loaded

  -- Where casbin_rule has only policies, after a reload that returns no error, as at the start of
  -- the program, the enforcer allows exactly the requests for which the user has a live role with a
  -- live permission, if the lines of all policies can be read.
  pub reload_policies-decides :
      (old : List Policy) (w : State M) (user_id : ℕ) (obj act : String)
      → w.db.casbin_rule ≡ map rule_of old
      → (reload_policies env c w).0 ≡ ok tt
      → All
          (λ p. law.readable p ≡ true)
          (load_all_flattened_policies c (reload_policies env c w).1.db)
      → enforce c user_id obj act (reload_policies env c w).1.db
        ≡ some (granted (reload_policies env c w).1.db user_id obj act)
  reload_policies-decides old w user_id obj act table h readable =
      let loaded =
        ((reload_policies-Loaded env c w.db).at w tt (record { tables = refl }) h).tables in
      (Loaded-Agrees w.db (reload_policies env c w).1.db old table readable loaded).enforced user_id
        obj act
