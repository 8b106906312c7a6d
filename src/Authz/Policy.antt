-- ===== src/Authz/Policy.antt =====
-- internal/authorization/infrastructure/casbin: sync.go, which writes the users' permissions into
-- the table casbin_rule, and enforcer.go, which decides by the policy that is loaded from there.
use go_codebase.Prelude.{
  ℕ, String, Bool, not, ◌&&◌, Option, none, some, List, [], ◌∷◌, ◌++◌, map, if◌then◌else◌, any,
  select, str_eq, ◌==◌,
}
use go_codebase.Core.Errors.{plain, wrap}
use go_codebase.Core.Proc.{Result, ok, err, ◌>>=◌, ◌>>◌, return, on_error}
use go_codebase.Core.Runtime.{Env, round_trip, read, exec}
use go_codebase.Authz.Entity.{UserRole, RolePermission}
use go_codebase.Authz.Tables.{PermissionRecord, Db, CasbinRule, live_role, live_permission}
use go_codebase.Authz.Repositories.{Action, State}
use go_codebase.Authz.Casbin.{Casbin, Policy, rule_of, load_lines, in_tx}

abbrev pub flat_map : {A B : Type 0} → (A → List B) → List A → List B
flat_map f [] = []
flat_map f (x ∷ xs) = f x ++ flat_map f xs

abbrev pub same_policy : (sub obj act : String) → Policy → Bool
same_policy sub obj act p = str_eq sub p.sub && (str_eq obj p.obj && str_eq act p.act)

-- `GROUP BY`: each policy once.
abbrev pub grouped : List Policy → List Policy
grouped [] = []
grouped (p ∷ ps) =
    let rest = grouped ps in if any (same_policy p.sub p.obj p.act) rest then rest else p ∷ rest

module _ {M : Type 0} (c : Casbin M) where
  abbrev pub policy_of_row : (user_id : ℕ) → PermissionRecord → Policy
  policy_of_row user_id p = record { sub = c.uuid_text user_id; obj = p.resource; act = p.action }

  -- The four joined tables, from one row of role_permissions, from all of a role, and from one row
  -- of user_roles.
  abbrev pub linked_policies : Db M → (user_id : ℕ) → RolePermission → List Policy
  linked_policies db user_id rp =
      map (policy_of_row user_id)
        (select (λ p. p.id == rp.permission_id && live_permission p) db.permissions)

  abbrev pub role_policies : Db M → UserRole → List Policy
  role_policies db ur =
      flat_map (linked_policies db ur.user_id)
        (select (λ rp. rp.role_id == ur.role_id) db.role_permissions)

  abbrev pub policies_of : Db M → UserRole → List Policy
  policies_of db ur =
      flat_map (λ r. role_policies db ur) (select (λ r. r.id == ur.role_id && live_role r) db.roles)

  unfoldable pub load_user_flattened_policies : ℕ → Db M → List Policy
  load_user_flattened_policies user_id db =
      grouped (flat_map (policies_of db) (select (λ ur. ur.user_id == user_id) db.user_roles))

  unfoldable pub load_all_flattened_policies : Db M → List Policy
  load_all_flattened_policies db = grouped (flat_map (policies_of db) db.user_roles)

  abbrev pub with_model : Option M → Action M (Unit {0})
  with_model none w = (
    err (plain "load policy line"),
    record w { db = record w.db { model = c.after_failure w.db.model } },
  )
  with_model (some m) w = (ok tt, record w { db = record w.db { model = m } })

  -- The enforcer's LoadPolicy with the adapter's.
  abbrev pub after_query : Result (Unit {0}) × State M → Result (Unit {0}) × State M
  after_query (ok u, w) = with_model (load_lines c w.db.casbin_rule (c.cleared w.db.model)) w
  after_query (err e, w) = (
    err (wrap "load policy" e),
    record w { db = record w.db { model = c.after_failure w.db.model } },
  )

module _ {M : Type 0} (env : Env) (c : Casbin M) where
  unfoldable pub load_policy : Action M (Unit {0})
  unfolding load_lines
  load_policy w = after_query c (round_trip env w)

  abbrev pub insert_policies : List Policy → Action M (Unit {0})
  insert_policies [] = return tt
  insert_policies (p ∷ ps) = do
    exec env "insert policy"
        (λ db. some (record db { casbin_rule = db.casbin_rule ++ rule_of p ∷ [] }))
    insert_policies ps

  -- The transaction of both functions of sync.go: `old` are the rows that it replaces.
  unfoldable pub replace_policies : (old : CasbinRule → Bool) → List Policy → Action M (Unit {0})
  replace_policies old policies =
      in_tx env "begin tx"
        (do
          exec env "delete existing policies"
              (λ db. some (record db { casbin_rule = select (λ r. not (old r)) db.casbin_rule }))
          on_error (round_trip env) (wrap "prepare insert")
          insert_policies policies)
        (on_error (round_trip env) (wrap "commit"))

  unfoldable pub sync_user_policies : ℕ → Action M (Unit {0})
  unfolding load_user_flattened_policies replace_policies load_policy
  sync_user_policies user_id = do
    on_error (round_trip env) (λ e. wrap "load flattened policies" (wrap "query user policies" e))
    policies ← read (load_user_flattened_policies c user_id)
    replace_policies (λ r. str_eq r.ptype "p" && str_eq r.v0 (c.uuid_text user_id)) policies
    on_error load_policy (wrap "load policy")

  unfoldable pub sync_all_policies : Action M (Unit {0})
  unfolding load_all_flattened_policies replace_policies load_policy
  sync_all_policies = do
    on_error (round_trip env)
        (λ e. wrap "load all flattened policies" (wrap "query all policies" e))
    policies ← read (load_all_flattened_policies c)
    replace_policies (λ r. str_eq r.ptype "p") policies
    load_policy

  unfoldable pub reload_policies : Action M (Unit {0})
  unfolding sync_all_policies
  reload_policies = on_error sync_all_policies (wrap "reload policies")

  unfoldable pub reload_user_policies : ℕ → Action M (Unit {0})
  unfolding sync_user_policies
  reload_user_policies user_id = on_error (sync_user_policies user_id) (wrap "reload user policies")

-- The decision for a user, with none for an error.
unfoldable pub enforce :
    {M : Type 0} → (c : Casbin M) → (user_id : ℕ) (resource action : String) → Db M → Option Bool
enforce c user_id resource action db = c.enforce db.model (c.uuid_text user_id) resource action
