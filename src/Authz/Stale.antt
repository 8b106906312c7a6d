-- ===== src/Authz/Stale.antt =====
-- What a deleted role leaves of the enforcer's decisions, and what the adapter's AddPolicy does.
use go_codebase.Prelude.{
  ℕ, ◌≡◌, refl, String, false, ◌&&◌, none, some, List, [], ◌∷◌, any, update_where, ◌==◌, arith,
}
use go_codebase.Core.Errors.{GoError}
use go_codebase.Core.Proc.{ok, err}
use go_codebase.Core.Runtime.{Env}
use go_codebase.Core.Runtime.Ends.{exec-none}
use go_codebase.Authz.Tables.{RoleRecord, Db, live_role, role_matches, delete_role_row}
use go_codebase.Authz.Repositories.{State, delete_role_of}
use go_codebase.Authz.Commands.{delete_role}
use go_codebase.Authz.Casbin.{Casbin, insert_values, padded, add_policy}
use go_codebase.Authz.Policy.{enforce}
use go_codebase.Authz.Joins.{granted, role_grants}
use go_codebase.Authz.Enforced.{Allows, Agrees}

no_live_role :
    (id now : ℕ) (rows : List RoleRecord)
    → any
        (λ r. r.id == id && live_role r)
        (update_where
          (role_matches id)
          (λ r. record r { deleted_at = some now; updated_at = now })
          rows)
      ≡ false
no_live_role id now [] = refl
no_live_role id now (x ∷ xs) = ground (arith, no_live_role id now xs)

module _ {M : Type 0} (env : Env) (id : ℕ) (w : State M) where
  deleted_role_rows :
      (delete_role env id w).0 ≡ ok tt
      → (delete_role env id w).1.db ≡ record w.db {
        roles =
            update_where
              (role_matches id)
              (λ r. record r { deleted_at = some (env.now w.tick); updated_at = env.now w.tick })
              w.db.roles;
      }
  unfolding delete_role delete_role_of delete_role_row
  deleted_role_rows h = ground arith

  -- Where the enforcer's decisions are those of the tables, deleting a role, with no error, leaves
  -- the role without any permission in the tables, but the enforcer goes on deciding by the tables
  -- as they were before, so that the users of the role keep its permissions.
  pub deleted_role-enforced :
      (c : Casbin M) (law : Allows c) (user_id : ℕ) (obj act : String)
      → Agrees c law w.db
      → (delete_role env id w).0 ≡ ok tt
      → (role_grants (delete_role env id w).1.db id obj act ≡ false)
        × (enforce c user_id obj act (delete_role env id w).1.db
            ≡ some (granted w.db user_id obj act))
  unfolding enforce
  deleted_role-enforced c law user_id obj act before h =
      let same = deleted_role_rows h in
      (
        rw (same, no_live_role id (env.now w.tick) w.db.roles) refl,
        rw (same) (before.enforced user_id obj act),
      )

insert_values-none :
    {M : Type 0} (a : String) (rule : List String) (db : Db M)
    → insert_values (padded 8 (a ∷ rule)) db ≡ none
insert_values-none a [] db = refl
insert_values-none a (b ∷ []) db = refl
insert_values-none a (b ∷ c ∷ []) db = refl
insert_values-none a (b ∷ c ∷ d ∷ []) db = refl
insert_values-none a (b ∷ c ∷ d ∷ e ∷ []) db = refl
insert_values-none a (b ∷ c ∷ d ∷ e ∷ f ∷ []) db = refl
insert_values-none a (b ∷ c ∷ d ∷ e ∷ f ∷ g ∷ []) db = refl
insert_values-none a (b ∷ c ∷ d ∷ e ∷ f ∷ g ∷ i ∷ rest) db = refl

-- AddPolicy returns an error for every rule and leaves the tables as they were: it sends at least
-- eight values to a statement of seven placeholders.
pub add_policy-refused :
    {M : Type 0} (env : Env) (ptype : String) (rule : List String) (w : State M)
    → (e : GoError) × ((add_policy env ptype rule w).0 ≡ err e)
      × ((add_policy env ptype rule w).1.db ≡ w.db)
unfolding add_policy
add_policy-refused env ptype rule w =
    exec-none env "add policy" (insert_values (padded 8 (ptype ∷ rule))) w
      (insert_values-none ptype rule w.db)
