-- ===== src/Authz/Changes.antt =====
-- What the commands on roles and permissions change in the tables, and that they end with a reload.
use go_codebase.Prelude.{
  ℕ, ◌≡◌, refl, sym, ◌∙◌, Bool, false, not, ◌&&◌, Option, none, some, List, [], ◌∷◌, ◌++◌, any,
  select, ◌==◌, arith, Bool-cases, inl, inr,
}
use go_codebase.Core.Proc.{Keeps}
use go_codebase.Core.Proc.Ensures.{Ensures, Ensures-bind, Ensures-bind_keep}
use go_codebase.Core.Runtime.{Env}
use go_codebase.Core.Runtime.Preserves.{On, world_rules}
use go_codebase.Core.Runtime.Ends.{Is, exec-Is}
use go_codebase.Authz.Entity.{UserRole, new_user_role, new_role_permission}
use go_codebase.Authz.Tables.{
  RoleRecord, PermissionRecord, Db, same_user_role, insert_user_role, delete_user_role,
  insert_role_permission, delete_role_permission,
}
use go_codebase.Authz.Repositories.{
  Action, role_found, permission_found, get_role_by_id, get_permission_by_id, assign_user_role,
  remove_user_role, assign_role_permission, remove_role_permission,
}
use go_codebase.Authz.Casbin.{Casbin}
use go_codebase.Authz.Joins.{any-++}
use go_codebase.Authz.Synced.{
  Loaded, user_rules, all_rules, reload_user_policies-Loaded, reload_policies-Loaded,
}
use go_codebase.Authz.Commands.{assign_role, unassign_role, assign_permission, unassign_permission}

-- A command on the roles of a user.
pub data RoleChange : Type 0 where
  grant_role revoke_role : RoleChange

-- A command on the permissions of a role.
pub data PermissionChange : Type 0 where
  grant_permission revoke_permission : PermissionChange

module _ {M : Type 0} (env : Env) (c : Casbin M) where
  abbrev pub change_role : RoleChange → (user_id role_id : ℕ) → Action M (Unit {0})
  change_role grant_role = assign_role env c
  change_role revoke_role = unassign_role env c

  abbrev pub change_permission :
      PermissionChange → (role_id permission_id : ℕ) → Action M (Unit {0})
  change_permission grant_permission = assign_permission env c
  change_permission revoke_permission = unassign_permission env c

module _ {M : Type 0} {P : Db M → Type 0} (env : Env) where
  role_found-Keeps : (row : Option RoleRecord) → Keeps (On P) (role_found row)
  role_found-Keeps none = search world_rules
  role_found-Keeps (some row) = search world_rules

  permission_found-Keeps : (row : Option PermissionRecord) → Keeps (On P) (permission_found row)
  permission_found-Keeps none = search world_rules
  permission_found-Keeps (some row) = search world_rules

  pub get_role_by_id-Keeps : (id : ℕ) → Keeps (On P) (get_role_by_id env id)
  unfolding get_role_by_id
  get_role_by_id-Keeps id = search (world_rules, role_found-Keeps)

  pub get_permission_by_id-Keeps : (id : ℕ) → Keeps (On P) (get_permission_by_id env id)
  unfolding get_permission_by_id
  get_permission_by_id-Keeps id = search (world_rules, permission_found-Keeps)

-- The rows of a user's roles are changed, those of other users are not.
pub record Changed {M : Type 0} (user_id : ℕ) (d db : Db M) : Type 0 where
  pub rows : List UserRole
  pub same : db ≡ record d { user_roles = rows }
  pub others :
      (g : ℕ → Bool) (other : ℕ)
      → (user_id == other) ≡ false
      → any (λ ur. ur.user_id == other && g ur.role_id) d.user_roles
        ≡ any (λ ur. ur.user_id == other && g ur.role_id) rows

any-removed :
    (user_id role_id : ℕ) (g : ℕ → Bool) (other : ℕ) (rows : List UserRole)
    → (user_id == other) ≡ false
    → any (λ ur. ur.user_id == other && g ur.role_id) rows
      ≡ any
          (λ ur. ur.user_id == other && g ur.role_id)
          (select (λ o. not (same_user_role user_id role_id o)) rows)
any-removed user_id role_id g other [] h = refl
any-removed user_id role_id g other (x ∷ xs) h =
    ground (arith, any-removed user_id role_id g other xs h)

module _ {M : Type 0} (user_id role_id : ℕ) (d db : Db M) where
  insert_user_role-Changed :
      insert_user_role (new_user_role user_id role_id) d ≡ some db → Changed user_id d db
  unfolding insert_user_role
  insert_user_role-Changed h =
      elim (Bool-cases (any (same_user_role user_id role_id) d.user_roles)) [
        | inl old ↦ record { rows = d.user_roles; same = ground arith; others = λ g other e. refl }
        | inr new ↦ elim (Bool-cases (any (λ r. r.id == role_id) d.roles)) [
          | inl there ↦ record {
            rows = d.user_roles ++ new_user_role user_id role_id ∷ [];
            same = ground arith;
            others = λ g other e. sym (
                any-++ (λ ur. ur.user_id == other && g ur.role_id) d.user_roles
                  (new_user_role user_id role_id ∷ [])
                ∙ rw (e) (ground arith));
          }
          | inr missing ↦ absurd (ground arith)
        ]
      ]

  delete_user_role-Changed : delete_user_role user_id role_id d ≡ some db → Changed user_id d db
  unfolding delete_user_role
  delete_user_role-Changed h = record {
    rows = select (λ o. not (same_user_role user_id role_id o)) d.user_roles;
    same = ground arith;
    others = λ g other e. any-removed user_id role_id g other d.user_roles e;
  }

module _ {M : Type 0} (role_id permission_id : ℕ) (d db : Db M) where
  insert_role_permission-rules :
      insert_role_permission (new_role_permission role_id permission_id) d ≡ some db
      → db.casbin_rule ≡ d.casbin_rule
  unfolding insert_role_permission
  insert_role_permission-rules h = ground arith

  delete_role_permission-rules :
      delete_role_permission role_id permission_id d ≡ some db → db.casbin_rule ≡ d.casbin_rule
  unfolding delete_role_permission
  delete_role_permission-rules h = ground arith

module _ {M : Type 0} (env : Env) (c : Casbin M) where
  pub change_role-Ensures :
      (ch : RoleChange) (user_id role_id : ℕ) (d : Db M)
      → Ensures
          (On (Is d))
          (λ w. (db : Db M) × Changed user_id d db × Loaded c db (user_rules c user_id db) w.db)
          (change_role env c ch user_id role_id)
  unfolding assign_role unassign_role assign_user_role remove_user_role
  change_role-Ensures grant_role user_id role_id d =
      Ensures-bind_keep _ _ (get_role_by_id-Keeps env role_id) (λ r.
        Ensures-bind _ _
          (exec-Is env d "assign role" (insert_user_role (new_user_role user_id role_id)))
          (λ u. record {
            at = λ w a p e. (
              w.db,
              insert_user_role-Changed user_id role_id d w.db p.tables,
              ((reload_user_policies-Loaded env c user_id w.db).at w a (record { tables = refl })
                  e).tables,
            );
          }))
  change_role-Ensures revoke_role user_id role_id d =
      Ensures-bind _ _ (exec-Is env d "remove role" (delete_user_role user_id role_id)) (λ u.
        record {
          at = λ w a p e. (
            w.db,
            delete_user_role-Changed user_id role_id d w.db p.tables,
            ((reload_user_policies-Loaded env c user_id w.db).at w a (record { tables = refl })
                e).tables,
          );
        })

  pub change_permission-Ensures :
      (ch : PermissionChange) (role_id permission_id : ℕ) (d : Db M)
      → Ensures
          (On (Is d))
          (λ w. (db : Db M) × (db.casbin_rule ≡ d.casbin_rule) × Loaded c db (all_rules c db) w.db)
          (change_permission env c ch role_id permission_id)
  unfolding assign_permission unassign_permission assign_role_permission remove_role_permission
  change_permission-Ensures grant_permission role_id permission_id d =
      Ensures-bind_keep _ _ (get_role_by_id-Keeps env role_id) (λ r.
        Ensures-bind_keep _ _ (get_permission_by_id-Keeps env permission_id) (λ p.
          Ensures-bind _ _
            (exec-Is env d "assign permission"
              (insert_role_permission (new_role_permission role_id permission_id)))
            (λ u. record {
              at = λ w a p e. (
                w.db,
                insert_role_permission-rules role_id permission_id d w.db p.tables,
                ((reload_policies-Loaded env c w.db).at w a (record { tables = refl }) e).tables,
              );
            })))
  change_permission-Ensures revoke_permission role_id permission_id d =
      Ensures-bind _ _
        (exec-Is env d "remove permission" (delete_role_permission role_id permission_id))
        (λ u. record {
          at = λ w a p e. (
            w.db,
            delete_role_permission-rules role_id permission_id d w.db p.tables,
            ((reload_policies-Loaded env c w.db).at w a (record { tables = refl }) e).tables,
          );
        })
