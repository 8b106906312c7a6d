-- ===== src/Authz/Joins.antt =====
-- What the join of sync.go selects: the policies of exactly the permissions that a user has by its
-- roles.
use go_codebase.Prelude.{
  ℕ, ◌≡◌, refl, ◌∙◌, String, Bool, true, false, ◌&&◌, ◌||◌, List, [], ◌∷◌, ◌++◌, map, any, select,
  ◌==◌, str_eq, eq_iff, arith, Bool-cases, inl, inr,
}
use go_codebase.Authz.Entity.{UserRole, RolePermission}
use go_codebase.Authz.Tables.{RoleRecord, PermissionRecord, Db, live_role, live_permission}
use go_codebase.Authz.Casbin.{Casbin, Policy}
use go_codebase.Authz.Policy.{
  flat_map, same_policy, grouped, policy_of_row, linked_policies, role_policies, policies_of,
  load_user_flattened_policies, load_all_flattened_policies,
}

module _ {A : Type 0} where
  pub any-++ : (q : A → Bool) (xs ys : List A) → any q (xs ++ ys) ≡ (any q xs || any q ys)
  any-++ q [] ys = refl
  any-++ q (x ∷ xs) ys = ground (arith, any-++ q xs ys)

  pub any-select : (q p : A → Bool) (xs : List A) → any q (select p xs) ≡ any (λ x. p x && q x) xs
  any-select q p [] = refl
  any-select q p (x ∷ xs) = ground (arith, any-select q p xs)

  pub any-ext : (p q : A → Bool) (xs : List A) → ((x : A) → p x ≡ q x) → any p xs ≡ any q xs
  any-ext p q [] same = refl
  any-ext p q (x ∷ xs) same = rw (same x, any-ext p q xs same) refl

  pub any-and : (b : Bool) (q : A → Bool) (xs : List A) → any (λ x. b && q x) xs ≡ (b && any q xs)
  any-and true q xs = refl
  any-and false q [] = refl
  any-and false q (x ∷ xs) = any-and false q xs

  pub any-and_right :
      (b : Bool) (q : A → Bool) (xs : List A) → any (λ x. q x && b) xs ≡ (any q xs && b)
  any-and_right b q [] = refl
  any-and_right b q (x ∷ xs) = ground (arith, any-and_right b q xs)

module _ {A B : Type 0} where
  pub any-map : (q : B → Bool) (f : A → B) (xs : List A) → any q (map f xs) ≡ any (λ x. q (f x)) xs
  any-map q f [] = refl
  any-map q f (x ∷ xs) = rw (any-map q f xs) refl

  pub any-flat_map :
      (q : B → Bool) (f : A → List B) (xs : List A)
      → any q (flat_map f xs) ≡ any (λ x. any q (f x)) xs
  any-flat_map q f [] = refl
  any-flat_map q f (x ∷ xs) = any-++ q (f x) (flat_map f xs) ∙ rw (any-flat_map q f xs) refl

same_policy_eq :
    (sub obj act : String) (p : Policy)
    → same_policy sub obj act p ≡ true
    → (sub ≡ p.sub) × (obj ≡ p.obj) × (act ≡ p.act)
same_policy_eq sub obj act p h = (
  ground (arith, eq_iff sub p.sub),
  ground (arith, eq_iff obj p.obj),
  ground (arith, eq_iff act p.act),
)

-- A policy that is left out is among the others.
any-repeated :
    (sub obj act : String) (p : Policy) (ps : List Policy)
    → any (same_policy p.sub p.obj p.act) ps ≡ true
    → any (same_policy sub obj act) ps
      ≡ (same_policy sub obj act p || any (same_policy sub obj act) ps)
any-repeated sub obj act p ps h = elim (Bool-cases (same_policy sub obj act p)) [
  | inl same ↦
      let (s, o, a) = same_policy_eq sub obj act p same in
      let there : any (same_policy sub obj act) ps ≡ true = rw (s, o, a) h in rw (same, there) refl
  | inr other ↦ rw (other) refl
]

any-grouped :
    (sub obj act : String) (ps : List Policy)
    → any (same_policy sub obj act) (grouped ps) ≡ any (same_policy sub obj act) ps
any-grouped sub obj act [] = refl
any-grouped sub obj act (p ∷ ps) =
    elim (Bool-cases (any (same_policy p.sub p.obj p.act) (grouped ps))) [
      | inl old ↦
          rw (old, ← any-grouped sub obj act ps) (any-repeated sub obj act p (grouped ps) old)
      | inr new ↦ rw (new, any-grouped sub obj act ps) refl
    ]

module _ {M : Type 0} (db : Db M) where
  -- The role is live and has a live permission of the resource and the action.
  abbrev pub role_grants : (role_id : ℕ) (resource action : String) → Bool
  role_grants role_id resource action =
      any (λ r. r.id == role_id && live_role r) db.roles
      && any
          (λ rp.
            rp.role_id == role_id
            && any
                (λ p.
                  (p.id == rp.permission_id && live_permission p)
                  && (str_eq resource p.resource && str_eq action p.action))
                db.permissions)
          db.role_permissions

  -- The user has a role that grants the permission.
  abbrev pub granted : (user_id : ℕ) (resource action : String) → Bool
  granted user_id resource action =
      any (λ ur. ur.user_id == user_id && role_grants ur.role_id resource action) db.user_roles

module _ {M : Type 0} (c : Casbin M) (db : Db M) (obj act sub : String) where
  abbrev asked : Policy → Bool
  asked = same_policy sub obj act

  abbrev of_user : ℕ → Bool
  of_user user_id = str_eq sub (c.uuid_text user_id)

  abbrev grants_it : RolePermission → PermissionRecord → Bool
  grants_it rp p =
      (p.id == rp.permission_id && live_permission p)
      && (str_eq obj p.resource && str_eq act p.action)

  any-linked :
      (user_id : ℕ) (rp : RolePermission)
      → any asked (linked_policies c db user_id rp)
        ≡ (of_user user_id && any (grants_it rp) db.permissions)
  any-linked user_id rp =
      let matches : PermissionRecord → Bool = λ p. p.id == rp.permission_id && live_permission p in
      any-map asked (policy_of_row c user_id) (select matches db.permissions)
      ∙ any-select (λ p. asked (policy_of_row c user_id p)) matches db.permissions
      ∙ any-ext (λ p. matches p && asked (policy_of_row c user_id p))
          (λ p. of_user user_id && grants_it rp p) db.permissions (λ p. ground arith)
      ∙ any-and (of_user user_id) (grants_it rp) db.permissions

  any-role_policies :
      (ur : UserRole)
      → any asked (role_policies c db ur) ≡ (
          of_user ur.user_id
          && any
              (λ rp. rp.role_id == ur.role_id && any (grants_it rp) db.permissions)
              db.role_permissions)
  any-role_policies ur =
      let mine : RolePermission → Bool = λ rp. rp.role_id == ur.role_id in
      any-flat_map asked (linked_policies c db ur.user_id) (select mine db.role_permissions)
      ∙ any-select (λ rp. any asked (linked_policies c db ur.user_id rp)) mine db.role_permissions
      ∙ any-ext (λ rp. mine rp && any asked (linked_policies c db ur.user_id rp))
          (λ rp. of_user ur.user_id && (mine rp && any (grants_it rp) db.permissions))
          db.role_permissions (λ rp. rw (any-linked ur.user_id rp) (ground arith))
      ∙ any-and (of_user ur.user_id) (λ rp. mine rp && any (grants_it rp) db.permissions)
          db.role_permissions

  -- The policies that one row of user_roles joins.
  any-policies_of :
      (ur : UserRole)
      → any asked (policies_of c db ur) ≡ (of_user ur.user_id && role_grants db ur.role_id obj act)
  any-policies_of ur =
      let named : RoleRecord → Bool = λ r. r.id == ur.role_id && live_role r in
      any-flat_map asked (λ r. role_policies c db ur) (select named db.roles)
      ∙ any-select (λ r. any asked (role_policies c db ur)) named db.roles
      ∙ any-and_right (any asked (role_policies c db ur)) named db.roles
      ∙ rw (any-role_policies ur) (ground arith)

module _ {M : Type 0} (c : Casbin M)
    (injective : (a b : ℕ) → str_eq (c.uuid_text a) (c.uuid_text b) ≡ (b == a)) (db : Db M)
    (user_id : ℕ) (obj act : String) where
  -- The policies of all users have those of one user, as far as it asks.
  pub any-load_all :
      any (same_policy (c.uuid_text user_id) obj act) (load_all_flattened_policies c db)
      ≡ granted db user_id obj act
  unfolding load_all_flattened_policies
  any-load_all =
      let sub = c.uuid_text user_id in
      any-grouped sub obj act (flat_map (policies_of c db) db.user_roles)
      ∙ any-flat_map (same_policy sub obj act) (policies_of c db) db.user_roles
      ∙ any-ext (λ ur. any (same_policy sub obj act) (policies_of c db ur))
          (λ ur. ur.user_id == user_id && role_grants db ur.role_id obj act) db.user_roles
          (λ ur. rw (any-policies_of c db obj act sub ur, injective user_id ur.user_id) refl)

  -- The policies of one user, asked for any user.
  pub any-load_user :
      (other : ℕ)
      → any (same_policy (c.uuid_text other) obj act) (load_user_flattened_policies c user_id db)
        ≡ (user_id == other && granted db other obj act)
  unfolding load_user_flattened_policies
  any-load_user other =
      let sub = c.uuid_text other in
      let mine : UserRole → Bool = λ ur. ur.user_id == user_id in
      any-grouped sub obj act (flat_map (policies_of c db) (select mine db.user_roles))
      ∙ any-flat_map (same_policy sub obj act) (policies_of c db) (select mine db.user_roles)
      ∙ any-select (λ ur. any (same_policy sub obj act) (policies_of c db ur)) mine db.user_roles
      ∙ any-ext (λ ur. mine ur && any (same_policy sub obj act) (policies_of c db ur))
          (λ ur. user_id == other && (ur.user_id == other && role_grants db ur.role_id obj act))
          db.user_roles
          (λ ur.
            rw (any-policies_of c db obj act sub ur, injective other ur.user_id) (ground arith))
      ∙ any-and (user_id == other) (λ ur. ur.user_id == other && role_grants db ur.role_id obj act)
          db.user_roles
