-- ===== src/Examples/Roles.antt =====
-- A user who gets a role, and a casbin that knows one policy.
use go_codebase.Prelude.{
  ℕ, ◌≡◌, refl, ap, String, Bool, true, false, ◌&&◌, some, none, [], ◌∷◌, ◌==◌, if◌then◌else◌,
  str_eq, eq_iff, arith,
}
use go_codebase.Core.Proc.{err}
use go_codebase.Core.Errors.{GoError}
use go_codebase.Authz.Tables.{RoleRecord, PermissionRecord, Db}
use go_codebase.Authz.Repositories.{State}
use go_codebase.Authz.Casbin.{Casbin, Policy, rule_of, policy_line, trimmed_line}
use go_codebase.Authz.Policy.{same_policy, enforce}
use go_codebase.Authz.Enforced.{Allows, Agrees}
use go_codebase.Authz.Joins.{granted, role_grants}
use go_codebase.Authz.Tables.{insert_user_role, delete_role_permission, delete_role_row}
use go_codebase.Authz.Repositories.{
  get_role_by_id, assign_user_role, remove_role_permission, delete_role_of,
}
use go_codebase.Authz.Casbin.{load_lines, add_policy}
use go_codebase.Authz.Policy.{
  reload_user_policies, sync_user_policies, load_user_flattened_policies, replace_policies,
  load_policy, reload_policies, sync_all_policies, load_all_flattened_policies,
}
use go_codebase.Authz.Commands.{assign_role, unassign_permission, delete_role}
use go_codebase.Authz.Changes.{change_role, grant_role, change_permission, revoke_permission}
use go_codebase.Authz.Guarantees.{
  change_role-Agrees, change_permission-Agrees, reload_policies-decides,
}
use go_codebase.Authz.Stale.{deleted_role-enforced, add_policy-refused}
use go_codebase.Examples.Sample.{counting}
use go_codebase.Examples.Unary.{bars, size-bars}

abbrev one : Policy
one = record { sub = bars 1; obj = "todos"; act = "read" }

-- The model is whether the policy is loaded.
abbrev knows_one : Casbin Bool
knows_one = record {
  cleared = λ m. false;
  load_policy_line = λ line m. if str_eq line (policy_line (rule_of one)) then some true else none;
  after_failure = λ m. m;
  enforce = λ m sub obj act. some (m && same_policy sub obj act one);
  policy_of = λ m section. [];
  trim_right = λ s. s;
  uuid_text = bars;
}

bars_injective : (a b : ℕ) → str_eq (bars a) (bars b) ≡ (b == a)
bars_injective a b = ground (arith, eq_iff (bars a) (bars b), size-bars a, size-bars b)

abbrev is_one : Policy → Bool
is_one p = str_eq p.sub (bars 1) && (str_eq p.obj "todos" && str_eq p.act "read")

fields_of_one :
    (p : Policy) → is_one p ≡ true → (p.sub ≡ bars 1) × (p.obj ≡ "todos") × (p.act ≡ "read")
fields_of_one p h = (
  ground (arith, eq_iff p.sub (bars 1)),
  ground (arith, eq_iff p.obj "todos"),
  ground (arith, eq_iff p.act "read"),
)

line_of_one :
    (p : Policy)
    → is_one p ≡ true
    → str_eq (trimmed_line knows_one (rule_of p)) (policy_line (rule_of one)) ≡ true
unfolding trimmed_line policy_line
line_of_one p h = let (s, o, a) = fields_of_one p h in rw (s, o, a) refl

asked_as_one :
    (p : Policy) (sub obj act : String)
    → is_one p ≡ true
    → same_policy sub obj act p ≡ same_policy sub obj act one
asked_as_one p sub obj act h = let (s, o, a) = fields_of_one p h in rw (s, o, a) refl

knows_one-Allows : Allows knows_one
knows_one-Allows = record {
  readable = is_one;
  flat = λ m. true;
  uuid_injective = bars_injective;
  clears = λ m. refl;
  denies = λ m sub obj act. refl;
  loads = λ p m h f. (
    true,
    rw (line_of_one p h) refl,
    refl,
    λ sub obj act b e. ap some (ground (arith, asked_as_one p sub obj act h)),
  );
}

abbrev reader : RoleRecord
reader = record {
  id = 10;
  name = "reader";
  description = "";
  created_at = 1;
  updated_at = 1;
  deleted_at = none;
  tenant_id = "";
}

abbrev read_todos : PermissionRecord
read_todos = record {
  id = 20;
  name = "read todos";
  description = "";
  resource = "todos";
  action = "read";
  created_at = 1;
  updated_at = 1;
  deleted_at = none;
  tenant_id = "";
}

abbrev tables : Db Bool
tables = record {
  roles = reader ∷ [];
  permissions = read_todos ∷ [];
  user_roles = [];
  role_permissions = record { role_id = 10; permission_id = 20 } ∷ [];
  casbin_rule = [];
  model = false;
}

abbrev begin : State Bool
begin = record { db = tables; tick = 3; published = [] }

begin-Agrees : Agrees knows_one knows_one-Allows tables
unfolding enforce
begin-Agrees = record {
  rules = [];
  table = refl;
  readable = tt;
  exact = λ u o a. refl;
  enforced = λ u o a. refl;
}

abbrev granted_once : State Bool
granted_once = (change_role counting knows_one grant_role 1 10 begin).1

change_role-Agrees_example : Agrees knows_one knows_one-Allows granted_once.db
unfolding knows_one-Allows assign_role get_role_by_id assign_user_role insert_user_role
    reload_user_policies sync_user_policies load_user_flattened_policies replace_policies
    load_policy load_lines trimmed_line policy_line
change_role-Agrees_example =
    change_role-Agrees counting knows_one knows_one-Allows grant_role 1 10 begin begin-Agrees refl
      (refl, tt)

change_permission-Agrees_example :
    Agrees knows_one knows_one-Allows
      (change_permission counting knows_one revoke_permission 10 20 granted_once).1.db
unfolding knows_one-Allows assign_role get_role_by_id assign_user_role insert_user_role
    reload_user_policies sync_user_policies load_user_flattened_policies replace_policies
    load_policy load_lines trimmed_line policy_line unassign_permission remove_role_permission
    delete_role_permission reload_policies sync_all_policies load_all_flattened_policies
change_permission-Agrees_example =
    change_permission-Agrees counting knows_one knows_one-Allows revoke_permission 10 20 (one ∷ [])
      granted_once refl refl tt

reload_policies-decides_example :
    enforce knows_one 1 "todos" "read" (reload_policies counting knows_one granted_once).1.db
    ≡ some (granted (reload_policies counting knows_one granted_once).1.db 1 "todos" "read")
unfolding knows_one-Allows assign_role get_role_by_id assign_user_role insert_user_role
    reload_user_policies sync_user_policies load_user_flattened_policies replace_policies
    load_policy load_lines trimmed_line policy_line reload_policies sync_all_policies
    load_all_flattened_policies
reload_policies-decides_example =
    reload_policies-decides counting knows_one knows_one-Allows (one ∷ []) granted_once 1 "todos"
      "read" refl refl (refl, tt)

deleted_role-enforced_example :
    (role_grants (delete_role counting 10 granted_once).1.db 10 "todos" "read" ≡ false)
    × (enforce knows_one 1 "todos" "read" (delete_role counting 10 granted_once).1.db ≡ some true)
unfolding assign_role get_role_by_id assign_user_role insert_user_role reload_user_policies
    sync_user_policies load_user_flattened_policies replace_policies load_policy load_lines
    trimmed_line policy_line delete_role delete_role_of delete_role_row
deleted_role-enforced_example =
    deleted_role-enforced counting 10 granted_once knows_one knows_one-Allows 1 "todos" "read"
      change_role-Agrees_example refl

add_policy-refused_example :
    (e : GoError) × ((add_policy counting "p" ("1" ∷ "todos" ∷ "read" ∷ []) begin).0 ≡ err e)
    × ((add_policy counting "p" ("1" ∷ "todos" ∷ "read" ∷ []) begin).1.db ≡ tables)
add_policy-refused_example = add_policy-refused counting "p" ("1" ∷ "todos" ∷ "read" ∷ []) begin
