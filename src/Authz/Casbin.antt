-- ===== src/Authz/Casbin.antt =====
-- internal/authorization/infrastructure/casbin/adapter.go. The casbin library is a parameter: a
-- model with its policy is a value of `M`.
use Prim.Native.String.{◌++◌ as append}
use go_codebase.Prelude.{
  ℕ, zero, suc, String, Bool, false, not, ◌&&◌, Option, none, some, List, [], ◌∷◌, ◌++◌,
  if◌then◌else◌, any, select, str_eq, ltb,
}
use go_codebase.Core.Errors.{wrap}
use go_codebase.Core.Proc.{◌>>◌, return, on_error}
use go_codebase.Core.Runtime.{Env, round_trip, exec, rolled_back}
use go_codebase.Authz.Tables.{Db, CasbinRule}
use go_codebase.Authz.Repositories.{Action}

pub record Policy : Type 0 where
  pub sub : String
  pub obj : String
  pub act : String

-- What the code calls of casbin and of the standard library.
pub record Casbin (M : Type 0) : Type 0 where
  -- A copy of the model without its policy
  pub cleared : M → M
  -- `persist.LoadPolicyLine`, with none for an error
  pub load_policy_line : String → M → Option M
  -- What the enforcer goes on with when its adapter returns an error
  pub after_failure : M → M
  -- `Enforce`, with none for an error; a load empties the cache of a CachedEnforcer
  pub enforce : M → (sub obj act : String) → Option Bool
  -- The section of a model, each rule with its ptype
  pub policy_of : M → (section : String) → List (String × List String)
  -- `strings.TrimRight(line, ", ")`
  pub trim_right : String → String
  -- The text of a UUID, of `String` and of `::text`
  pub uuid_text : ℕ → String

-- `INSERT INTO casbin_rule (ptype, v0, v1, v2) VALUES ('p', $1, $2, $3)`
abbrev pub rule_of : Policy → CasbinRule
rule_of p = record { ptype = "p"; v0 = p.sub; v1 = p.obj; v2 = p.act; v3 = ""; v4 = ""; v5 = "" }

abbrev comma : String → String → String
comma s t = append s (append ", " t)

-- The line of a row, before it is trimmed.
unfoldable pub policy_line : CasbinRule → String
policy_line r = comma r.ptype (comma r.v0 (comma r.v1 (comma r.v2 (comma r.v3 (comma r.v4 r.v5)))))

-- `INSERT INTO casbin_rule (ptype, v0, …, v5) VALUES ($1, …, $7)`: the driver refuses a number of
-- arguments that is not that of the placeholders.
abbrev pub insert_values : {M : Type 0} → List String → Db M → Option (Db M)
insert_values (a ∷ b ∷ c ∷ d ∷ e ∷ f ∷ g ∷ []) db = some (record db {
  casbin_rule =
      db.casbin_rule ++ record { ptype = a; v0 = b; v1 = c; v2 = d; v3 = e; v4 = f; v5 = g } ∷ [];
})
insert_values _ db = none

-- `for len(values) < n { values = append(values, "") }`
abbrev pub padded : (n : ℕ) → List String → List String
padded zero values = values
padded (suc n) [] = "" ∷ padded n []
padded (suc n) (v ∷ vs) = v ∷ padded n vs

-- A condition `AND v<column> = <value>`.
pub record Condition : Type 0 where
  pub column : ℕ
  pub value : String

abbrev value_at : ℕ → List String → Option String
value_at n [] = none
value_at zero (c ∷ cs) = some c
value_at (suc n) (c ∷ cs) = value_at n cs

abbrev holds : CasbinRule → Condition → Bool
holds r c = elim (value_at c.column (r.v0 ∷ r.v1 ∷ r.v2 ∷ r.v3 ∷ r.v4 ∷ r.v5 ∷ [])) [
  | none ↦ false
  | some v ↦ str_eq v c.value
]

-- `DELETE FROM casbin_rule WHERE ptype = $1 AND …`: an error where a column is not there.
abbrev pub delete_rules : {M : Type 0} → (ptype : String) → List Condition → Db M → Option (Db M)
delete_rules ptype cs db =
    if any (λ c. not (ltb c.column 6)) cs
    then none
    else some (record db {
      casbin_rule =
          select (λ r. not (str_eq r.ptype ptype && not (any (λ c. not (holds r c)) cs)))
            db.casbin_rule;
    })

-- `for i, v := range rule`
abbrev pub conditions_from : (column : ℕ) → List String → List Condition
conditions_from column [] = []
conditions_from column (v ∷ vs) =
    record { column = column; value = v } ∷ conditions_from (suc column) vs

-- `for i, v := range fieldValues { if v == "" { continue } … }`
abbrev pub filled_conditions_from : (column : ℕ) → List String → List Condition
filled_conditions_from column [] = []
filled_conditions_from column (v ∷ vs) =
    let rest = filled_conditions_from (suc column) vs in
    if str_eq v "" then rest else record { column = column; value = v } ∷ rest

module _ {M : Type 0} (c : Casbin M) where
  -- The line that LoadPolicy gives to casbin.
  unfoldable pub trimmed_line : CasbinRule → String
  unfolding policy_line
  trimmed_line r = c.trim_right (policy_line r)

  unfoldable pub load_lines : List CasbinRule → M → Option M
  unfolding trimmed_line
  load_lines [] m = some m
  load_lines (r ∷ rs) m = loaded (c.load_policy_line (trimmed_line r) m) (λ m'. load_lines rs m')
    where
      loaded : Option M → (M → Option M) → Option M
      loaded none f = none
      loaded (some m') f = f m'

module _ {M : Type 0} (env : Env) where
  abbrev insert_all : (label : String) → List (String × List String) → Action M (Unit {0})
  insert_all label [] = return tt
  insert_all label ((ptype, rule) ∷ ps) = do
    exec env label (insert_values (ptype ∷ padded 6 rule))
    insert_all label ps

  -- BeginTx, the body, Commit; an error on the way rolls back.
  abbrev pub in_tx :
      (begin_label : String) → Action M (Unit {0}) → Action M (Unit {0}) → Action M (Unit {0})
  in_tx begin_label body commit w =
      rolled_back w.db ((on_error (round_trip env) (wrap begin_label) >> (body >> commit)) w)

  unfoldable pub save_policy : Casbin M → M → Action M (Unit {0})
  save_policy c m =
      in_tx "save policy begin tx"
        (do
          exec env "save policy delete" (λ db. some (record db { casbin_rule = [] }))
          on_error (round_trip env) (wrap "save policy prepare")
          insert_all "save policy insert" (c.policy_of m "p")
          insert_all "save policy insert g" (c.policy_of m "g"))
        (round_trip env)

  unfoldable pub add_policy : (ptype : String) → List String → Action M (Unit {0})
  add_policy ptype rule = exec env "add policy" (insert_values (padded 8 (ptype ∷ rule)))

  unfoldable pub remove_policy : (ptype : String) → List String → Action M (Unit {0})
  remove_policy ptype rule = exec env "remove policy" (delete_rules ptype (conditions_from 0 rule))

  unfoldable pub remove_filtered_policy :
      (ptype : String) (index : ℕ) → List String → Action M (Unit {0})
  remove_filtered_policy ptype index values =
      exec env "remove filtered policy" (delete_rules ptype (filled_conditions_from index values))
