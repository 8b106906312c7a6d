-- ===== src/Authz/Synced.antt =====
-- What sync.go leaves in the table casbin_rule and in the enforcer, where it returns no error.
use mathlib.Core.Path.{subst}
use go_codebase.Prelude.{
  ℕ, ◌≡◌, refl, sym, ap, ◌∙◌, Bool, not, ◌&&◌, some, List, [], ◌∷◌, ◌++◌, map, select, str_eq,
  arith, Option-cases, inl, inr,
}
use go_codebase.Core.Errors.{wrap}
use go_codebase.Core.Proc.{ok, ◌>>◌, on_error}
use go_codebase.Core.Proc.Ensures.{Ensures, Ensures-on_error, Ensures-bind}
use go_codebase.Core.Runtime.{Env}
use go_codebase.Core.Runtime.Preserves.{On}
use go_codebase.Core.Runtime.Ends.{Is, round_trip-Is, exec-some-Is, read-Is, rolled_back-Ensures}
use go_codebase.Authz.Tables.{Db, CasbinRule}
use go_codebase.Authz.Repositories.{State}
use go_codebase.Authz.Casbin.{Casbin, Policy, rule_of, load_lines}
use go_codebase.Authz.Policy.{
  load_user_flattened_policies, load_all_flattened_policies, load_policy, insert_policies,
  replace_policies, sync_user_policies, sync_all_policies, reload_policies, reload_user_policies,
}

-- The same tables with these rules.
abbrev pub with_rules : {M : Type 0} → Db M → List CasbinRule → Db M
with_rules db rules = record db { casbin_rule = rules }

abbrev with_model_of : {M : Type 0} → M → Db M → Db M
with_model_of m db = record db { model = m }

-- The tables are `d` with these rules, and the enforcer has loaded them.
pub record Loaded {M : Type 0} (c : Casbin M) (d : Db M) (rules : List CasbinRule) (db : Db M)
    : Type 0 where
  pub model : M
  pub loads : load_lines c rules (c.cleared d.model) ≡ some model
  pub same : db ≡ record d { casbin_rule = rules; model = model }

append_assoc :
    {A : Type 0} (xs : List A) (y : A) (ys : List A) → (xs ++ y ∷ []) ++ ys ≡ xs ++ y ∷ ys
append_assoc [] y ys = refl
append_assoc (x ∷ xs) y ys = ap (λ t. x ∷ t) (append_assoc xs y ys)

append-nil : {A : Type 0} (xs : List A) → xs ++ [] ≡ xs
append-nil [] = refl
append-nil (x ∷ xs) = ap (λ t. x ∷ t) (append-nil xs)

-- The rows of the table after the transaction.
abbrev pub replaced :
    {M : Type 0} → (old : CasbinRule → Bool) → List Policy → Db M → List CasbinRule
replaced old ps d = select (λ r. not (old r)) d.casbin_rule ++ map rule_of ps

module _ {M : Type 0} (c : Casbin M) where
  abbrev pub user_rules : ℕ → Db M → List CasbinRule
  user_rules user_id d =
      replaced (λ r. str_eq r.ptype "p" && str_eq r.v0 (c.uuid_text user_id))
        (load_user_flattened_policies c user_id d) d

  abbrev pub all_rules : Db M → List CasbinRule
  all_rules d = replaced (λ r. str_eq r.ptype "p") (load_all_flattened_policies c d) d

module _ {M : Type 0} (env : Env) (c : Casbin M) where
  insert_policies-Is :
      (ps : List Policy) (d : Db M) (rules : List CasbinRule)
      → Ensures
          (On (Is (with_rules d rules)))
          (On (Is (with_rules d (rules ++ map rule_of ps))))
          (insert_policies env c ps)
  insert_policies-Is [] d rules = record {
    at = λ w a p e. record { tables = p.tables ∙ ap (with_rules d) (sym (append-nil rules)) };
  }
  insert_policies-Is (p ∷ ps) d rules =
      Ensures-bind _ _
        (exec-some-Is env (with_rules d rules) "insert policy"
          (λ db. record db { casbin_rule = db.casbin_rule ++ rule_of p ∷ [] }))
        (λ u.
          let rest = insert_policies-Is ps d (rules ++ rule_of p ∷ []) in
          rw (append_assoc rules (rule_of p) (map rule_of ps)) at rest)

  replace_policies-Is :
      (old : CasbinRule → Bool) (ps : List Policy) (d : Db M)
      → Ensures
          (On (Is d))
          (On (Is (with_rules d (replaced old ps d))))
          (replace_policies env c old ps)
  unfolding replace_policies
  replace_policies-Is old ps d =
      let kept = select (λ r. not (old r)) d.casbin_rule in
      let after = with_rules d (replaced old ps d) in
      rolled_back-Ensures _ (
        Ensures-bind _ _ (Ensures-on_error _ _ (round_trip-Is env d)) (λ u.
          Ensures-bind _ _
            (Ensures-bind _ _
              (exec-some-Is env d "delete existing policies"
                (λ db. with_rules db (select (λ r. not (old r)) db.casbin_rule)))
              (λ u.
                Ensures-bind _ _ (Ensures-on_error _ _ (round_trip-Is env (with_rules d kept)))
                  (λ u. insert_policies-Is ps d kept)))
            (λ u. Ensures-on_error _ _ (round_trip-Is env after))))

  load_policy_ok :
      (w : State M) (u : Unit {0})
      → (load_policy env c w).0 ≡ ok u
      → Loaded c w.db w.db.casbin_rule (load_policy env c w).1.db
  unfolding load_policy
  load_policy_ok w u h =
      elim (Option-cases (load_lines c w.db.casbin_rule (c.cleared w.db.model))) [
        | inl refused ↦ absurd (ground arith)
        | inr (m, accepted) ↦ record { model = m; loads = accepted; same = ground arith }
      ]

  load_policy-Loaded :
      (d : Db M) (rules : List CasbinRule)
      → Ensures (On (Is (with_rules d rules))) (On (Loaded c d rules)) (load_policy env c)
  load_policy-Loaded d rules = record {
    at = λ w u p e.
        let end : Loaded c w.db w.db.casbin_rule (load_policy env c w).1.db =
          load_policy_ok w u e in
        record {
          tables = record {
            model = end.model;
            loads =
                subst (λ db. load_lines c db.casbin_rule (c.cleared db.model) ≡ some end.model)
                  p.tables end.loads;
            same = end.same ∙ ap (with_model_of end.model) p.tables;
          };
        };
  }

  sync_user_policies-Loaded :
      (user_id : ℕ) (d : Db M)
      → Ensures
          (On (Is d))
          (On (Loaded c d (user_rules c user_id d)))
          (sync_user_policies env c user_id)
  unfolding sync_user_policies
  sync_user_policies-Loaded user_id d =
      let old : CasbinRule → Bool = λ r. str_eq r.ptype "p" && str_eq r.v0 (c.uuid_text user_id) in
      Ensures-bind _ _ (Ensures-on_error _ _ (round_trip-Is env d)) (λ u.
        read-Is d (load_user_flattened_policies c user_id)
          (λ ps. replace_policies env c old ps >> on_error (load_policy env c) (wrap "load policy"))
          (Ensures-bind _ _ (replace_policies-Is old (load_user_flattened_policies c user_id d) d)
            (λ u.
              Ensures-on_error (load_policy env c) (wrap "load policy")
                (load_policy-Loaded d (user_rules c user_id d)))))

  pub reload_user_policies-Loaded :
      (user_id : ℕ) (d : Db M)
      → Ensures
          (On (Is d))
          (On (Loaded c d (user_rules c user_id d)))
          (reload_user_policies env c user_id)
  unfolding reload_user_policies
  reload_user_policies-Loaded user_id d =
      Ensures-on_error (sync_user_policies env c user_id) (wrap "reload user policies")
        (sync_user_policies-Loaded user_id d)

  sync_all_policies-Loaded :
      (d : Db M) → Ensures (On (Is d)) (On (Loaded c d (all_rules c d))) (sync_all_policies env c)
  unfolding sync_all_policies
  sync_all_policies-Loaded d =
      let old : CasbinRule → Bool = λ r. str_eq r.ptype "p" in
      Ensures-bind _ _ (Ensures-on_error _ _ (round_trip-Is env d)) (λ u.
        read-Is d (load_all_flattened_policies c)
          (λ ps. replace_policies env c old ps >> load_policy env c)
          (Ensures-bind _ _ (replace_policies-Is old (load_all_flattened_policies c d) d)
            (λ u. load_policy-Loaded d (all_rules c d))))

  pub reload_policies-Loaded :
      (d : Db M) → Ensures (On (Is d)) (On (Loaded c d (all_rules c d))) (reload_policies env c)
  unfolding reload_policies
  reload_policies-Loaded d =
      Ensures-on_error (sync_all_policies env c) (wrap "reload policies")
        (sync_all_policies-Loaded d)
