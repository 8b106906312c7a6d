-- ===== src/Authz/Enforced.antt =====
-- That the enforcer decides by the tables: what casbin has to do for it, and what a reload makes of
-- the rules in casbin_rule.
use go_codebase.Prelude.{
  ℕ, ◌≡◌, refl, sym, ap, ◌∙◌, String, Bool, true, false, not, ◌&&◌, ◌||◌, some, List, [], ◌∷◌, ◌++◌,
  map, any, select, All, ◌==◌, str_eq, eq_iff, if◌then◌else◌, arith, Bool-cases, inl, inr,
}
use go_codebase.Authz.Tables.{Db, CasbinRule}
use go_codebase.Authz.Casbin.{Casbin, Policy, rule_of, trimmed_line, load_lines}
use go_codebase.Authz.Policy.{
  same_policy, load_user_flattened_policies, load_all_flattened_policies, enforce,
}
use go_codebase.Authz.Joins.{
  granted, any-++, any-select, any-ext, any-and, any-load_all, any-load_user,
}
use go_codebase.Authz.Synced.{Loaded, user_rules, all_rules}

-- What casbin does with model.conf, which has no role links and allows a request that some policy
-- names.
pub record Allows {M : Type 0} (c : Casbin M) : Type 0 where
  -- The policies whose texts are the same when they are read from a line: those without a comma, a
  -- quote or a space at an end, and with a text for each field
  pub readable : Policy → Bool
  -- The models without role links
  pub flat : M → Bool
  pub uuid_injective : (a b : ℕ) → str_eq (c.uuid_text a) (c.uuid_text b) ≡ (b == a)
  pub clears : (m : M) → flat (c.cleared m) ≡ true
  pub denies : (m : M) (sub obj act : String) → c.enforce (c.cleared m) sub obj act ≡ some false
  pub loads :
      (p : Policy) (m : M)
      → readable p ≡ true
      → flat m ≡ true
      → (m' : M) × (c.load_policy_line (trimmed_line c (rule_of p)) m ≡ some m')
        × (flat m' ≡ true)
        × ((sub obj act : String) (b : Bool)
            → c.enforce m sub obj act ≡ some b
            → c.enforce m' sub obj act ≡ some (same_policy sub obj act p || b))

-- The rules in the table are the permissions that the tables grant, and the enforcer decides by
-- them.
pub record Agrees {M : Type 0} (c : Casbin M) (law : Allows c) (db : Db M) : Type 0 where
  pub rules : List Policy
  pub table : db.casbin_rule ≡ map rule_of rules
  pub readable : All (λ p. law.readable p ≡ true) rules
  pub exact :
      (user_id : ℕ) (obj act : String)
      → any (same_policy (c.uuid_text user_id) obj act) rules ≡ granted db user_id obj act
  pub enforced :
      (user_id : ℕ) (obj act : String)
      → enforce c user_id obj act db ≡ some (granted db user_id obj act)

module _ {M : Type 0} (c : Casbin M) (law : Allows c) where
  load_lines-flat :
      (ps : List Policy) (m end : M)
      → All (λ p. law.readable p ≡ true) ps
      → law.flat m ≡ true
      → load_lines c (map rule_of ps) m ≡ some end
      → (sub obj act : String) (b : Bool) → c.enforce m sub obj act ≡ some b
      → c.enforce end sub obj act ≡ some (any (same_policy sub obj act) ps || b)
  unfolding load_lines
  load_lines-flat [] m end h f e sub obj act b g = let same : m ≡ end = cc in rw (← same) g
  load_lines-flat (p ∷ ps) m end h f e sub obj act b g =
      let (m', read, f', one) = law.loads p m h.0 f in
      let more : load_lines c (map rule_of ps) m' ≡ some end = rw (read) at e in
      let rest =
        load_lines-flat ps m' end h.1 f' more sub obj act (same_policy sub obj act p || b)
          (one sub obj act b g) in
      rest ∙ ap some (ground arith)

  module _ (d : Db M) (ps : List Policy) (rows : List CasbinRule) (db : Db M)
      (table : rows ≡ map rule_of ps) (readable : All (λ p. law.readable p ≡ true) ps)
      (exact : (user_id : ℕ) (obj act : String)
        → any (same_policy (c.uuid_text user_id) obj act) ps ≡ granted d user_id obj act)
      (l : Loaded c d rows db) where
    model_enforces :
        (user_id : ℕ) (obj act : String)
        → c.enforce l.model (c.uuid_text user_id) obj act ≡ some (granted d user_id obj act)
    model_enforces user_id obj act =
        let sub = c.uuid_text user_id in
        let read : load_lines c (map rule_of ps) (c.cleared d.model) ≡ some l.model =
          ap (λ rs. load_lines c rs (c.cleared d.model)) (sym table) ∙ l.loads in
        load_lines-flat ps (c.cleared d.model) l.model readable (law.clears d.model) read sub obj
          act false (law.denies d.model sub obj act)
        ∙ ap some (ground (arith, exact user_id obj act))

    -- A table of rules that a load accepts is what the enforcer decides by.
    loaded-Agrees : Agrees c law db
    unfolding enforce
    loaded-Agrees = rw (l.same) (record {
      rules = ps;
      table = table;
      readable = readable;
      exact = exact;
      enforced = model_enforces;
    })

  -- No row of the policies stays behind a reload of all.
  select-rules : (ps : List Policy) → select (λ r. not (str_eq r.ptype "p")) (map rule_of ps) ≡ []
  select-rules [] = refl
  select-rules (p ∷ ps) = select-rules ps

  pub all_rules-Agrees :
      (d : Db M) (old : List Policy) (db : Db M)
      → d.casbin_rule ≡ map rule_of old
      → All (λ p. law.readable p ≡ true) (load_all_flattened_policies c d)
      → Loaded c d (all_rules c d) db
      → Agrees c law db
  all_rules-Agrees d old db table readable l =
      loaded-Agrees d (load_all_flattened_policies c d) (all_rules c d) db
        (ap
            (λ rs.
              select (λ r. not (str_eq r.ptype "p")) rs
              ++ map rule_of (load_all_flattened_policies c d))
            table
          ∙ ap (λ rs. rs ++ map rule_of (load_all_flattened_policies c d)) (select-rules old))
        readable (any-load_all c law.uuid_injective d) l

  -- The rules of the other users.
  abbrev others : (user_id : ℕ) → Policy → Bool
  others user_id p = not (str_eq p.sub (c.uuid_text user_id))

  select-others :
      (user_id : ℕ) (ps qs : List Policy)
      → select (λ r. not (str_eq r.ptype "p" && str_eq r.v0 (c.uuid_text user_id))) (map rule_of ps)
          ++ map rule_of qs
        ≡ map rule_of (select (others user_id) ps ++ qs)
  select-others user_id [] qs = refl
  select-others user_id (p ∷ ps) qs = ground (arith, select-others user_id ps qs)

  All-others :
      (user_id : ℕ) (ps qs : List Policy)
      → All (λ p. law.readable p ≡ true) ps
      → All (λ p. law.readable p ≡ true) qs
      → All (λ p. law.readable p ≡ true) (select (others user_id) ps ++ qs)
  All-others user_id [] qs h g = g
  All-others user_id (p ∷ ps) qs h g = placed (others user_id p) (All-others user_id ps qs h.1 g)
    where
      placed :
          (b : Bool)
          → All (λ p. law.readable p ≡ true) (select (others user_id) ps ++ qs)
          → All
              (λ p. law.readable p ≡ true)
              ((if b then p ∷ select (others user_id) ps else select (others user_id) ps) ++ qs)
      placed true rest = (h.0, rest)
      placed false rest = rest

  others_asked :
      (user_id other : ℕ) (obj act : String) (p : Policy)
      → (others user_id p && same_policy (c.uuid_text other) obj act p)
        ≡ (not (user_id == other) && same_policy (c.uuid_text other) obj act p)
  others_asked user_id other obj act p = elim (Bool-cases (str_eq (c.uuid_text other) p.sub)) [
    | inl same ↦
        let e : c.uuid_text other ≡ p.sub = (eq_iff (c.uuid_text other) p.sub).0 same in
        rw (← e, law.uuid_injective other user_id) refl
    | inr differs ↦ rw (differs) (ground arith)
  ]

  pub user_rules-Agrees :
      (user_id : ℕ) (d : Db M) (old : List Policy) (db : Db M)
      → d.casbin_rule ≡ map rule_of old
      → All (λ p. law.readable p ≡ true) old
      → All (λ p. law.readable p ≡ true) (load_user_flattened_policies c user_id d)
      → ((other : ℕ) (obj act : String)
          → (user_id == other) ≡ false
          → any (same_policy (c.uuid_text other) obj act) old ≡ granted d other obj act)
      → Loaded c d (user_rules c user_id d) db
      → Agrees c law db
  user_rules-Agrees user_id d old db table readable fresh exact l =
      let new = load_user_flattened_policies c user_id d in
      loaded-Agrees d (select (others user_id) old ++ new) (user_rules c user_id d) db
        (ap
            (λ rs.
              select (λ r. not (str_eq r.ptype "p" && str_eq r.v0 (c.uuid_text user_id))) rs
              ++ map rule_of new)
            table
          ∙ select-others user_id old new)
        (All-others user_id old new readable fresh)
        (λ other obj act.
          let sub = c.uuid_text other in
          any-++ (same_policy sub obj act) (select (others user_id) old) new
          ∙ rw
              (
                any-select (same_policy sub obj act) (others user_id) old,
                any-ext (λ p. others user_id p && same_policy sub obj act p)
                    (λ p. not (user_id == other) && same_policy sub obj act p) old
                    (others_asked user_id other obj act),
                any-and (not (user_id == other)) (same_policy sub obj act) old,
                any-load_user c law.uuid_injective d user_id obj act other,
              )
              (elim (Bool-cases (user_id == other)) [
                | inl own ↦ rw (own) refl
                | inr foreign ↦ rw (foreign, exact other obj act foreign) (ground arith)
              ]))
        l
