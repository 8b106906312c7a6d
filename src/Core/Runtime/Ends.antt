-- ===== src/Core/Runtime/Ends.antt =====
-- What the tables are after a procedure that returned a value, from what they were before.
use go_codebase.Prelude.{
  String, ◌≡◌, refl, sym, ap, ◌∙◌, Option, none, some, Option-cases, inl, inr, arith,
}
use mathlib.Core.Path.{subst}
use go_codebase.Core.Errors.{GoError, plain, wrap}
use go_codebase.Core.Proc.{Result, ok, err, Proc, ◌>>=◌}
use go_codebase.Core.Proc.Ensures.{Ensures, Ensures-of_Keeps}
use go_codebase.Core.Runtime.{Env, World, round_trip, read, exec, rolled_back}
use go_codebase.Core.Runtime.Preserves.{On, Keeps-round_trip}

-- The tables are these.
abbrev pub Is : {D : Type 0} → D → D → Type 0
Is d db = db ≡ d

module _ {D E : Type 0} (env : Env) (d : D) where
  pub round_trip-Is : Ensures (On {E = E} (Is d)) (On (Is d)) (round_trip env)
  round_trip-Is = Ensures-of_Keeps (round_trip env) (Keeps-round_trip env)

  exec_ok :
      (label : String) (f : D → Option D) (w : World D E) (u : Unit {0})
      → (exec env label f w).0 ≡ ok u
      → f w.db ≡ some (exec env label f w).1.db
  exec_ok label f w u h = ground arith

  -- The tables are those that the statement gave.
  pub exec-Is :
      (label : String) (f : D → Option D)
      → Ensures (On {E = E} (Is d)) (On (λ db. f d ≡ some db)) (exec env label f)
  exec-Is label f = record {
    at = λ w u p e. record { tables = ap f (sym p.tables) ∙ exec_ok label f w u e };
  }

  exec-some :
      (label : String) (f : D → D) (w : World D E) (u : Unit {0})
      → (exec env label (λ db. some (f db)) w).0 ≡ ok u
      → (exec env label (λ db. some (f db)) w).1.db ≡ f w.db
  exec-some label f w u h = ground arith

  pub exec-some-Is :
      (label : String) (f : D → D)
      → Ensures (On {E = E} (Is d)) (On (Is (f d))) (exec env label (λ db. some (f db)))
  exec-some-Is label f = record {
    at = λ w u p e. record { tables = exec-some label f w u e ∙ ap f p.tables };
  }

module _ {D E A : Type 0} (d : D) where
  -- What is read is what the tables hold.
  pub read-Is :
      {B : Type 0} {Q : World D E → Type 0} (f : D → B) (g : B → Proc (World D E) A)
      → Ensures (On (Is d)) Q (g (f d))
      → Ensures (On (Is d)) Q (read f >>= g)
  read-Is {Q} f g h = record {
    at =
        λ w a p e. subst (λ b. (g b w).0 ≡ ok a → Q (g b w).1) (ap f (sym p.tables)) (h.at w a p) e;
  }

module _ {D E A : Type 0} where
  kept :
      (Q : World D E → Type 0) (d : D) (r : Result A × World D E) (a : A)
      → ((a : A) → r.0 ≡ ok a → Q r.1)
      → (rolled_back d r).0 ≡ ok a
      → Q (rolled_back d r).1
  kept Q d (ok b, w) a h e = h b refl
  kept Q d (err x, w) a h e = cc

module _ {D E A : Type 0} {P Q : World D E → Type 0} where
  -- A transaction that commits leaves what its body leaves.
  pub rolled_back-Ensures :
      (m : Proc (World D E) A) → Ensures P Q m → Ensures P Q (λ w. rolled_back w.db (m w))
  rolled_back-Ensures m h = record { at = λ w a p e. kept Q w.db (m w) a (λ b e'. h.at w b p e') e }

-- A statement that breaks a constraint returns an error, as a failing database does.
pub exec-none :
    {D E : Type 0} (env : Env) (label : String) (f : D → Option D) (w : World D E)
    → f w.db ≡ none
    → (e : GoError) × ((exec env label f w).0 ≡ err e) × ((exec env label f w).1.db ≡ w.db)
exec-none env label f w h = elim (Option-cases (env.fault w.tick)) [
  | inl answers ↦ (wrap label (plain "constraint violation"), ground arith, ground arith)
  | inr (text, e) ↦ (wrap label (plain text), ground arith, ground arith)
]
