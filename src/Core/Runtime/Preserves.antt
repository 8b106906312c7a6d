-- ===== src/Core/Runtime/Preserves.antt =====
-- Rules for facts about the tables that every step of a procedure keeps.
use go_codebase.Prelude.{ℕ, String, ◌≡◌, refl, Option, none, some, arith}
use go_codebase.Core.Errors.{GoError}
use go_codebase.Core.Proc.{
  Result, ok, err, Proc, ◌>>=◌, ◌>>◌, return, on_error, Keeps, Keeps-bind, Keeps-on_error,
  Keeps-return, keeps_rules,
}
use go_codebase.Core.Runtime.{
  Env, World, publish, read_clock, new_uuid, read_random, round_trip, stored, apply, read, exec,
  rolled_back, in_transaction, transaction,
}

-- A fact about the tables, as one about the world.
pub record On {D E : Type 0} (P : D → Type 0) (w : World D E) : Type 0 where
  pub tables : P w.db

-- A statement that succeeds keeps the fact.
pub record Safe {D : Type 0} (P : D → Type 0) (f : D → Option D) : Type 0 where
  pub at : (d e : D) → f d ≡ some e → P d → P e

-- Whatever a call of the oracle returns, the tables are as they were.
db-read_random : {D E : Type 0} (env : Env) (w : World D E) → (read_random env w).1.db ≡ w.db
db-read_random env w = ground arith

db-round_trip : {D E : Type 0} (env : Env) (w : World D E) → (round_trip env w).1.db ≡ w.db
db-round_trip env w = ground arith

module _ {D E : Type 0} {P : D → Type 0} where
  pub Keeps-publish : (e : E) → Keeps (On P) (publish {D = D} e)
  Keeps-publish e = record { at = λ w h. record { tables = h.tables } }

  pub Keeps-read_clock : (env : Env) → Keeps (On {E = E} P) (read_clock env)
  Keeps-read_clock env = record { at = λ w h. record { tables = h.tables } }

  pub Keeps-new_uuid : (env : Env) → Keeps (On {E = E} P) (new_uuid env)
  Keeps-new_uuid env = record { at = λ w h. record { tables = h.tables } }

  pub Keeps-read_random : (env : Env) → Keeps (On {E = E} P) (read_random env)
  Keeps-read_random env = record {
    at = λ w h. record { tables = rw (db-read_random env w) h.tables };
  }

  pub Keeps-round_trip : (env : Env) → Keeps (On {E = E} P) (round_trip env)
  Keeps-round_trip env = record {
    at = λ w h. record { tables = rw (db-round_trip env w) h.tables };
  }

  pub Keeps-read : {A : Type 0} (f : D → A) → Keeps (On {E = E} P) (read f)
  Keeps-read f = record { at = λ w h. h }

  stored-tables :
      (w : World D E) (o : Option D) → ((e : D) → o ≡ some e → P e) → P w.db → P (stored w o).1.db
  stored-tables w none safe h = h
  stored-tables w (some d) safe h = safe d refl

  pub Keeps-apply : (f : D → Option D) → Safe P f → Keeps (On {E = E} P) (apply f)
  Keeps-apply f safe = record {
    at = λ w h. record {
      tables = stored-tables w (f w.db) (λ e p. safe.at w.db e p h.tables) h.tables;
    };
  }

  pub Keeps-exec :
      (env : Env) (label : String) (f : D → Option D)
      → Safe P f
      → Keeps (On {E = E} P) (exec env label f)
  Keeps-exec env label f safe = search (keeps_rules, Keeps-round_trip, Keeps-apply)

module _ {D E A : Type 0} where
  rolled_back-tables :
      (P : D → Type 0) (d : D) (r : Result A × World D E)
      → P d
      → P r.1.db
      → P (rolled_back d r).1.db
  rolled_back-tables P d (ok a, w) hd h = h
  rolled_back-tables P d (err e, w) hd h = hd

  undone :
      (d : D) (r : Result A × World D E) {e : GoError}
      → (rolled_back d r).0 ≡ err e
      → (rolled_back d r).1.db ≡ d
  undone d (ok a, w) h = cc
  undone d (err x, w) h = refl

  -- A transaction that returns an error leaves the tables as they were.
  pub transaction-err :
      (env : Env) (m : ℕ → Proc (World D E) A) (w : World D E) {e : GoError}
      → (transaction env m w).0 ≡ err e
      → (transaction env m w).1.db ≡ w.db
  unfolding transaction
  transaction-err env m w h = undone w.db (in_transaction env m w) h

module _ {D E A : Type 0} {P : D → Type 0} where
  pub Keeps-in_transaction :
      (env : Env) (m : ℕ → Proc (World D E) A)
      → ((t : ℕ) → Keeps (On P) (m t))
      → Keeps (On P) (in_transaction env m)
  Keeps-in_transaction env m hm = search (keeps_rules, Keeps-round_trip, Keeps-read_clock, hm)

  pub Keeps-transaction :
      (env : Env) (m : ℕ → Proc (World D E) A)
      → ((t : ℕ) → Keeps (On P) (m t))
      → Keeps (On P) (transaction env m)
  unfolding transaction
  Keeps-transaction env m hm = record {
    at = λ w h. record {
      tables =
          rolled_back-tables P w.db (in_transaction env m w) h.tables
            ((Keeps-in_transaction env m hm).at w h).tables;
    };
  }

pub ruleset world_rules = (
  keeps_rules, Keeps-publish, Keeps-read_clock, Keeps-new_uuid, Keeps-read_random, Keeps-round_trip,
  Keeps-read, Keeps-exec, Keeps-transaction,
)
