-- ===== src/Core/Runtime.antt =====
-- What the program takes from the world around it: the clock, the random numbers, fresh
-- identifiers, and a database that may refuse any statement. None of these is code of the
-- repository, so they are one record of arbitrary functions of the number of calls made so far.
pub mod Preserves
pub mod Ends
use go_codebase.Prelude.{ℕ, suc, String, Option, none, some, List, [], ◌∷◌, ◌++◌}
use go_codebase.Core.Errors.{GoError, plain, wrap}
use go_codebase.Core.Proc.{
  Result, ok, err, Proc, ◌>>=◌, ◌>>◌, return, fail, on_error, Keeps, keeps_rules,
}

pub record Env : Type 0 where
  -- `time.Now()`, and `NOW()` in a statement
  pub now : ℕ → ℕ
  -- `rand.Read` of 32 bytes, in hexadecimal; none if it returns an error
  pub random : ℕ → Option String
  -- `uuid.New()`
  pub uuid : ℕ → ℕ
  -- What a TIMESTAMPTZ column keeps of a Go time, which is finer than its microseconds
  pub timestamptz : ℕ → ℕ
  -- The error of a database call, if it returns one: a lost connection, a cancelled context, or
  -- a constraint that the tables below do not carry.
  pub fault : ℕ → Option String

-- The same world with a database that answers every call.
abbrev pub reliable : Env → Env
reliable env = record env { fault = λ _. none }

-- The tables `D`, the number of calls made so far, and the events handed to the event bus.
pub record World (D E : Type 0) : Type 0 where
  pub db : D
  pub tick : ℕ
  pub published : List E

module _ {D E : Type 0} where
  abbrev pub step : World D E → World D E
  step w = record w { tick = suc w.tick }

  -- `_ = bus.Publish(ctx, e)`: the error is dropped, so only the call counts.
  abbrev pub publish : E → Proc (World D E) (Unit {0})
  publish e w = (ok tt, record w { published = w.published ++ e ∷ [] })

module _ {D E : Type 0} (env : Env) where
  abbrev pub read_clock : Proc (World D E) ℕ
  read_clock w = (ok (env.now w.tick), step w)

  abbrev pub new_uuid : Proc (World D E) ℕ
  new_uuid w = (ok (env.uuid w.tick), step w)

  abbrev pub read_random : Proc (World D E) String
  read_random w = elim (env.random w.tick) [
    | none ↦ (err (plain "random source"), step w)
    | some s ↦ (ok s, step w)
  ]

  -- One round trip to the database.
  abbrev pub round_trip : Proc (World D E) (Unit {0})
  round_trip w = elim (env.fault w.tick) [
    | none ↦ (ok tt, step w)
    | some text ↦ (err (plain text), step w)
  ]

-- A result of the statement's effect; none is a violated constraint.
abbrev pub stored : {D E : Type 0} → World D E → Option D → Result (Unit {0}) × World D E
stored w none = (err (plain "constraint violation"), w)
stored w (some d) = (ok tt, record w { db = d })

module _ {D E : Type 0} where
  abbrev pub apply : (D → Option D) → Proc (World D E) (Unit {0})
  apply f w = stored w (f w.db)

  abbrev pub read : {A : Type 0} → (D → A) → Proc (World D E) A
  read f w = (ok (f w.db), w)

module _ {D E : Type 0} (env : Env) where
  -- A statement that writes; the label is that of the `fmt.Errorf` around its error.
  abbrev pub exec : (label : String) → (D → Option D) → Proc (World D E) (Unit {0})
  exec label f = on_error (round_trip env >> apply f) (wrap label)

abbrev pub rolled_back : {D E A : Type 0} → D → Result A × World D E → Result A × World D E
rolled_back d (ok a, w) = (ok a, w)
rolled_back d (err e, w) = (err e, record w { db = d })

module _ {D E A : Type 0} (env : Env) where
  abbrev pub in_transaction : (ℕ → Proc (World D E) A) → Proc (World D E) A
  in_transaction m = do
    on_error (round_trip env) (wrap "begin tx")
    started ← read_clock env
    a ← m started
    round_trip env
    return a

  -- BeginTx, the body at the transaction's `NOW()`, Commit; an error on the way rolls back.
  unfoldable pub transaction : (ℕ → Proc (World D E) A) → Proc (World D E) A
  transaction m w = rolled_back w.db (in_transaction m w)
