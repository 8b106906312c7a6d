-- ===== src/Auth/Sessions/Lockout.antt =====
-- Wrong passwords lock an account, where the database answers.
use mathlib.Core.Path.{subst}
use go_codebase.Prelude.{
  ℕ, suc, ◌+◌, List, [], ◌∷◌, All, ◌≤◌, ◌<◌, String, ◌≡◌, refl, true, false, some, arith, any, ap,
  sym, ◌∙◌,
}
use go_codebase.Core.Entity.{Entity}
use go_codebase.Core.Errors.{sentinel, query_invalid_credentials, query_account_locked}
use go_codebase.Core.Proc.{Result, ok, err}
use go_codebase.Core.Runtime.{Env, World, reliable, step}
use go_codebase.Auth.Entity.{User, Event, is_locked, unlock}
use go_codebase.Auth.Tables.{Db, matches}
use go_codebase.Auth.Tables.Saved.{clashes}
use go_codebase.Auth.Tables.Integrity.{Integrity}
use go_codebase.Auth.Crypto.{Crypto}
use go_codebase.Auth.UserRepository.{update}
use go_codebase.Auth.UserRepository.RoundTrip.{
  looked_up, reloaded, Stands-of_looked_up, get_by_email-eq, update-eq, looked_up-saved,
}
use go_codebase.Auth.Sessions.{LoginHandler, LoginQuery, count_failure, login}

-- The user as the failed attempt leaves it.
abbrev pub after_failure : Env → LoginHandler → World Db Event → User → User
after_failure env h w u = count_failure h (env.now (suc (suc w.tick))) u

module _ (env : Env) (k : Crypto) (h : LoginHandler) (q : LoginQuery) (w : World Db Event)
    (u : User) where
  -- Address, activity, lock and verification let the login reach the password.
  pub record Attempted : Type 0 where
    pub keys : Integrity w.db
    pub stored : looked_up q.email w.db ≡ some u
    pub active : u.is_active ≡ true
    pub unlocked : is_locked (env.now (suc w.tick)) u ≡ false
    pub verified : u.email_verified ≡ true

  pub login_failure :
      Attempted
      → k.bcrypt_compare u.password q.password ≡ false
      → login (reliable env) k h q w ≡ (
        err (sentinel query_invalid_credentials),
        (update (reliable env) (after_failure env h w u) (step (step (step w)))).1,
      )
  unfolding login
  login_failure a wrong = ground (arith, get_by_email-eq env q.email w u)

  login_success :
      Attempted
      → k.bcrypt_compare u.password q.password ≡ true
      → login (reliable env) k h q w
        ≡ (ok (unlock u), (update (reliable env) (unlock u) (step (step w))).1)
  unfolding login
  login_success a right = ground (arith, get_by_email-eq env q.email w u)

-- A store of a changed user is found by the address, with the change.
module _ (env : Env) (e : String) (w : World Db Event) (old u : User) where
  pub stored_change :
      Integrity w.db
      → looked_up e w.db ≡ some old
      → u.entity ≡ old.entity
      → u.email ≡ old.email
      → u.email_verify_token ≡ old.email_verify_token
      → u.password_reset_token ≡ old.password_reset_token
      → looked_up e (update (reliable env) u w).1.db ≡ some (reloaded (env.now (suc w.tick)) old u)
  stored_change keys found same email vt rt =
      let s = Stands-of_looked_up e w.db old keys found in
      let id : u.id ≡ old.id = ap (λ (x : Entity). x.id) same in
      let address : u.email ≡ e = email ∙ s.email in
      let present : any (matches u.id) w.db.users ≡ true = rw id s.present in
      let alone : any (clashes u.id u.email) w.db.users ≡ false = rw id (rw address s.alone) in
      let done = update-eq env u w (vt ∙ s.verify_token) (rt ∙ s.reset_token) present alone in
      rw done (
        rw (← address)
          (looked_up-saved (env.now (suc w.tick)) u old w.db (rw address found) (sym id) keys.ids))

-- The failed attempt changes the counter and the lock.
module _ (env : Env) (h : LoginHandler) where
  stored_failure :
      (e : String) (w before : World Db Event) (u : User)
      → Integrity before.db
      → looked_up e before.db ≡ some u
      → looked_up e (update (reliable env) (after_failure env h w u) before).1.db
        ≡ some (reloaded (env.now (suc before.tick)) u (after_failure env h w u))
  unfolding count_failure
  stored_failure e w before u keys found =
      stored_change env e before u (after_failure env h w u) keys found (ground arith)
        (ground arith) (ground arith) (ground arith)

  active-failure :
      (w : World Db Event) (u : User) → (after_failure env h w u).is_active ≡ u.is_active
  unfolding count_failure
  active-failure w u = ground arith

  locked_failure :
      (w : World Db Event) (u : User) (now t : ℕ)
      → h.max_login_attempts ≤ u.failed_login_attempts + 1
      → now < env.now (suc (suc w.tick)) + h.lockout_duration
      → is_locked now (reloaded t u (after_failure env h w u)) ≡ true
  unfolding count_failure is_locked
  locked_failure w u now t limit soon = ground arith

  counted_once :
      (w : World Db Event) (u : User)
      → u.failed_login_attempts + 1 < h.max_login_attempts
      → after_failure env h w u ≡ record u { failed_login_attempts = u.failed_login_attempts + 1 }
  unfolding count_failure
  counted_once w u below = ground arith

module _ (env : Env) (k : Crypto) (h : LoginHandler) (q : LoginQuery) (w : World Db Event)
    (u : User) where
  login_locked :
      looked_up q.email w.db ≡ some u
      → u.is_active ≡ true
      → is_locked (env.now (suc w.tick)) u ≡ true
      → login (reliable env) k h q w ≡ (err (sentinel query_account_locked), step (step w))
  unfolding login
  login_locked found active locked = ground (arith, get_by_email-eq env q.email w u)

-- Logins for one address, each after a pause, in calls of the environment.
module _ (env : Env) (k : Crypto) (h : LoginHandler) (e : String) where
  abbrev tried : String → (pause : ℕ) → World Db Event → Result User × World Db Event
  tried password pause w =
      login (reliable env) k h (record { email = e; password = password })
        (record w { tick = pause + w.tick })

  abbrev pub results : List (ℕ × String) → World Db Event → List (Result User)
  results [] w = []
  results ((pause, password) ∷ xs) w =
      (tried password pause w).0 ∷ results xs (tried password pause w).1

  abbrev pub after_all : List (ℕ × String) → World Db Event → World Db Event
  after_all [] w = w
  after_all ((pause, password) ∷ xs) w = after_all xs (tried password pause w).1

-- The number of the last call of the environment, where every login makes two.
abbrev pub last_tick : List (ℕ × String) → ℕ → ℕ
last_tick [] n = n
last_tick ((pause, password) ∷ xs) n = last_tick xs (suc (suc (pause + n)))

last_tick-le : (xs : List (ℕ × String)) (n : ℕ) → n ≤ last_tick xs n
last_tick-le [] n = omega arith
last_tick-le ((pause, password) ∷ xs) n = omega (arith, last_tick-le xs (suc (suc (pause + n))))

abbrev Refusal : Result User → Type 0
Refusal r = r ≡ err (sentinel query_account_locked)

module _ (env : Env) (k : Crypto) (h : LoginHandler) (e : String) (u : User) where
  all_refused :
      (xs : List (ℕ × String)) (w : World Db Event)
      → looked_up e w.db ≡ some u
      → u.is_active ≡ true
      → ((n : ℕ) → n ≤ last_tick xs w.tick → is_locked (env.now n) u ≡ true)
      → All (λ r. r ≡ err (sentinel query_account_locked)) (results env k h e xs w)
        × ((after_all env k h e xs w).db ≡ w.db)
  all_refused [] w found active locked = (tt, refl)
  all_refused ((pause, password) ∷ xs) w found active locked =
      let q : LoginQuery = record { email = e; password = password } in
      let later = record w { tick = pause + w.tick } in
      let here =
        locked (suc (pause + w.tick))
          (omega (arith, last_tick-le xs (suc (suc (pause + w.tick))))) in
      let refused = login_locked env k h q later u found active here in
      let (rest, same) = all_refused xs (step (step later)) found active locked in
      (
        (
          ap (λ r. r.0) refused,
          subst (λ v. All Refusal (results env k h e xs v)) (sym (ap (λ r. r.1) refused)) rest,
        ),
        ap (λ r. (after_all env k h e xs r.1).db) refused ∙ same,
      )

module _ (env : Env) (k : Crypto) (h : LoginHandler) (q : LoginQuery) (w : World Db Event)
    (u : User) where
  -- Where the database answers, a wrong password that reaches the limit, for a user who is active,
  -- verified and not locked, locks the account. Whatever passwords are then tried for the address,
  -- any number of times and whatever time passes between the attempts, each login is refused as
  -- locked, also with the right password, as long as the clock is before the end of the lockout
  -- duration, if only these logins come to the tables. The tables stay as they are.
  pub lockout :
      (attempts : List (ℕ × String))
      → Attempted env k h q w u
      → k.bcrypt_compare u.password q.password ≡ false
      → h.max_login_attempts ≤ u.failed_login_attempts + 1
      → ((n : ℕ)
          → n ≤ last_tick attempts (login (reliable env) k h q w).1.tick
          → env.now n < env.now (suc (suc w.tick)) + h.lockout_duration)
      → All
          (λ r. r ≡ err (sentinel query_account_locked))
          (results env k h q.email attempts (login (reliable env) k h q w).1)
        × ((after_all env k h q.email attempts (login (reliable env) k h q w).1).db
            ≡ (login (reliable env) k h q w).1.db)
  lockout attempts a wrong limit soon =
      let before = step (step (step w)) in
      let u' = after_failure env h w u in
      let t = env.now (suc before.tick) in
      let now_locked = (login (reliable env) k h q w).1 in
      let found : looked_up q.email now_locked.db ≡ some (reloaded t u u') =
        rw (login_failure env k h q w u a wrong)
          (stored_failure env h q.email w before u a.keys a.stored) in
      all_refused env k h q.email (reloaded t u u') attempts now_locked found
        (active-failure env h w u ∙ a.active)
        (λ n early. locked_failure env h w u (env.now n) t limit (soon n early))

  -- Where the database answers, a wrong password below the limit, for a user who is active, verified
  -- and not locked, is refused as wrong, is counted once and locks nothing: the address finds the
  -- user with one attempt more.
  pub wrong_password_counted :
      Attempted env k h q w u
      → k.bcrypt_compare u.password q.password ≡ false
      → u.failed_login_attempts + 1 < h.max_login_attempts
      → ((login (reliable env) k h q w).0 ≡ err (sentinel query_invalid_credentials))
        × (looked_up q.email (login (reliable env) k h q w).1.db
            ≡ some (
                reloaded
                  (env.now (suc (suc (suc (suc w.tick)))))
                  u
                  (record u { failed_login_attempts = u.failed_login_attempts + 1 })))
  wrong_password_counted a wrong below =
      let stored = stored_failure env h q.email w (step (step (step w))) u a.keys a.stored in
      let once = counted_once env h w u below in
      rw (login_failure env k h q w u a wrong, once) (refl, rw once at stored)

  -- The right password is answered with the user, and its counter and lock are cleared in the
  -- answer and in the tables.
  pub right_password_clears :
      Attempted env k h q w u
      → k.bcrypt_compare u.password q.password ≡ true
      → ((login (reliable env) k h q w).0 ≡ ok (unlock u))
        × (looked_up q.email (login (reliable env) k h q w).1.db
            ≡ some (reloaded (env.now (suc (suc (suc w.tick)))) u (unlock u)))
  unfolding unlock
  right_password_clears a right = rw (login_success env k h q w u a right) (
    refl,
    stored_change env q.email (step (step w)) u (unlock u) a.keys a.stored refl refl refl refl,
  )
