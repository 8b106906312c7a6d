-- ===== src/Auth/Sessions/Login.antt =====
-- What a login establishes, and what it answers otherwise.
use go_codebase.Prelude.{◌≡◌, true, false, arith}
use go_codebase.Core.Errors.{sentinel, query_invalid_credentials}
use go_codebase.Core.Proc.{ok, on_error, bind-eq-ok}
use go_codebase.Core.Runtime.{Env, World}
use go_codebase.Auth.Entity.{User, Event, is_locked, unlock}
use go_codebase.Auth.Tables.{Db}
use go_codebase.Auth.Crypto.{Crypto}
use go_codebase.Auth.UserRepository.{get_by_email}
use go_codebase.Auth.Sessions.{LoginHandler, LoginQuery, login}

module _ (env : Env) (k : Crypto) (h : LoginHandler) (q : LoginQuery) (w : World Db Event) where
  -- Why a login may return the user `u`.
  pub record MayLogin (u : User) : Type 0 where
    pub stored : User
    pub looked_up : (get_by_email env q.email w).0 ≡ ok stored
    pub active : stored.is_active ≡ true
    pub unlocked : is_locked (env.now (get_by_email env q.email w).1.tick) stored ≡ false
    pub verified : stored.email_verified ≡ true
    pub password : k.bcrypt_compare stored.password q.password ≡ true
    pub returned : u ≡ unlock stored

  -- A login that returns a user has found it under the address, active, not locked, with a verified
  -- address and with the right password, and returns it with its counter and lock cleared.
  pub login_sound : (u : User) → (login env k h q w).0 ≡ ok u → MayLogin u
  unfolding login
  login_sound u e =
      let (stored, got, rest) =
        bind-eq-ok (on_error (get_by_email env q.email) (λ _. sentinel query_invalid_credentials)) _
          w e in
      record {
        stored = stored;
        looked_up = ground arith;
        active = ground arith;
        unlocked = ground arith;
        verified = ground arith;
        password = ground arith;
        returned = ground arith;
      }
