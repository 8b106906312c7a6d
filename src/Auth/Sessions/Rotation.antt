-- ===== src/Auth/Sessions/Rotation.antt =====
-- Refresh tokens are used once. A token whose rows are all revoked or deleted stays so, and is
-- refused for ever.
use mathlib.Core.List.{List, [], ◌∷◌}
use go_codebase.Prelude.{
  ℕ, String, ◌≡◌, true, ◌&&◌, some, arith, is_some, find, any, update_where, All, Option-cases, inl,
  inr, str_eq,
}
use go_codebase.Core.Errors.{GoError, sentinel, invalid_refresh_token}
use go_codebase.Core.Proc.{ok, err, ◌>>=◌, on_error, Keeps-on_error}
use go_codebase.Core.Proc.Ensures.{
  Ensures, Ensures-of_Keeps, Ensures-on_error, Ensures-bind, Ensures-bind_keep,
}
use go_codebase.Core.Runtime.{Env, World}
use go_codebase.Core.Runtime.Preserves.{On, Keeps-read_clock}
use go_codebase.Auth.Entity.{RefreshToken, Event}
use go_codebase.Auth.Tables.{Db}
use go_codebase.Auth.UserRepository.{Action}
use go_codebase.Auth.RefreshTokenRepository.{
  revoked_at_now, revocable, stands, get_by_token, revoke,
}
use go_codebase.Auth.Crypto.{Crypto}
use go_codebase.Auth.Stable.{get_by_id-Keeps}
use go_codebase.Auth.Stable.Commands.{deny-Keeps, generate_tokens-Keeps}
use go_codebase.Auth.Sessions.{TokenPair, refresh, logout}
use go_codebase.Auth.Sessions.Retired.{has_token, dead, Retired, Retired-Stable}
use go_codebase.Auth.Trace.{Call, run_all, run_all-On, logout_of}

module _ (t : String) where
  -- The token of a row that a lookup returned was issued.
  issued_of_find :
      (xs : List RefreshToken) (r : RefreshToken)
      → find (λ r. str_eq r.token t && stands r) xs ≡ some r
      → any (has_token t) xs ≡ true
  issued_of_find [] r h = cc
  issued_of_find (x ∷ xs) r h = ground (arith, issued_of_find xs r)

  find-spent :
      (xs : List RefreshToken) (r : RefreshToken)
      → find (λ r. str_eq r.token t && stands r) xs ≡ some r
      → All (λ r. dead t r ≡ true) xs
      → is_some r.revoked_at ≡ true
  find-spent [] r h d = cc
  find-spent (x ∷ xs) r h d = ground (arith, find-spent xs r)

  -- Revoking a token leaves no row of it that can be used.
  spent-revoked :
      (now : ℕ) (xs : List RefreshToken)
      → All
          (λ r. dead t r ≡ true)
          (update_where (λ r. str_eq r.token t && revocable r) (revoked_at_now now) xs)
  spent-revoked now [] = tt
  spent-revoked now (x ∷ xs) = (ground arith, spent-revoked now xs)

  any-revoked :
      (now : ℕ) (xs : List RefreshToken)
      → any (has_token t) xs ≡ true
      → any
          (has_token t)
          (update_where (λ r. str_eq r.token t && revocable r) (revoked_at_now now) xs)
        ≡ true
  any-revoked now [] h = h
  any-revoked now (x ∷ xs) h = ground (arith, any-revoked now xs)

  pub record Issued (db : Db) : Type 0 where
    pub row : any (has_token t) db.refresh_tokens ≡ true

  abbrev Anything : Db → Type 0
  Anything db = Unit

  found_row :
      (env : Env) (w : World Db Event) (r : RefreshToken)
      → (get_by_token env t w).0 ≡ ok r
      → find (λ r. str_eq r.token t && stands r) w.db.refresh_tokens ≡ some r
  unfolding get_by_token
  found_row env w r e = ground arith

  db-get_by_token : (env : Env) (w : World Db Event) → (get_by_token env t w).1.db ≡ w.db
  unfolding get_by_token
  db-get_by_token env w = ground arith

  get_by_token-Ensures :
      (env : Env) → Ensures (On {E = Event} Anything) (On Issued) (get_by_token env t)
  get_by_token-Ensures env = record {
    at = λ w r _ e. record {
      tables =
          rw (db-get_by_token env w)
            (record { row = issued_of_find w.db.refresh_tokens r (found_row env w r e) });
    };
  }

  revoked_rows :
      (env : Env) (w : World Db Event) (a : Unit {0})
      → (revoke env t w).0 ≡ ok a
      → (revoke env t w).1.db.refresh_tokens
        ≡ update_where
            (λ r. str_eq r.token t && revocable r)
            (revoked_at_now (env.now w.tick))
            w.db.refresh_tokens
  unfolding revoke
  revoked_rows env w a e = ground arith

  revoke-Ensures : (env : Env) → Ensures (On {E = Event} Issued) (On (Retired t)) (revoke env t)
  revoke-Ensures env = record {
    at = λ w a h e. record {
      tables = record {
        rows = rw (revoked_rows env w a e) (record {
          issued = any-revoked (env.now w.tick) w.db.refresh_tokens h.tables.row;
          spent = spent-revoked (env.now w.tick) w.db.refresh_tokens;
        });
      };
    };
  }

  lookup_step :
      {B : Type 0} {Q : World Db Event → Type 0} (env : Env) (label : GoError → GoError)
      (f : RefreshToken → Action B)
      → ((r : RefreshToken) → Ensures (On Issued) Q (f r))
      → Ensures (On Anything) Q (on_error (get_by_token env t) label >>= f)
  lookup_step env label f h = Ensures-bind _ _ (Ensures-on_error _ _ (get_by_token-Ensures env)) h

  revoke_step :
      {B : Type 0} {Q : World Db Event → Type 0} (env : Env) (f : Unit {0} → Action B)
      → ((a : Unit {0}) → Ensures (On (Retired t)) Q (f a))
      → Ensures (On Issued) Q (revoke env t >>= f)
  revoke_step env f h = Ensures-bind _ _ (revoke-Ensures env) h

  refresh-Ensures :
      (env : Env) (k : Crypto) (tenant : String) (ttl : ℕ)
      → Ensures (On Anything) (On (Retired t)) (refresh env k tenant t ttl)
  unfolding refresh
  refresh-Ensures env k tenant ttl =
      search
        (
          Ensures-bind_keep,
          Ensures-of_Keeps,
          lookup_step,
          revoke_step,
          get_by_id-Keeps,
          deny-Keeps,
          Keeps-read_clock,
          Keeps-on_error,
          generate_tokens-Keeps (Retired-Stable t),
        )
        depth 20

module _ (env : Env) (k : Crypto) (t : String) (w : World Db Event) where
  Retired-refused :
      (tenant : String) (ttl : ℕ)
      → Retired t w.db
      → (refresh env k tenant t ttl w).0 ≡ err (sentinel invalid_refresh_token)
  unfolding refresh get_by_token
  Retired-refused tenant ttl h =
      elim (Option-cases (find (λ r. str_eq r.token t && stands r) w.db.refresh_tokens)) [
        | inl missing ↦ ground arith
        | inr (r, present) ↦ ground (arith, find-spent t w.db.refresh_tokens r present h.rows.spent)
      ]

module _ (env : Env) (k : Crypto) (t : String) where
  -- A refresh token that a refresh has accepted is refused by every later refresh, whatever
  -- requests come in between, in whatever tenant, and wherever the database fails.
  pub refresh_once :
      (w : World Db Event) (tenant tenant' : String) (ttl ttl' : ℕ) (pair : TokenPair)
      (cs : List Call)
      → (refresh env k tenant t ttl w).0 ≡ ok pair
      → (refresh env k tenant' t ttl' (run_all env k cs (refresh env k tenant t ttl w).1)).0
        ≡ err (sentinel invalid_refresh_token)
  refresh_once w tenant tenant' ttl ttl' pair cs e =
      let w' = (refresh env k tenant t ttl w).1 in
      let after : On (Retired t) w' =
        (refresh-Ensures t env k tenant ttl).at w pair (record { tables = tt }) e in
      Retired-refused env k t (run_all env k cs w') tenant' ttl'
        (run_all-On env k (Retired-Stable t) cs w' after).tables

  -- Once a logout with the token has succeeded, the token is refused for ever, whatever requests
  -- come in between. The token is any that was issued.
  pub logout_once :
      (w : World Db Event) (tenant : String) (ttl : ℕ) (cs : List Call)
      → any (has_token t) w.db.refresh_tokens ≡ true
      → (logout env (logout_of t) w).0 ≡ ok tt
      → (refresh env k tenant t ttl (run_all env k cs (logout env (logout_of t) w).1)).0
        ≡ err (sentinel invalid_refresh_token)
  unfolding logout
  logout_once w tenant ttl cs issued e =
      let w' = (revoke env t w).1 in
      let before : On {E = Event} (Issued t) w = record { tables = record { row = issued } } in
      let after : On (Retired t) w' = (revoke-Ensures t env).at w tt before e in
      Retired-refused env k t (run_all env k cs w') tenant ttl
        (run_all-On env k (Retired-Stable t) cs w' after).tables
