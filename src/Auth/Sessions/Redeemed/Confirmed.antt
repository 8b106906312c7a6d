-- ===== src/Auth/Sessions/Redeemed/Confirmed.antt =====
-- From the verification of an address to the login.
use go_codebase.Prelude.{suc, String, ◌≡◌, refl, true, false, some, arith, ap, ◌∙◌}
use go_codebase.Core.Proc.{Result, err, follow, ok, ◌>>◌}
use go_codebase.Core.Runtime.{Env, World, reliable, step, publish}
use go_codebase.Auth.Entity
use go_codebase.Auth.Entity.{User, Event, is_locked, unlock}
use go_codebase.Auth.Tables.{email_verification, Db}
use go_codebase.Auth.Tables.Integrity.{Integrity}
use go_codebase.Auth.Crypto.{Crypto}
use go_codebase.Auth.UserRepository.{
  Action, UserRow, by_token, map_row_to_entity, get_by_verify_token, update,
}
use go_codebase.Auth.UserRepository.RoundTrip.{looked_up, reloaded}
use go_codebase.Auth.Commands.{has_passed, hash_token, verify_email}
use go_codebase.Auth.Sessions.{LoginHandler, LoginQuery, login}
use go_codebase.Auth.Sessions.Redeemed.{
  stored_of, by_token-Owned, by_token-looked_up, other_tokens, update-stored, login-ok,
}

-- What follows a run that returns no error.
then-eq :
    {A : Type 0} (m : Action (Unit {0})) (w : World Db Event)
    → (m w).0 ≡ ok tt
    → (n : Action A) → (m >> n) w ≡ n (m w).1
then-eq {A} m w h n = split (m w) h
  where
    split : (r : Result (Unit {0}) × World Db Event) → r.0 ≡ ok tt → follow r (λ _. n) ≡ n r.1
    split (ok u, v) e = refl
    split (err x, v) e = cc

module _ (env : Env) (k : Crypto) (token : String) (w : World Db Event) (row : UserRow) where
  -- What the verification works with: a row for the token, and a time before its end.
  pub record Verifies : Type 0 where
    pub keys : Integrity w.db
    pub found :
        by_token email_verification
          (hash_token k token)
          (env.now (suc w.tick))
          w.db
          w.db.user_tokens
        ≡ some row
    pub in_time : has_passed row.email_verify_expires (env.now (suc (suc w.tick))) ≡ false

  abbrev pub confirmed : User
  confirmed = record (stored_of (map_row_to_entity row)) { email_verified = true }

  verify-update :
      Verifies
      → verify_email (reliable env) k token w
        ≡ (update (reliable env) confirmed
              >> publish (
                  Entity.Event.email_verified
                    (k.uuid_string confirmed.id)
                    confirmed.email
                    confirmed.name))
            (step (step (step w)))
  unfolding verify_email get_by_verify_token map_row_to_entity
  verify-update a =
      let o =
        by_token-Owned email_verification (hash_token k token) (env.now (suc w.tick)) w.db
          w.db.user_tokens row a.found in
      let (no_token, no_expiry) = other_tokens email_verification w.db row o in
      ground (arith, a.found, a.in_time, no_token, no_expiry)

  verify-stored :
      Verifies
      → ((update (reliable env) confirmed (step (step (step w)))).0 ≡ ok tt)
        × (looked_up confirmed.email (update (reliable env) confirmed (step (step (step w)))).1.db
            ≡ some (
                reloaded
                  (env.now (suc (suc (suc (suc w.tick)))))
                  (stored_of (map_row_to_entity row))
                  confirmed))
  verify-stored a =
      update-stored env (step (step (step w))) (stored_of (map_row_to_entity row)) confirmed a.keys
        (by_token-looked_up email_verification (hash_token k token) (env.now (suc w.tick)) w.db row
          a.keys a.found)
        refl refl refl refl

  -- A verification with a token that can be redeemed, in time, returns no error, and
  -- afterwards the user of the token is let in with its password, where the account is active and
  -- not locked.
  pub verify_then_login :
      (h : LoginHandler) (later : World Db Event) (password : String)
      → Verifies
      → k.bcrypt_compare confirmed.password password ≡ true
      → confirmed.is_active ≡ true
      → later.db ≡ (verify_email (reliable env) k token w).1.db
      → is_locked (env.now (suc later.tick)) confirmed ≡ false
      → ((verify_email (reliable env) k token w).0 ≡ ok tt)
        × ((u : User) × ((login
                (reliable env)
                k
                h
                (record { email = confirmed.email; password = password })
                later).0
              ≡ ok u)
            × (u.entity.id ≡ row.user.id))
  unfolding unlock is_locked map_row_to_entity
  verify_then_login h later password a right active same unlocked =
      let whole = verify-update a in
      let (done, stored) = verify-stored a in
      let after =
        reloaded (env.now (suc (suc (suc (suc w.tick))))) (stored_of (map_row_to_entity row))
          confirmed in
      let q : LoginQuery = record { email = confirmed.email; password = password } in
      let published = then-eq (update (reliable env) confirmed) (step (step (step w))) done in
      let event =
        Entity.email_verified (k.uuid_string confirmed.id) confirmed.email confirmed.name in
      let ended = whole ∙ published (publish event) in
      let found : looked_up confirmed.email later.db ≡ some after =
        ap (λ d. looked_up confirmed.email d) (same ∙ ap (λ r. r.1.db) ended) ∙ stored in
      (
        ap (λ r. r.0) ended,
        (unlock after, login-ok env k h q later after found active refl unlocked right, refl),
      )
