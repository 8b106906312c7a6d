-- ===== src/Auth/Sessions/Redeemed/Renewed.antt =====
-- From a password reset to the login with the new password.
use go_codebase.Prelude.{suc, String, ◌≡◌, refl, true, false, some, arith, ap, ◌∙◌}
use go_codebase.Core.Proc.{ok}
use go_codebase.Core.Runtime.{Env, World, reliable, step}
use go_codebase.Auth.Entity.{User, Event, is_locked, unlock}
use go_codebase.Auth.Tables.{password_reset, Db}
use go_codebase.Auth.Tables.Integrity.{Integrity}
use go_codebase.Auth.Crypto.{Crypto}
use go_codebase.Auth.UserRepository.{
  UserRow, by_token, joined, map_row_to_entity, get_by_reset_token, update,
}
use go_codebase.Auth.UserRepository.RoundTrip.{looked_up, reloaded}
use go_codebase.Auth.RefreshTokenRepository.{revoke_where, revoke_all_by_user_id}
use go_codebase.Auth.Commands.{ResetPasswordCommand, has_passed, hash_token, reset_password}
use go_codebase.Auth.Sessions.{LoginHandler, LoginQuery, login}
use go_codebase.Auth.Sessions.Redeemed.{
  stored_of, by_token-Owned, by_token-looked_up, other_tokens, update-stored, login-ok,
}

module _ (env : Env) (k : Crypto) (c : ResetPasswordCommand) (w : World Db Event) (row : UserRow)
    (hashed : String) where
  -- What the reset works with: a row for the token, a time before its end, and a hash.
  pub record Redeems : Type 0 where
    pub keys : Integrity w.db
    pub found :
        by_token password_reset (hash_token k c.token) (env.now (suc w.tick)) w.db w.db.user_tokens
        ≡ some row
    pub in_time : has_passed row.password_reset_expires (env.now (suc (suc w.tick))) ≡ false
    pub hashes : k.bcrypt_generate (suc (suc (suc w.tick))) c.new_password ≡ some hashed

  abbrev pub renewed : User
  renewed = record (stored_of (map_row_to_entity row)) { password = hashed }

  abbrev revoked_world : World Db Event
  revoked_world =
      (revoke_all_by_user_id (reliable env) (map_row_to_entity row).id
        (step (step (step (step w))))).1

  reset-update :
      Redeems → reset_password (reliable env) k c w ≡ update (reliable env) renewed revoked_world
  unfolding reset_password get_by_reset_token map_row_to_entity
  reset-update a =
      let o =
        by_token-Owned password_reset (hash_token k c.token) (env.now (suc w.tick)) w.db
          w.db.user_tokens row a.found in
      let (no_token, no_expiry) = other_tokens password_reset w.db row o in
      ground (arith, a.found, a.in_time, a.hashes, no_token, no_expiry)

  reset-stored :
      Redeems
      → ((update (reliable env) renewed revoked_world).0 ≡ ok tt)
        × (looked_up renewed.email (update (reliable env) renewed revoked_world).1.db
            ≡ some (
                reloaded
                  (env.now (suc revoked_world.tick))
                  (stored_of (map_row_to_entity row))
                  renewed))
  unfolding revoke_all_by_user_id map_row_to_entity revoke_where looked_up joined
  reset-stored a =
      let keys : Integrity revoked_world.db = record {
        ids = a.keys.ids;
        emails = a.keys.emails;
        credentials = a.keys.credentials;
        security = a.keys.security;
      } in
      update-stored env revoked_world (stored_of (map_row_to_entity row)) renewed keys
        (by_token-looked_up password_reset (hash_token k c.token) (env.now (suc w.tick)) w.db row
          a.keys a.found)
        refl refl refl refl

  -- A password reset with a token that can be redeemed, in time, returns no error, and afterwards
  -- the user of the token is let in with the new password, under the user's address, where the account is active, verified and not locked and bcrypt accepts the hash that it
  -- has made.
  pub reset_then_login :
      (h : LoginHandler) (later : World Db Event)
      → Redeems
      → k.bcrypt_compare hashed c.new_password ≡ true
      → renewed.is_active ≡ true
      → renewed.email_verified ≡ true
      → later.db ≡ (reset_password (reliable env) k c w).1.db
      → is_locked (env.now (suc later.tick)) renewed ≡ false
      → ((reset_password (reliable env) k c w).0 ≡ ok tt)
        × ((u : User) × ((login
                (reliable env)
                k
                h
                (record { email = renewed.email; password = c.new_password })
                later).0
              ≡ ok u)
            × (u.entity.id ≡ row.user.id))
  unfolding login unlock is_locked map_row_to_entity
  reset_then_login h later a accepts active verified same unlocked =
      let whole = reset-update a in
      let (done, stored) = reset-stored a in
      let after =
        reloaded (env.now (suc revoked_world.tick)) (stored_of (map_row_to_entity row)) renewed in
      let found : looked_up renewed.email later.db ≡ some after =
        ap (λ d. looked_up renewed.email d) (same ∙ ap (λ r. r.1.db) whole) ∙ stored in
      let q : LoginQuery = record { email = renewed.email; password = c.new_password } in
      (
        ap (λ r. r.0) whole ∙ done,
        (unlock after, login-ok env k h q later after found active verified unlocked accepts, refl),
      )
