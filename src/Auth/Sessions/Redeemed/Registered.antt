-- ===== src/Auth/Sessions/Redeemed/Registered.antt =====
-- From a registration to the login, where the database answers.
use go_codebase.Prelude.{
  ℕ, suc, ◌+◌, ◌*◌, String, ◌≡◌, refl, true, false, ◌||◌, none, some, List, [], ◌∷◌, ◌++◌, ltb, ◌<◌,
  eq_iff, arith, any, find, ◌==◌, str_eq, ap, sym, ◌∙◌,
}
use mathlib.Core.Path.{subst}
use go_codebase.Core.Proc.{ok, err}
use go_codebase.Core.Runtime.{Env, World, reliable, step}
use go_codebase.Auth.Entity.{User, Event, new_user, user_registered, is_locked}
use go_codebase.Auth.Tables.{UserRecord, Credential, Security, Db, email_verification}
use go_codebase.Auth.Tables.Saved.{
  by_email, credential_of, security_of, rewritten, find-append_last,
}
use go_codebase.Auth.Crypto.{Crypto}
use go_codebase.Core.Errors.{plain}
use go_codebase.Auth.UserRepository.{
  UserRow, get_by_email, by_token, owner_of, joined, map_row_to_entity,
}
use go_codebase.Auth.Commands.{
  RegisterUserCommand, hour, hash_token, generate_token, register, verify_email,
}
use go_codebase.Auth.Stable.Commands.{register-Keeps}
use go_codebase.Auth.Stable.Integrity.{Integrity-Stable}
use go_codebase.Auth.Tables.Integrity.{Integrity}
use go_codebase.Auth.Sessions.{LoginHandler, login}
use go_codebase.Auth.Sessions.Redeemed.Confirmed.{Verifies, verify_then_login}
use go_codebase.Auth.Sessions.Redeemed.Opened.{
  Fresh, row_of, opened, token_of, create-eq, open-eq, by_token-append_last, owner-opened,
}

unknown :
    (id : ℕ) (email : String) (xs : List UserRecord)
    → any (λ o. o.id == id || str_eq o.email email) xs ≡ false
    → find (by_email email) xs ≡ none
unknown id email [] h = refl
unknown id email (x ∷ xs) h = ground (arith, unknown id email xs)

get_by_email-unknown :
    (env : Env) (e : String) (w : World Db Event)
    → find (by_email e) w.db.users ≡ none
    → get_by_email (reliable env) e w ≡ (err (plain "user not found"), step w)
unfolding get_by_email
get_by_email-unknown env e w h = rw h refl

abbrev later : ℕ → World Db Event → World Db Event
later n w = record w { tick = n + w.tick }

module _ (env : Env) (k : Crypto) (c : RegisterUserCommand) (w : World Db Event)
    (hashed token : String) where
  abbrev entered : User
  entered =
      new_user (env.uuid (suc (suc w.tick))) (env.now (suc (suc (suc w.tick)))) c.email hashed
        c.name

  abbrev pub registered : User
  registered = record entered {
    email_verify_token = some (hash_token k token);
    email_verify_expires = some (env.now (11 + w.tick) + 24 * hour);
  }

  -- What a registration works with: an identifier and an address that no row has, a hash of the
  -- password, and a random token.
  pub record Registers : Type 0 where
    pub fresh : Fresh (env.uuid (suc (suc w.tick))) c.email w.db
    pub hashes : k.bcrypt_generate (suc w.tick) c.password ≡ some hashed
    pub draws : env.random (10 + w.tick) ≡ some token

  abbrev pub stored : Db
  stored =
      opened (env.now (13 + w.tick)) registered
        (token_of registered.id (hash_token k token) registered.email_verify_expires) w.db

  register-eq :
      Registers
      → register (reliable env) k c w ≡ (
        ok registered,
        record w {
          db = stored;
          tick = 19 + w.tick;
          published = w.published ++ user_registered c.email c.name token ∷ [];
        },
      )
  unfolding register new_user generate_token
  register-eq a = ground (
    arith,
    get_by_email-unknown env c.email w
        (unknown (env.uuid (suc (suc w.tick))) c.email w.db.users a.fresh.user),
    a.hashes,
    create-eq env entered (later 4 w) a.fresh refl refl refl,
    a.draws,
    open-eq env registered (later 12 w) (hash_token k token) a.fresh refl refl refl,
  )

module _ (env : Env) (k : Crypto) (c : RegisterUserCommand) (w : World Db Event)
    (hashed token : String) where
  abbrev mine : User
  mine = registered env k c w hashed token

  abbrev pub opened_row : UserRow
  opened_row = record {
    user = rewritten (env.now (13 + w.tick)) mine (row_of mine);
    password_hash = some hashed;
    login_attempts = some 0;
    locked_until = none;
    email_verify_token = some (hash_token k token);
    email_verify_expires = mine.email_verify_expires;
    password_reset_token = none;
    password_reset_expires = none;
  }

  found-opened :
      (now : ℕ)
      → Registers env k c w hashed token
      → any (λ o. str_eq o.token_hash (hash_token k token)) w.db.user_tokens ≡ false
      → now < env.now (11 + w.tick) + 24 * hour
      → by_token email_verification
          (hash_token k token)
          now
          (stored env k c w hashed token)
          (stored env k c w hashed token).user_tokens
        ≡ some opened_row
  unfolding by_token owner_of joined new_user
  found-opened now a unused early =
      let t = token_of mine.id (hash_token k token) mine.email_verify_expires in
      let db = stored env k c w hashed token in
      let same : (mine.id == mine.id) ≡ true = ground arith in
      let owner =
        owner-opened mine.id c.email w.db.users
          (rewritten (env.now (13 + w.tick)) mine (row_of mine)) a.fresh.user (ground arith) in
      let credential =
        find-append_last (λ (o : Credential). o.user_id == mine.id) (credential_of mine)
          w.db.credentials same a.fresh.credential in
      let security =
        find-append_last (λ (o : Security). o.user_id == mine.id) (security_of mine) w.db.security
          same a.fresh.security in
      let equal = (eq_iff (hash_token k token) (hash_token k token)).1 refl in
      let in_time : ltb now (env.now (11 + w.tick) + 24 * hour) ≡ true = ground arith in
      by_token-append_last email_verification (hash_token k token) now db t w.db.user_tokens unused
      ∙ rw (equal, in_time, owner, credential, security) refl

  -- A registration of a new address, with an identifier and a token whose hash no row has, returns
  -- the user and publishes the token last; the verification with that token before its end returns
  -- no error; and after it the user is let in with the password of the registration, where bcrypt
  -- accepts the hash that it has made.
  pub register_verify_login :
      (h : LoginHandler) (v v' : World Db Event)
      → Registers env k c w hashed token
      → Integrity w.db
      → any (λ o. str_eq o.token_hash (hash_token k token)) w.db.user_tokens ≡ false
      → k.bcrypt_compare hashed c.password ≡ true
      → v.db ≡ (register (reliable env) k c w).1.db
      → env.now (suc v.tick) < env.now (11 + w.tick) + 24 * hour
      → env.now (suc (suc v.tick)) < env.now (11 + w.tick) + 24 * hour
      → v'.db ≡ (verify_email (reliable env) k token v).1.db
      → ((register (reliable env) k c w).0 ≡ ok mine)
        × ((register (reliable env) k c w).1.published
            ≡ w.published ++ user_registered c.email c.name token ∷ [])
        × ((verify_email (reliable env) k token v).0 ≡ ok tt)
        × ((u : User) × ((login
                (reliable env)
                k
                h
                (record { email = c.email; password = c.password })
                v').0
              ≡ ok u)
            × (u.entity.id ≡ mine.id))
  unfolding new_user is_locked map_row_to_entity
  register_verify_login h v v' a keys unused accepts same early early' same' =
      let whole = register-eq env k c w hashed token a in
      let db : v.db ≡ stored env k c w hashed token = same ∙ ap (λ r. r.1.db) whole in
      let sound : Integrity v.db =
        subst Integrity (sym same)
          ((register-Keeps Integrity-Stable (reliable env) k c).at w
            (record { tables = keys })).tables in
      let found = found-opened (env.now (suc v.tick)) a unused early in
      let verifies : Verifies env k token v opened_row = record {
        keys = sound;
        found = rw db found;
        in_time = ground arith;
      } in
      let (verified, let_in) =
        verify_then_login env k token v opened_row h v' c.password verifies accepts refl same'
          refl in
      (ap (λ r. r.0) whole, ap (λ r. r.1.published) whole, verified, let_in)
