-- ===== src/Auth/Sessions/Redeemed/Opened.antt =====
-- The tables after `Create` of a new user and `Update` with its first token.
use go_codebase.Prelude.{
  ℕ, suc, String, ◌≡◌, refl, Bool, true, false, ◌||◌, Option, none, some, List, [], ◌∷◌, ◌++◌, ◌&&◌,
  arith, any, find, ◌==◌, str_eq, update_where,
}
use go_codebase.Core.Proc.{ok}
use go_codebase.Core.Runtime.{Env, World, reliable, transaction}
use go_codebase.Auth.Entity.{User, Event}
use go_codebase.Auth.Tables.{
  UserRecord, UserToken, TokenType, Credential, Security, Db, email_verification, matches, live,
  insert_user, insert_credential, insert_security, insert_user_token, update_user,
  upsert_credential, upsert_security,
}
use go_codebase.Auth.Tables.Saved.{credential_of, security_of, rewritten, clashes, find-append_last}
use go_codebase.Auth.UserRepository.{create, update, by_token}

module _ {ℓ} {A : Type ℓ} (p : A → Bool) where
  update_where-append_last :
      (f : A → A) (r : A) (xs : List A)
      → any p xs ≡ false
      → p r ≡ true
      → update_where p f (xs ++ r ∷ []) ≡ xs ++ f r ∷ []
  update_where-append_last f r [] h t = ground arith
  update_where-append_last f r (x ∷ xs) h t = ground (arith, update_where-append_last f r xs)

  any-append_last : (r : A) (xs : List A) → any p (xs ++ r ∷ []) ≡ (any p xs || p r)
  any-append_last r [] = ground arith
  any-append_last r (x ∷ xs) = ground (arith, any-append_last r xs)

-- No row has the identifier or the address.
pub record Fresh (id : ℕ) (email : String) (db : Db) : Type 0 where
  pub user : any (λ o. o.id == id || str_eq o.email email) db.users ≡ false
  pub credential : any (λ (o : Credential). o.user_id == id) db.credentials ≡ false
  pub security : any (λ (o : Security). o.user_id == id) db.security ≡ false

abbrev pub row_of : User → UserRecord
row_of u = record {
  id = u.id;
  email = u.email;
  name = u.name;
  is_active = u.is_active;
  email_verified_at = none;
  created_at = u.created_at;
  updated_at = u.updated_at;
  deleted_at = none;
  password = u.password;
}

abbrev created : User → Db → Db
created u db = record db {
  users = db.users ++ row_of u ∷ [];
  credentials = db.credentials ++ credential_of u ∷ [];
  security = db.security ++ security_of u ∷ [];
}

module _ (env : Env) (u : User) (w : World Db Event) where
  pub create-eq :
      Fresh u.id u.email w.db
      → u.email_verified ≡ false
      → u.email_verify_token ≡ none
      → u.password_reset_token ≡ none
      → create (reliable env) u w
        ≡ (ok tt, record w { db = created u w.db; tick = suc (suc (suc (suc (suc (suc w.tick))))) })
  unfolding create transaction insert_user insert_credential insert_security
  create-eq f unverified noverify noreset =
      rw (unverified, f.user, f.credential, f.security, noverify, noreset) refl

-- The row of a new user, once its verification token is stored.
abbrev pub opened : (now : ℕ) → User → UserToken → Db → Db
opened now u t db = record db {
  users = db.users ++ rewritten now u (row_of u) ∷ [];
  credentials = db.credentials ++ credential_of u ∷ [];
  security = db.security ++ security_of u ∷ [];
  user_tokens = db.user_tokens ++ t ∷ [];
}

unmatched :
    (id : ℕ) (email : String) (xs : List UserRecord)
    → any (λ o. o.id == id || str_eq o.email email) xs ≡ false
    → (any (matches id) xs ≡ false) × (any (clashes id email) xs ≡ false)
unmatched id email [] h = (refl, refl)
unmatched id email (x ∷ xs) h =
    (ground (arith, unmatched id email xs), ground (arith, unmatched id email xs))

module _ (u : User) (db : Db) (f : Fresh u.id u.email db) where
  update_user-created :
      (now : ℕ)
      → u.email_verified ≡ false
      → update_user now u.id u.email u.name u.is_active u.email_verified (created u db)
        ≡ some (record (created u db) { users = db.users ++ rewritten now u (row_of u) ∷ [] })
  unfolding update_user
  update_user-created now unverified =
      let (none_there, none_clash) = unmatched u.id u.email db.users f.user in
      let clash = any-append_last (clashes u.id u.email) (row_of u) db.users in
      let put =
        update_where-append_last (matches u.id) (rewritten now u) (row_of u) db.users none_there in
      ground (arith, none_clash, clash, put)

  upsert_credential-created :
      (us : List UserRecord)
      → upsert_credential (credential_of u) (record (created u db) { users = us })
        ≡ some (record (created u db) { users = us })
  unfolding upsert_credential
  upsert_credential-created us =
      let own = λ (c : Credential). c.user_id == u.id in
      let there = any-append_last own (credential_of u) db.credentials in
      let put =
        update_where-append_last own (λ _. credential_of u) (credential_of u) db.credentials
          f.credential in
      ground (arith, there, put)

  upsert_security-created :
      (us : List UserRecord)
      → upsert_security (security_of u) (record (created u db) { users = us })
        ≡ some (record (created u db) { users = us })
  unfolding upsert_security
  upsert_security-created us =
      let own = λ (c : Security). c.user_id == u.id in
      let there = any-append_last own (security_of u) db.security in
      let put =
        update_where-append_last own (λ _. security_of u) (security_of u) db.security f.security in
      ground (arith, there, put)

abbrev pub token_of : (id : ℕ) (hash : String) → Option ℕ → UserToken
token_of id hash expires = record {
  user_id = id;
  token_type = email_verification;
  token_hash = hash;
  expires_at = expires;
  consumed_at = none;
}

module _ (env : Env) (u : User) (w : World Db Event) (hash : String) where
  pub open-eq :
      Fresh u.id u.email w.db
      → u.email_verified ≡ false
      → u.email_verify_token ≡ some hash
      → u.password_reset_token ≡ none
      → update (reliable env) u (record w { db = created u w.db }) ≡ (
        ok tt,
        record w {
          db = opened (env.now (suc w.tick)) u (token_of u.id hash u.email_verify_expires) w.db;
          tick = suc (suc (suc (suc (suc (suc (suc w.tick))))));
        },
      )
  unfolding update transaction insert_user_token
  open-eq f unverified token noreset =
      let us = w.db.users ++ rewritten (env.now (suc w.tick)) u (row_of u) ∷ [] in
      let there : any (matches u.id) (w.db.users ++ row_of u ∷ []) ≡ true =
        ground (arith, any-append_last (matches u.id) (row_of u) w.db.users) in
      rw
        (
          update_user-created u w.db f (env.now (suc w.tick)) unverified,
          there,
          upsert_credential-created u w.db f us,
          upsert_security-created u w.db f us,
          token,
          noreset,
        )
        refl

-- A new token is found by its hash.
pub by_token-append_last :
    (kind : TokenType) (hash : String) (now : ℕ) (db : Db) (t : UserToken) (ts : List UserToken)
    → any (λ o. str_eq o.token_hash hash) ts ≡ false
    → by_token kind hash now db (ts ++ t ∷ []) ≡ by_token kind hash now db (t ∷ [])
unfolding by_token
by_token-append_last kind hash now db t [] h = refl
by_token-append_last kind hash now db t (x ∷ ts) h =
    ground (arith, by_token-append_last kind hash now db t ts)

pub owner-opened :
    (id : ℕ) (email : String) (xs : List UserRecord) (r : UserRecord)
    → any (λ o. o.id == id || str_eq o.email email) xs ≡ false
    → (r.id == id && live r) ≡ true
    → find (λ o. o.id == id && live o) (xs ++ r ∷ []) ≡ some r
owner-opened id email xs r h own =
    find-append_last (λ o. o.id == id && live o) r xs own (unmatched id email xs h).0
