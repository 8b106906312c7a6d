-- ===== src/Auth/Sessions/Redeemed.antt =====
-- What a one-time token leads to, where the database answers: the user that it belongs to, as the
-- tables hold it, and a login of that user.
pub mod Renewed
pub mod Confirmed
pub mod Opened
pub mod Registered
use go_codebase.Prelude.{
  ℕ, suc, ◌+◌, String, ◌≡◌, refl, true, false, not, ◌&&◌, Option, none, some, List, [], ◌∷◌, arith,
  any, find, find_sound, ◌==◌, str_eq, eq_iff, if◌then◌else◌, Bool-cases, Option-cases, inl, inr,
  ap, sym, ◌∙◌, is_some,
}
use go_codebase.Core.Entity.{Entity as EntityBase}
use go_codebase.Core.Proc.{ok, ◌>>◌, ◌>>=◌}
use go_codebase.Core.Runtime.{Env, World, reliable, step, publish}
use go_codebase.Auth.Entity
use go_codebase.Auth.Entity.{User, Event, is_locked, unlock}
use go_codebase.Auth.Tables.{
  UserRecord, UserToken, TokenType, password_reset, email_verification, Db, live, matches,
}
use go_codebase.Auth.Tables.Saved.{Apart, same_email, by_email, any_of_find, clashes}
use go_codebase.Auth.Tables.Integrity.{Integrity}
use go_codebase.Auth.Crypto.{Crypto}
use go_codebase.Auth.UserRepository.{
  UserRow, owner_of, usable, with_token, by_token, joined, map_row_to_entity, get_by_reset_token,
  get_by_verify_token, update,
}
use go_codebase.Auth.UserRepository.RoundTrip.{
  looked_up, reloaded, Stands-of_looked_up, get_by_email-eq, update-eq,
}
use go_codebase.Auth.RefreshTokenRepository.{revoke_where, revoke_all_by_user_id}
use go_codebase.Auth.Commands.{
  ResetPasswordCommand, has_passed, hash_token, reset_password, verify_email,
}
use go_codebase.Auth.Sessions.{LoginHandler, LoginQuery, login}
use go_codebase.Auth.Sessions.Lockout.{stored_change}

-- The row that is found by any test is found by its address too.
find-address :
    (p : UserRecord → _) (xs : List UserRecord) (r : UserRecord)
    → find p xs ≡ some r
    → live r ≡ true
    → Apart same_email xs
    → find (by_email r.email) xs ≡ some r
find-address p [] r h alive apart = cc
find-address p (x ∷ xs) r h alive apart = ground (
  arith,
  find-address p xs r,
  any_of_find p (same_email x) xs r,
  eq_iff x.email r.email,
  eq_iff r.email r.email,
)

-- The row of a token, with the user that it belongs to.
pub record Owned (kind : TokenType) (db : Db) (row : UserRow) : Type 0 where
  pub token : UserToken
  pub owner : UserRecord
  pub found : owner_of db.users token ≡ some owner
  pub same : row ≡ with_token kind (joined db owner) token

pub by_token-Owned :
    (kind : TokenType) (hash : String) (now : ℕ) (db : Db) (ts : List UserToken) (row : UserRow)
    → by_token kind hash now db ts ≡ some row
    → Owned kind db row
unfolding by_token
by_token-Owned kind hash now db [] row h = cc
by_token-Owned kind hash now db (t ∷ ts) row h = elim (Bool-cases (usable kind hash now t)) [
  | inl fits ↦ elim (Option-cases (owner_of db.users t)) [
    | inl nobody ↦ by_token-Owned kind hash now db ts row (ground arith)
    | inr (r, there) ↦ record { token = t; owner = r; found = there; same = ground arith }
  ]
  | inr other ↦ by_token-Owned kind hash now db ts row (ground arith)
]

-- The user that the address of a token's user finds.
abbrev pub stored_of : User → User
stored_of u = record u {
  email_verify_token = none;
  email_verify_expires = none;
  password_reset_token = none;
  password_reset_expires = none;
}

stored_of-with_token :
    (kind : TokenType) (db : Db) (r : UserRecord) (t : UserToken)
    → (stored_of (map_row_to_entity (with_token kind (joined db r) t))
        ≡ map_row_to_entity (joined db r))
      × ((map_row_to_entity (with_token kind (joined db r) t)).email ≡ r.email)
unfolding joined map_row_to_entity
stored_of-with_token email_verification db r t = (refl, refl)
stored_of-with_token password_reset db r t = (refl, refl)

looked_up-row :
    (db : Db) (r : UserRecord)
    → find (by_email r.email) db.users ≡ some r
    → looked_up r.email db ≡ some (map_row_to_entity (joined db r))
unfolding looked_up
looked_up-row db r there = ground arith

pub by_token-looked_up :
    (kind : TokenType) (hash : String) (now : ℕ) (db : Db) (row : UserRow)
    → Integrity db
    → by_token kind hash now db db.user_tokens ≡ some row
    → looked_up (map_row_to_entity row).email db ≡ some (stored_of (map_row_to_entity row))
unfolding owner_of
by_token-looked_up kind hash now db row keys h =
    let o = by_token-Owned kind hash now db db.user_tokens row h in
    let owns : UserRecord → _ = λ r. r.id == o.token.user_id && live r in
    let alive : live o.owner ≡ true = ground (arith, find_sound owns db.users o.owner o.found) in
    let there : find (by_email o.owner.email) db.users ≡ some o.owner =
      find-address owns db.users o.owner o.found alive keys.emails in
    let (cleared, address) = stored_of-with_token kind db o.owner o.token in
    rw (o.same, cleared, address) (looked_up-row db o.owner there)

-- A row that was found by a token of one kind has no token of the other.
abbrev pub NoOther : TokenType → UserRow → Type 0
NoOther email_verification row =
    (row.password_reset_token ≡ none) × (row.password_reset_expires ≡ none)
NoOther password_reset row = (row.email_verify_token ≡ none) × (row.email_verify_expires ≡ none)

pub other_tokens :
    (kind : TokenType) (db : Db) (row : UserRow) → Owned kind db row → NoOther kind row
unfolding joined
other_tokens email_verification db row o = rw o.same (refl, refl)
other_tokens password_reset db row o = rw o.same (refl, refl)

-- A user that the tables hold is stored without an error, and found by its address from then on.
module _ (env : Env) (w : World Db Event) (old u : User) where
  pub update-stored :
      Integrity w.db
      → looked_up u.email w.db ≡ some old
      → u.entity ≡ old.entity
      → u.email ≡ old.email
      → u.email_verify_token ≡ none
      → u.password_reset_token ≡ none
      → ((update (reliable env) u w).0 ≡ ok tt)
        × (looked_up u.email (update (reliable env) u w).1.db
            ≡ some (reloaded (env.now (suc w.tick)) old u))
  update-stored keys found same email vt rt =
      let s = Stands-of_looked_up u.email w.db old keys found in
      let id : u.id ≡ old.id = ap (λ (x : EntityBase). x.id) same in
      let present : any (matches u.id) w.db.users ≡ true = rw id s.present in
      let alone : any (clashes u.id u.email) w.db.users ≡ false = rw id s.alone in
      (
        ap (λ r. r.0) (update-eq env u w vt rt present alone),
        stored_change env u.email w old u keys found same email (vt ∙ sym s.verify_token)
            (rt ∙ sym s.reset_token),
      )

-- Who is let in.
module _ (env : Env) (k : Crypto) (h : LoginHandler) (q : LoginQuery) (w : World Db Event)
    (u : User) where
  pub login-ok :
      looked_up q.email w.db ≡ some u
      → u.is_active ≡ true
      → u.email_verified ≡ true
      → is_locked (env.now (suc w.tick)) u ≡ false
      → k.bcrypt_compare u.password q.password ≡ true
      → (login (reliable env) k h q w).0 ≡ ok (unlock u)
  unfolding login
  login-ok found active verified unlocked right =
      ground (arith, get_by_email-eq env q.email w u, found)
