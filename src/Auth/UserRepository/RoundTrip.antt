-- ===== src/Auth/UserRepository/RoundTrip.antt =====
-- `Update` stores a user so that the lookups find it again.
use go_codebase.Prelude.{
  ℕ, suc, String, ◌≡◌, true, false, Option, none, some, arith, eq_iff, ◌==◌, find, find_sound, any,
  refl, update_where, Bool-cases, Option-cases, inl, inr,
}
use go_codebase.Core.Proc.{ok}
use go_codebase.Core.Runtime.{Env, World, reliable, step, transaction}
use go_codebase.Auth.Entity.{User, Event}
use go_codebase.Auth.Tables.{
  Credential, Security, Db, matches, update_user, upsert_credential, upsert_security,
}
use go_codebase.Auth.Tables.Saved.{
  Apart, same_id, by_email, clashes, credential_of, security_of, rewritten, put, saved, find-put,
  find-saved, any_of_find,
}
use go_codebase.Auth.Tables.Integrity.{Integrity, no_clash}
use go_codebase.Auth.UserRepository.{map_row_to_entity, joined, get_by_email, update}

-- The user that a lookup by address gives, where the database answers.
unfoldable pub looked_up : String → Db → Option User
looked_up e db = elim (find (by_email e) db.users) [
  | none ↦ none
  | some r ↦ some (map_row_to_entity (joined db r))
]

module _ (env : Env) where
  pub get_by_email-eq :
      (e : String) (w : World Db Event) (u : User)
      → looked_up e w.db ≡ some u
      → get_by_email (reliable env) e w ≡ (ok u, step w)
  unfolding get_by_email looked_up
  get_by_email-eq e w u h = ground arith

abbrev users_saved : (now : ℕ) → User → Db → Db
users_saved now u db = record db { users = update_where (matches u.id) (rewritten now u) db.users }

update_user-eq :
    (now : ℕ) (u : User) (db : Db)
    → any (matches u.id) db.users ≡ true
    → any (clashes u.id u.email) db.users ≡ false
    → update_user now u.id u.email u.name u.is_active u.email_verified db
      ≡ some (users_saved now u db)
unfolding update_user
update_user-eq now u db present unique = rw (present, unique) refl

upsert_credential-eq :
    (u : User) (db : Db)
    → upsert_credential (credential_of u) db
      ≡ some (record db {
        credentials = put (λ c. c.user_id == u.id) (credential_of u) db.credentials;
      })
unfolding upsert_credential
upsert_credential-eq u db =
    elim (Bool-cases (any (λ (c : Credential). c.user_id == u.id) db.credentials)) [
      | inl h ↦ rw (h) refl
      | inr h ↦ rw (h) refl
    ]

upsert_security-eq :
    (u : User) (db : Db)
    → upsert_security (security_of u) db
      ≡ some (record db { security = put (λ c. c.user_id == u.id) (security_of u) db.security })
unfolding upsert_security
upsert_security-eq u db =
    elim (Bool-cases (any (λ (c : Security). c.user_id == u.id) db.security)) [
      | inl h ↦ rw (h) refl
      | inr h ↦ rw (h) refl
    ]

module _ (env : Env) where
  pub update-eq :
      (u : User) (w : World Db Event)
      → u.email_verify_token ≡ none
      → u.password_reset_token ≡ none
      → any (matches u.id) w.db.users ≡ true
      → any (clashes u.id u.email) w.db.users ≡ false
      → update (reliable env) u w ≡ (
        ok tt,
        record w {
          db = saved (env.now (suc w.tick)) u w.db;
          tick = suc (suc (suc (suc (suc (suc w.tick)))));
        },
      )
  unfolding update transaction
  update-eq u w noverify noreset present unique =
      rw
        (
          update_user-eq (env.now (suc w.tick)) u w.db present unique,
          present,
          upsert_credential-eq u (users_saved (env.now (suc w.tick)) u w.db),
          upsert_security-eq u (record (users_saved (env.now (suc w.tick)) u w.db) {
            credentials = put (λ c. c.user_id == u.id) (credential_of u) w.db.credentials;
          }),
          noverify,
          noreset,
        )
        refl

-- A user as it comes back: with the time of the update, and without the tokens.
abbrev pub reloaded : (now : ℕ) → User → User → User
reloaded now old u = record u {
  entity = record old.entity { updated_at = now };
  email_verify_token = none;
  email_verify_expires = none;
  password_reset_token = none;
  password_reset_expires = none;
}

pub looked_up-saved :
    (now : ℕ) (u old : User) (db : Db)
    → looked_up u.email db ≡ some old
    → old.id ≡ u.id
    → Apart same_id db.users
    → looked_up u.email (saved now u db) ≡ some (reloaded now old u)
unfolding looked_up joined map_row_to_entity
looked_up-saved now u old db h same apart = elim (Option-cases (find (by_email u.email) db.users)) [
  | inl none_there ↦ ground arith
  | inr (r, there) ↦ ground (
    arith,
    find-saved now u db.users r there,
    find-put (λ c. c.user_id == u.id) (credential_of u) db.credentials,
    find-put (λ c. c.user_id == u.id) (security_of u) db.security,
  )
]

-- What a lookup by address tells of the tables.
pub record Stands (e : String) (db : Db) (u : User) : Type 0 where
  pub email : u.email ≡ e
  pub verify_token : u.email_verify_token ≡ none
  pub reset_token : u.password_reset_token ≡ none
  pub present : any (matches u.id) db.users ≡ true
  pub alone : any (clashes u.id e) db.users ≡ false

pub Stands-of_looked_up :
    (e : String) (db : Db) (u : User) → Integrity db → looked_up e db ≡ some u → Stands e db u
unfolding looked_up map_row_to_entity joined
Stands-of_looked_up e db u keys h = elim (Option-cases (find (by_email e) db.users)) [
  | inl missing ↦ ground arith
  | inr (r, there) ↦
      let row : u ≡ map_row_to_entity (joined db r) = ground arith in
      let live_row : by_email e r ≡ true = find_sound (by_email e) db.users r there in
      let email : u.email ≡ e = ground (arith, eq_iff r.email e) in
      let id : u.id ≡ r.id = ground arith in
      record {
        email = email;
        verify_token = ground arith;
        reset_token = ground arith;
        present = rw id (any_of_find (by_email e) (matches r.id) db.users r there (ground arith));
        alone = rw id (no_clash e db.users r there keys.emails);
      }
]
