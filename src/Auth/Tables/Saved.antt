-- ===== src/Auth/Tables/Saved.antt =====
-- The tables after `Update` has stored a user, and what a lookup by address then finds.
use go_codebase.Prelude.{
  ℕ, String, ◌≡◌, Bool, true, false, not, ◌&&◌, none, some, List, [], ◌∷◌, ◌++◌, arith, eq_iff,
  ◌==◌, if◌then◌else◌, find, any, update_where, str_eq, Bool-cases, inl, inr,
}
use go_codebase.Auth.Entity.{User}
use go_codebase.Auth.Tables.{UserRecord, Credential, Security, Db, live, matches, coalesced}

-- No two rows are the same for the test.
abbrev pub Apart {ℓ} : {A : Type ℓ} → (A → A → Bool) → List A → Type 0
Apart same [] = Unit
Apart same (x ∷ xs) = (any (same x) xs ≡ false) × Apart same xs

abbrev pub same_id : UserRecord → UserRecord → Bool
same_id r o = r.id == o.id

abbrev pub same_email : UserRecord → UserRecord → Bool
same_email r o = str_eq r.email o.email

abbrev pub by_email : String → UserRecord → Bool
by_email e r = str_eq r.email e && live r

abbrev pub clashes : ℕ → String → UserRecord → Bool
clashes id email o = not (o.id == id) && str_eq o.email email

abbrev pub rewritten : (now : ℕ) → User → UserRecord → UserRecord
rewritten now u r = record r {
  email = u.email;
  name = u.name;
  is_active = u.is_active;
  email_verified_at = coalesced u.email_verified now r.email_verified_at;
  updated_at = now;
}

abbrev pub credential_of : User → Credential
credential_of u = record { user_id = u.id; password_hash = u.password; last_login_at = none }

abbrev pub security_of : User → Security
security_of u = record {
  user_id = u.id;
  login_attempts = u.failed_login_attempts;
  locked_until = u.locked_until;
}

abbrev pub put {ℓ} : {A : Type ℓ} → (A → Bool) → A → List A → List A
put p r xs = if any p xs then update_where p (λ _. r) xs else xs ++ r ∷ []

abbrev pub saved : (now : ℕ) → User → Db → Db
saved now u db = record db {
  users = update_where (matches u.id) (rewritten now u) db.users;
  credentials = put (λ c. c.user_id == u.id) (credential_of u) db.credentials;
  security = put (λ c. c.user_id == u.id) (security_of u) db.security;
}

module _ {ℓ} {A : Type ℓ} where
  pub any_of_find :
      (p q : A → Bool) (xs : List A) (r : A) → find p xs ≡ some r → q r ≡ true → any q xs ≡ true
  any_of_find p q [] r h t = cc
  any_of_find p q (x ∷ xs) r h t = ground (arith, any_of_find p q xs r)

  pub find-update_all :
      (p : A → Bool) (r : A) (xs : List A)
      → p r ≡ true
      → any p xs ≡ true
      → find p (update_where p (λ _. r) xs) ≡ some r
  find-update_all p r [] t h = cc
  find-update_all p r (x ∷ xs) t h = ground (arith, find-update_all p r xs)

  pub find-append_last :
      (p : A → Bool) (r : A) (xs : List A)
      → p r ≡ true
      → any p xs ≡ false
      → find p (xs ++ r ∷ []) ≡ some r
  find-append_last p r [] t h = ground arith
  find-append_last p r (x ∷ xs) t h = ground (arith, find-append_last p r xs)

  -- An upsert is found by its key.
  pub find-put : (p : A → Bool) (r : A) (xs : List A) → p r ≡ true → find p (put p r xs) ≡ some r
  find-put p r xs t = elim (Bool-cases (any p xs)) [
    | inl old ↦ rw old (find-update_all p r xs t old)
    | inr new ↦ rw new (find-append_last p r xs t new)
  ]

-- The row that an address finds is the one that the update rewrites.
pub find-saved :
    (now : ℕ) (u : User) (xs : List UserRecord) (r : UserRecord)
    → find (by_email u.email) xs ≡ some r
    → r.id ≡ u.id
    → Apart same_id xs
    → find (by_email u.email) (update_where (matches u.id) (rewritten now u) xs)
      ≡ some (rewritten now u r)
find-saved now u [] r h same apart = cc
find-saved now u (x ∷ xs) r h same apart = ground (
  arith,
  find-saved now u xs r,
  any_of_find (by_email u.email) (same_id x) xs r,
  eq_iff x.email u.email,
  eq_iff u.email u.email,
)
