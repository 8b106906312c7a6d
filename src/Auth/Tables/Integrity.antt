-- ===== src/Auth/Tables/Integrity.antt =====
-- The keys of the tables: identifiers and addresses of users are unique, deleted users included,
-- and a user has one row of credentials and one of security data. Every statement keeps them.
use go_codebase.Prelude.{
  ℕ, String, ◌≡◌, refl, Bool, true, false, ◌||◌, some, List, [], ◌∷◌, ◌++◌, arith, eq_iff, ◌==◌,
  find, find_sound, any, update_where, ◌≢◌,
}
use go_codebase.Auth.Tables.{UserRecord, Db, matches}
use go_codebase.Auth.Tables.Saved.{Apart, same_id, same_email, by_email, clashes, any_of_find}

pub record Integrity (db : Db) : Type 0 where
  pub ids : Apart same_id db.users
  pub emails : Apart same_email db.users
  pub credentials : Apart (λ a b. a.user_id == b.user_id) db.credentials
  pub security : Apart (λ a b. a.user_id == b.user_id) db.security

module _ {ℓ} {A : Type ℓ} (same : A → A → Bool) where
  any-append : (p : A → Bool) (xs : List A) (r : A) → any p (xs ++ r ∷ []) ≡ (any p xs || p r)
  any-append p [] r = ground arith
  any-append p (x ∷ xs) r = ground (arith, any-append p xs r)

  pub Apart-append :
      (xs : List A) (r : A)
      → Apart same xs
      → any (λ o. same o r) xs ≡ false
      → Apart same (xs ++ r ∷ [])
  Apart-append [] r h fresh = (refl, tt)
  Apart-append (x ∷ xs) r h fresh =
      (ground (arith, any-append (same x) xs r), Apart-append xs r h.1 (ground arith))

  -- Rows may be rewritten where the key stays.
  module _ (p : A → Bool) (f : A → A) (stays : (x y : A) → p y ≡ true → same x (f y) ≡ same x y)
      (stays' : (x y : A) → p x ≡ true → same (f x) y ≡ same x y) where
    any-rewritten : (x : A) (xs : List A) → any (same x) (update_where p f xs) ≡ any (same x) xs
    any-rewritten x [] = refl
    any-rewritten x (y ∷ ys) = ground (arith, any-rewritten x ys, stays x y)

    any-rewritten_left : (x : A) (ys : List A) → p x ≡ true → any (same (f x)) ys ≡ any (same x) ys
    any-rewritten_left x [] h = refl
    any-rewritten_left x (y ∷ ys) h = ground (arith, any-rewritten_left x ys h, stays' x y h)

    pub Apart-rewritten : (xs : List A) → Apart same xs → Apart same (update_where p f xs)
    Apart-rewritten [] h = tt
    Apart-rewritten (x ∷ xs) h = (
      ground (arith, any-rewritten x xs, any-rewritten (f x) xs, any-rewritten_left x xs),
      Apart-rewritten xs h.1,
    )

alone :
    (e : String) (x : UserRecord) (ys : List UserRecord)
    → any (same_email x) ys ≡ false
    → x.email ≡ e
    → any (clashes x.id e) ys ≡ false
alone e x [] h q = refl
alone e x (y ∷ ys) h q = ground (arith, alone e x ys, eq_iff x.email y.email, eq_iff y.email e)

-- The row of an address is the only one with it.
pub no_clash :
    (e : String) (xs : List UserRecord) (r : UserRecord)
    → find (by_email e) xs ≡ some r
    → Apart same_email xs
    → any (clashes r.id e) xs ≡ false
no_clash e [] r h apart = cc
no_clash e (x ∷ xs) r h apart = ground (
  arith,
  no_clash e xs r,
  alone e x xs,
  find_sound (by_email e) xs r,
  any_of_find (by_email e) (same_email x) xs r,
  eq_iff x.email e,
  eq_iff x.email r.email,
  eq_iff r.email e,
)

-- What an update does to the addresses: the row of `id` gets one that no other row has.
module _ (now id : ℕ) (email : String) (f : UserRecord → UserRecord)
    (gets : (r : UserRecord) → (f r).email ≡ email) where
  away :
      (x : UserRecord) (ys : List UserRecord)
      → any (same_email x) ys ≡ false
      → x.email ≢ email
      → any (same_email x) (update_where (matches id) f ys) ≡ false
  away x [] h ne = refl
  away x (y ∷ ys) h ne =
      ground (arith, away x ys, gets y, eq_iff x.email (f y).email, eq_iff x.email y.email)

  none_matches :
      (x : UserRecord) (ys : List UserRecord)
      → any (same_id x) ys ≡ false
      → x.id ≡ id
      → any (same_email x) ys ≡ false
      → any (same_email x) (update_where (matches id) f ys) ≡ false
  none_matches x [] h same e = refl
  none_matches x (y ∷ ys) h same e = ground (arith, none_matches x ys)

  moved :
      (x : UserRecord) (ys : List UserRecord)
      → any (same_id x) ys ≡ false
      → x.id ≡ id
      → any (clashes id email) ys ≡ false
      → any (same_email (f x)) (update_where (matches id) f ys) ≡ false
  moved x [] h same c = refl
  moved x (y ∷ ys) h same c =
      ground (arith, moved x ys, gets x, eq_iff (f x).email y.email, eq_iff y.email email)

  pub emails-updated :
      (xs : List UserRecord)
      → Apart same_id xs
      → Apart same_email xs
      → any (clashes id email) xs ≡ false
      → Apart same_email (update_where (matches id) f xs)
  emails-updated [] i h c = tt
  emails-updated (x ∷ xs) i h c = (
    ground (arith, away x xs, none_matches x xs, moved x xs, eq_iff x.email email),
    emails-updated xs i.1 h.1 (ground arith),
  )
