-- ===== src/Auth/Stable/Integrity.antt =====
-- No request breaks the keys of the tables.
use go_codebase.Prelude.{
  ℕ, String, ◌≡◌, refl, Bool, false, ◌||◌, List, [], ◌∷◌, ◌++◌, arith, ◌==◌, any, update_where,
  str_eq, Bool-cases, inl, inr, ◌∙◌,
}
use go_codebase.Core.Runtime.Preserves.{Safe}
use go_codebase.Auth.Tables.{
  UserRecord, Credential, Security, Db, matches, coalesced, insert_user, insert_credential,
  insert_security, insert_user_token, upsert_credential, upsert_security, update_user,
}
use go_codebase.Auth.Tables.Saved.{Apart, same_id, same_email, put}
use go_codebase.Auth.Tables.Integrity.{Integrity, Apart-append, Apart-rewritten, emails-updated}
use go_codebase.Auth.RefreshTokenRepository.{
  insert_refresh_token, revoke_where, delete_expired_rows,
}
use go_codebase.Auth.Stable.{Stable}

-- Neither the identifier nor the address of a new user is that of another.
free_id :
    (r : UserRecord) (xs : List UserRecord)
    → any (λ o. o.id == r.id || str_eq o.email r.email) xs ≡ false
    → any (λ o. same_id o r) xs ≡ false
free_id r [] h = refl
free_id r (x ∷ xs) h = ground (arith, free_id r xs)

free_email :
    (r : UserRecord) (xs : List UserRecord)
    → any (λ o. o.id == r.id || str_eq o.email r.email) xs ≡ false
    → any (λ o. same_email o r) xs ≡ false
free_email r [] h = refl
free_email r (x ∷ xs) h = ground (arith, free_email r xs)

insert_user-Safe : (r : UserRecord) → Safe Integrity (insert_user r)
unfolding insert_user
insert_user-Safe r = record {
  at = λ d e h p.
      let fresh : any (λ o. o.id == r.id || str_eq o.email r.email) d.users ≡ false =
        ground arith in
      let rows : e.users ≡ d.users ++ r ∷ [] = ground arith in
      let same_credentials : e.credentials ≡ d.credentials = ground arith in
      let same_security : e.security ≡ d.security = ground arith in
      record {
        ids = rw rows (Apart-append same_id d.users r p.ids (free_id r d.users fresh));
        emails = rw rows (Apart-append same_email d.users r p.emails (free_email r d.users fresh));
        credentials = rw same_credentials p.credentials;
        security = rw same_security p.security;
      };
}

-- An upsert keeps the key.
module _ {A : Type 0} (key : A → ℕ) where
  Apart-put :
      (r : A) (xs : List A)
      → Apart (λ a b. key a == key b) xs
      → Apart (λ a b. key a == key b) (put (λ c. key c == key r) r xs)
  Apart-put r xs h = elim (Bool-cases (any (λ c. key c == key r) xs)) [
    | inl old ↦ rw old (
        Apart-rewritten (λ a b. key a == key b) (λ c. key c == key r) (λ _. r)
          (λ x y p. ground arith) (λ x y p. ground arith) xs h)
    | inr new ↦ rw new (Apart-append (λ a b. key a == key b) xs r h new)
  ]

record Unchanged (d e : Db) : Type 0 where
  users : e.users ≡ d.users
  credentials : e.credentials ≡ d.credentials
  security : e.security ≡ d.security

Unchanged-Integrity : {d e : Db} → Unchanged d e → Integrity d → Integrity e
Unchanged-Integrity same p = record {
  ids = rw same.users p.ids;
  emails = rw same.users p.emails;
  credentials = rw same.credentials p.credentials;
  security = rw same.security p.security;
}

insert_credential-Safe : (r : Credential) → Safe Integrity (insert_credential r)
unfolding insert_credential
insert_credential-Safe r = record {
  at = λ d e h p.
      let rows : e.credentials ≡ d.credentials ++ r ∷ [] = ground arith in
      let users : e.users ≡ d.users = ground arith in
      let security : e.security ≡ d.security = ground arith in
      record {
        ids = rw users p.ids;
        emails = rw users p.emails;
        credentials = rw rows (Apart-append _ d.credentials r p.credentials (ground arith));
        security = rw security p.security;
      };
}

insert_security-Safe : (r : Security) → Safe Integrity (insert_security r)
unfolding insert_security
insert_security-Safe r = record {
  at = λ d e h p.
      let rows : e.security ≡ d.security ++ r ∷ [] = ground arith in
      let users : e.users ≡ d.users = ground arith in
      let credentials : e.credentials ≡ d.credentials = ground arith in
      record {
        ids = rw users p.ids;
        emails = rw users p.emails;
        credentials = rw credentials p.credentials;
        security = rw rows (Apart-append _ d.security r p.security (ground arith));
      };
}

upsert_credential-Safe : (r : Credential) → Safe Integrity (upsert_credential r)
unfolding upsert_credential
upsert_credential-Safe r = record {
  at = λ d e h p.
      let rows : e.credentials ≡ put (λ c. c.user_id == r.user_id) r d.credentials = ground arith in
      let users : e.users ≡ d.users = ground arith in
      let security : e.security ≡ d.security = ground arith in
      record {
        ids = rw users p.ids;
        emails = rw users p.emails;
        credentials =
            rw rows (Apart-put (λ (c : Credential). c.user_id) r d.credentials p.credentials);
        security = rw security p.security;
      };
}

upsert_security-Safe : (r : Security) → Safe Integrity (upsert_security r)
unfolding upsert_security
upsert_security-Safe r = record {
  at = λ d e h p.
      let rows : e.security ≡ put (λ c. c.user_id == r.user_id) r d.security = ground arith in
      let users : e.users ≡ d.users = ground arith in
      let credentials : e.credentials ≡ d.credentials = ground arith in
      record {
        ids = rw users p.ids;
        emails = rw users p.emails;
        credentials = rw credentials p.credentials;
        security = rw rows (Apart-put (λ (c : Security). c.user_id) r d.security p.security);
      };
}

update_none {ℓ} :
    {A : Type ℓ} (p : A → Bool) (f : A → A) (xs : List A)
    → any p xs ≡ false
    → update_where p f xs ≡ xs
update_none p f [] h = refl
update_none p f (x ∷ xs) h = ground (arith, update_none p f xs)

update_user-Safe :
    (now id : ℕ) (email name : String) (is_active verified : Bool)
    → Safe Integrity (update_user now id email name is_active verified)
unfolding update_user
update_user-Safe now id email name is_active verified = record {
  at = λ d e h p.
      let f : UserRecord → UserRecord = λ r. record r {
        email = email;
        name = name;
        is_active = is_active;
        email_verified_at = coalesced verified now r.email_verified_at;
        updated_at = now;
      } in
      let rows : e.users ≡ update_where (matches id) f d.users = ground arith in
      let credentials : e.credentials ≡ d.credentials = ground arith in
      let security : e.security ≡ d.security = ground arith in
      elim (Bool-cases (any (matches id) d.users)) [
        | inl hit ↦ record {
          ids = rw rows (
              Apart-rewritten same_id (matches id) f (λ x y _. refl) (λ x y _. refl) d.users p.ids);
          emails =
              rw rows
                (emails-updated now id email f (λ r. refl) d.users p.ids p.emails (ground arith));
          credentials = rw credentials p.credentials;
          security = rw security p.security;
        }
        | inr miss ↦
            let same : e.users ≡ d.users = rows ∙ update_none (matches id) f d.users miss in
            Unchanged-Integrity
              (record { users = same; credentials = credentials; security = security }) p
      ];
}

pub Integrity-Stable : Stable Integrity
unfolding insert_user_token insert_refresh_token revoke_where delete_expired_rows
Integrity-Stable = record {
  inserts_user = insert_user-Safe;
  inserts_credential = insert_credential-Safe;
  inserts_security = insert_security-Safe;
  inserts_user_token = λ r. record { at = λ d e h p. Unchanged-Integrity (ground arith) p };
  upserts_credential = upsert_credential-Safe;
  upserts_security = upsert_security-Safe;
  updates_user = update_user-Safe;
  inserts_refresh_token = λ r. record { at = λ d e h p. Unchanged-Integrity (ground arith) p };
  revokes = λ q now. record { at = λ d e h p. Unchanged-Integrity (ground arith) p };
  deletes_expired = λ now. record { at = λ d e h p. Unchanged-Integrity (ground arith) p };
}
