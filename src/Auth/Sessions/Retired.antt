-- ===== src/Auth/Sessions/Retired.antt =====
-- The refresh tokens that can never be used again: every row of the token is revoked or deleted.
-- No statement of the program brings such a token back.
use mathlib.Core.List.{List, [], ◌∷◌, ◌++◌}
use go_codebase.Prelude.{
  String, ◌≡◌, refl, Bool, true, false, not, ◌&&◌, ◌||◌, arith, eq_iff, ltb, ◌==◌, is_some, any,
  update_where, All, str_eq,
}
use go_codebase.Core.Runtime.Preserves.{Safe}
use go_codebase.Auth.Entity.{RefreshToken}
use go_codebase.Auth.Tables.{
  Db, insert_user, insert_credential, insert_security, insert_user_token, upsert_credential,
  upsert_security, update_user,
}
use go_codebase.Auth.RefreshTokenRepository.{
  inserted, revoked_at_now, revocable, stands, deleted_at_now, insert_refresh_token, revoke_where,
  delete_expired_rows,
}
use go_codebase.Auth.Stable.{Stable}

abbrev pub has_token : String → RefreshToken → Bool
has_token t r = str_eq r.token t

-- A row that is of another token, or revoked, or deleted.
abbrev pub dead : String → RefreshToken → Bool
dead t r = not (has_token t r) || (is_some r.revoked_at || is_some r.deleted_at)

-- The token was issued, and no row of it can be used any more.
pub record RetiredIn (t : String) (rows : List RefreshToken) : Type 0 where
  pub issued : any (has_token t) rows ≡ true
  pub spent : All (λ r. dead t r ≡ true) rows

pub record Retired (t : String) (db : Db) : Type 0 where
  pub rows : RetiredIn t db.refresh_tokens

module _ (t : String) where
  any-append :
      (xs : List RefreshToken) (r : RefreshToken)
      → any (has_token t) xs ≡ true
      → any (has_token t) (xs ++ r ∷ []) ≡ true
  any-append [] r h = cc
  any-append (x ∷ xs) r h = ground (arith, any-append xs r)

  All-append :
      (xs : List RefreshToken) (r : RefreshToken)
      → All (λ r. dead t r ≡ true) xs
      → dead t r ≡ true
      → All (λ r. dead t r ≡ true) (xs ++ r ∷ [])
  All-append [] r h d = (d, tt)
  All-append (x ∷ xs) r h d = (h.0, All-append xs r h.1 d)

  fresh_token :
      (xs : List RefreshToken) (r : RefreshToken)
      → any (λ o. o.id == r.id || str_eq o.token r.token) xs ≡ false
      → any (has_token t) xs ≡ true
      → has_token t r ≡ false
  fresh_token [] r h i = cc
  fresh_token (x ∷ xs) r h i =
      ground (arith, fresh_token xs r, eq_iff x.token r.token, eq_iff x.token t, eq_iff r.token t)

  -- An update that keeps tokens and dead rows keeps the fact.
  update-RetiredIn :
      (p : RefreshToken → Bool) (f : RefreshToken → RefreshToken) (xs : List RefreshToken)
      → ((r : RefreshToken) → has_token t (f r) ≡ has_token t r)
      → ((r : RefreshToken) → dead t r ≡ true → dead t (f r) ≡ true)
      → RetiredIn t xs
      → RetiredIn t (update_where p f xs)
  update-RetiredIn p f xs same keep h = record {
    issued = issued xs h.issued;
    spent = spent xs h.spent;
  }
    where
      issued :
          (xs : List RefreshToken)
          → any (has_token t) xs ≡ true
          → any (has_token t) (update_where p f xs) ≡ true
      issued [] h = h
      issued (x ∷ xs) h = ground (arith, issued xs, same x)

      spent :
          (xs : List RefreshToken)
          → All (λ r. dead t r ≡ true) xs
          → All (λ r. dead t r ≡ true) (update_where p f xs)
      spent [] h = tt
      spent (x ∷ xs) h = (ground (arith, keep x h.0), spent xs h.1)

  append-RetiredIn :
      (xs : List RefreshToken) (r : RefreshToken)
      → has_token t r ≡ false
      → RetiredIn t xs
      → RetiredIn t (xs ++ r ∷ [])
  append-RetiredIn xs r other h = record {
    issued = any-append xs r h.issued;
    spent = All-append xs r h.spent (ground arith);
  }

  insert-Safe : (r : RefreshToken) → Safe (Retired t) (insert_refresh_token r)
  unfolding insert_refresh_token
  insert-Safe r = record {
    at = λ d e h p.
        let rows : List RefreshToken = d.refresh_tokens in
        let added : e.refresh_tokens ≡ rows ++ inserted r ∷ [] = ground arith in
        let unique : any (λ o. o.id == r.id || str_eq o.token r.token) rows ≡ false =
          ground arith in
        record {
          rows =
              rw added (
                append-RetiredIn rows (inserted r) (fresh_token rows r unique p.rows.issued)
                  p.rows);
        };
  }

  untouched : {d e : Db} → e.refresh_tokens ≡ d.refresh_tokens → Retired t d → Retired t e
  untouched same h = record { rows = rw same h.rows }

  pub Retired-Stable : Stable (Retired t)
  unfolding insert_user insert_credential insert_security insert_user_token upsert_credential
      upsert_security update_user revoke_where delete_expired_rows
  Retired-Stable = record {
    inserts_user = λ r. record { at = λ d e h p. untouched (ground arith) p };
    inserts_credential = λ r. record { at = λ d e h p. untouched (ground arith) p };
    inserts_security = λ r. record { at = λ d e h p. untouched (ground arith) p };
    inserts_user_token = λ r. record { at = λ d e h p. untouched (ground arith) p };
    upserts_credential = λ r. record { at = λ d e h p. untouched (ground arith) p };
    upserts_security = λ r. record { at = λ d e h p. untouched (ground arith) p };
    updates_user =
        λ now id email name active verified. record { at = λ d e h p. untouched (ground arith) p };
    inserts_refresh_token = insert-Safe;
    revokes = λ q now. record {
      at = λ d e h p. record {
        rows =
            let same : e.refresh_tokens
                ≡ update_where (λ r. q r && revocable r) (revoked_at_now now) d.refresh_tokens =
              ground arith in
            rw same (
              update-RetiredIn (λ r. q r && revocable r) (revoked_at_now now) d.refresh_tokens
                (λ r. refl) (λ r _. ground arith) p.rows);
      };
    };
    deletes_expired = λ now. record {
      at = λ d e h p. record {
        rows =
            let same : e.refresh_tokens
                ≡ update_where (λ r. ltb r.expires_at now && stands r) (deleted_at_now now)
                    d.refresh_tokens =
              ground arith in
            rw same (
              update-RetiredIn (λ r. ltb r.expires_at now && stands r) (deleted_at_now now)
                d.refresh_tokens (λ r. refl) (λ r _. ground arith) p.rows);
      };
    };
  }
