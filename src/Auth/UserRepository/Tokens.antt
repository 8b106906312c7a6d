-- ===== src/Auth/UserRepository/Tokens.antt =====
-- A one-time token can be redeemed as long as its row is unexpired and not consumed, and its user
-- is not deleted. No statement of the program sets `consumed_at`.
use go_codebase.Prelude.{
  ℕ, suc, String, ◌≡◌, refl, Bool, true, ◌&&◌, List, [], ◌∷◌, ◌++◌, arith, ◌==◌, is_some, find, any,
  update_where, Option-cases, inl, inr,
}
use go_codebase.Core.Proc.{ok}
use go_codebase.Core.Runtime.{Env, World, reliable}
use go_codebase.Core.Runtime.Preserves.{Safe}
use go_codebase.Auth.Entity.{User, Event}
use go_codebase.Auth.Tables.{
  UserRecord, UserToken, TokenType, password_reset, Db, live, matches, coalesced, insert_user,
  insert_user_token, update_user,
}
use go_codebase.Auth.UserRepository.{
  owner_of, usable, by_token, map_row_to_entity, get_by_reset_token,
}

abbrev pub owns : ℕ → UserRecord → Bool
owns id r = r.id == id && live r

abbrev pub redeemable_by : TokenType → String → (now : ℕ) → List UserRecord → List UserToken → Bool
redeemable_by kind hash now users ts =
    any (λ t. usable kind hash now t && any (owns t.user_id) users) ts

pub record Redeemable (kind : TokenType) (hash : String) (now : ℕ) (db : Db) : Type 0 where
  pub holds : redeemable_by kind hash now db.users db.user_tokens ≡ true

module _ {ℓ} {A : Type ℓ} where
  find-any : (p : A → Bool) (xs : List A) → is_some (find p xs) ≡ any p xs
  find-any p [] = refl
  find-any p (x ∷ xs) = ground (arith, find-any p xs)

  any-append_left :
      (p : A → Bool) (xs : List A) (r : A) → any p xs ≡ true → any p (xs ++ r ∷ []) ≡ true
  any-append_left p [] r h = cc
  any-append_left p (x ∷ xs) r h = ground (arith, any-append_left p xs r)

  any_mono :
      (p q : A → Bool) (xs : List A)
      → ((x : A) → p x ≡ true → q x ≡ true)
      → any p xs ≡ true
      → any q xs ≡ true
  any_mono p q [] h t = t
  any_mono p q (x ∷ xs) h t = ground (arith, any_mono p q xs h, h x)

module _ (kind : TokenType) (hash : String) (now : ℕ) where
  -- The query finds a row exactly if some token can be redeemed.
  by_token-any :
      (db : Db) (ts : List UserToken)
      → is_some (by_token kind hash now db ts) ≡ redeemable_by kind hash now db.users ts
  unfolding by_token owner_of
  by_token-any db [] = refl
  by_token-any db (t ∷ ts) = ground (arith, by_token-any db ts, find-any (owns t.user_id) db.users)

  more_users :
      (us us' : List UserRecord) (ts : List UserToken)
      → ((id : ℕ) → any (owns id) us ≡ true → any (owns id) us' ≡ true)
      → redeemable_by kind hash now us ts ≡ true
      → redeemable_by kind hash now us' ts ≡ true
  more_users us us' ts more h =
      any_mono _ (λ t. usable kind hash now t && any (owns t.user_id) us') ts
        (λ t p. ground (arith, more t.user_id)) h

  owner-updated :
      (f : UserRecord → UserRecord) (id : ℕ)
      → ((r : UserRecord) → ((f r).id ≡ r.id) × ((f r).deleted_at ≡ r.deleted_at))
      → (n : ℕ) (us : List UserRecord) → any (owns n) us ≡ true
      → any (owns n) (update_where (matches id) f us) ≡ true
  owner-updated f id keeps n [] h = h
  owner-updated f id keeps n (r ∷ us) h =
      ground (arith, owner-updated f id keeps n us, (keeps r).0, (keeps r).1)

  pub kept :
      {d e : Db}
      → e.users ≡ d.users
      → e.user_tokens ≡ d.user_tokens
      → Redeemable kind hash now d
      → Redeemable kind hash now e
  kept u t h = record { holds = rw (u, t) h.holds }

  pub insert_user-Redeemable : (r : UserRecord) → Safe (Redeemable kind hash now) (insert_user r)
  unfolding insert_user
  insert_user-Redeemable r = record {
    at = λ d e h p.
        let users : e.users ≡ d.users ++ r ∷ [] = ground arith in
        let tokens : e.user_tokens ≡ d.user_tokens = ground arith in
        record {
          holds =
              rw (users, tokens)
                (more_users d.users (d.users ++ r ∷ []) d.user_tokens
                  (λ id. any-append_left (owns id) d.users r) p.holds);
        };
  }

  pub update_user-Redeemable :
      (t id : ℕ) (email name : String) (is_active verified : Bool)
      → Safe (Redeemable kind hash now) (update_user t id email name is_active verified)
  unfolding update_user
  update_user-Redeemable t id email name is_active verified = record {
    at = λ d e h p.
        let f : UserRecord → UserRecord = λ r. record r {
          email = email;
          name = name;
          is_active = is_active;
          email_verified_at = coalesced verified t r.email_verified_at;
          updated_at = t;
        } in
        let users : e.users ≡ update_where (matches id) f d.users = ground arith in
        let tokens : e.user_tokens ≡ d.user_tokens = ground arith in
        record {
          holds =
              rw (users, tokens)
                (more_users d.users (update_where (matches id) f d.users) d.user_tokens
                  (λ n. owner-updated f id (λ r. (refl, refl)) n d.users) p.holds);
        };
  }

  pub insert_token-Redeemable :
      (r : UserToken) → Safe (Redeemable kind hash now) (insert_user_token r)
  unfolding insert_user_token
  insert_token-Redeemable r = record {
    at = λ d e h p.
        let users : e.users ≡ d.users = ground arith in
        let tokens : e.user_tokens ≡ d.user_tokens ++ r ∷ [] = ground arith in
        record { holds = rw (users, tokens) (any-append_left _ d.user_tokens r p.holds) };
  }

-- Where the database answers, the lookup finds the user of a token that can be redeemed.
pub get_by_reset_token-ok :
    (env : Env) (hash : String) (w : World Db Event)
    → Redeemable password_reset hash (env.now (suc w.tick)) w.db
    → (u : User) × ((get_by_reset_token (reliable env) hash w).0 ≡ ok u)
unfolding get_by_reset_token
get_by_reset_token-ok env hash w h =
    elim (Option-cases
      (by_token password_reset hash (env.now (suc w.tick)) w.db w.db.user_tokens)) [
        | inl missing ↦ absurd (
            ground (
              arith,
              by_token-any password_reset hash (env.now (suc w.tick)) w.db w.db.user_tokens,
              h.holds,
            ))
        | inr (row, there) ↦ (map_row_to_entity row, ground arith)
      ]
