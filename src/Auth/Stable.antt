-- ===== src/Auth/Stable.antt =====
-- A fact about the tables that every statement keeps is kept by every command, whatever the
-- commands return and wherever the database fails.
pub mod Commands
pub mod Integrity
pub mod Replay
use go_codebase.Prelude.{ℕ, String, Bool, true, false, not, Option, none, some, arith}
use go_codebase.Core.Errors.{GoError, Sentinel}
use go_codebase.Core.Proc.{
  Result, ok, err, ignore, return, Keeps, Keeps-return, Keeps-fail, keeps_rules,
}
use go_codebase.Core.Runtime.{Env}
use go_codebase.Core.Runtime.Preserves.{On, Safe, world_rules}
use go_codebase.Auth.Entity.{User, RefreshToken}
use go_codebase.Auth.Tables.{
  UserRecord, Credential, Security, UserToken, TokenType, Db, insert_user, insert_credential,
  insert_security, insert_user_token, upsert_credential, upsert_security, update_user,
}
use go_codebase.Auth.UserRepository
use go_codebase.Auth.UserRepository.{
  UserRow, scanned, insert_token_if, verified_now, require_row, get_by_id, get_by_email,
  get_by_verify_token, get_by_reset_token, update,
}
use go_codebase.Auth.RefreshTokenRepository
use go_codebase.Auth.RefreshTokenRepository.{
  found, insert_refresh_token, revoke_where, delete_expired_rows, get_by_token, revoke,
  revoke_all_by_user_id, delete_expired,
}

pub record Stable (P : Db → Type 0) : Type 0 where
  pub inserts_user : (r : UserRecord) → Safe P (insert_user r)
  pub inserts_credential : (r : Credential) → Safe P (insert_credential r)
  pub inserts_security : (r : Security) → Safe P (insert_security r)
  pub inserts_user_token : (r : UserToken) → Safe P (insert_user_token r)
  pub upserts_credential : (r : Credential) → Safe P (upsert_credential r)
  pub upserts_security : (r : Security) → Safe P (upsert_security r)
  pub updates_user :
      (now id : ℕ) (email name : String) (is_active verified : Bool)
      → Safe P (update_user now id email name is_active verified)
  pub inserts_refresh_token : (r : RefreshToken) → Safe P (insert_refresh_token r)
  pub revokes : (p : RefreshToken → Bool) (now : ℕ) → Safe P (revoke_where p now)
  pub deletes_expired : (now : ℕ) → Safe P (delete_expired_rows now)

module _ {P : Db → Type 0} (env : Env) where
  scanned-Keeps : (row : Option UserRow) → Keeps (On P) (scanned row)
  scanned-Keeps none = search world_rules
  scanned-Keeps (some row) = search world_rules

  found-Keeps : (row : Option RefreshToken) → Keeps (On P) (found row)
  found-Keeps none = search world_rules
  found-Keeps (some row) = search world_rules

  pub get_by_id-Keeps : (id : ℕ) → Keeps (On P) (get_by_id env id)
  unfolding get_by_id
  get_by_id-Keeps id = search (world_rules, scanned-Keeps)

  pub get_by_email-Keeps : (email : String) → Keeps (On P) (get_by_email env email)
  unfolding get_by_email
  get_by_email-Keeps email = search (world_rules, scanned-Keeps)

  pub get_by_verify_token-Keeps : (hash : String) → Keeps (On P) (get_by_verify_token env hash)
  unfolding get_by_verify_token
  get_by_verify_token-Keeps hash = search (world_rules, scanned-Keeps)

  pub get_by_reset_token-Keeps : (hash : String) → Keeps (On P) (get_by_reset_token env hash)
  unfolding get_by_reset_token
  get_by_reset_token-Keeps hash = search (world_rules, scanned-Keeps)

  pub get_by_token-Keeps : (token : String) → Keeps (On P) (get_by_token env token)
  unfolding get_by_token
  get_by_token-Keeps token = search (world_rules, found-Keeps)

module _ {P : Db → Type 0} (s : Stable P) (env : Env) where
  insert_token_if-Keeps :
      (label : String) (kind : TokenType) (id : ℕ) (hash : Option String) (expires : Option ℕ)
      → Keeps (On P) (insert_token_if env label kind id hash expires)
  insert_token_if-Keeps label kind id none expires = search world_rules
  insert_token_if-Keeps label kind id (some hash) expires =
      search (world_rules, s.inserts_user_token)

  verified_now-Keeps : (verified : Bool) → Keeps (On P) (verified_now env verified)
  verified_now-Keeps false = search world_rules
  verified_now-Keeps true = search world_rules

  require_row-Keeps : (present : Bool) → Keeps (On P) (require_row present)
  require_row-Keeps true = search world_rules
  require_row-Keeps false = search world_rules

  pub create-Keeps : (u : User) → Keeps (On P) (UserRepository.create env u)
  unfolding UserRepository.create
  create-Keeps u =
      search
        (
          world_rules, s.inserts_user, s.inserts_credential, s.inserts_security, verified_now-Keeps,
          insert_token_if-Keeps,
        )
        depth 12

  pub update-Keeps : (u : User) → Keeps (On P) (update env u)
  unfolding update
  update-Keeps u =
      search
        (
          world_rules, s.updates_user, s.upserts_credential, s.upserts_security, require_row-Keeps,
          insert_token_if-Keeps,
        )
        depth 12

  pub create_token-Keeps : (r : RefreshToken) → Keeps (On P) (RefreshTokenRepository.create env r)
  unfolding RefreshTokenRepository.create
  create_token-Keeps r = search (world_rules, s.inserts_refresh_token)

  pub revoke-Keeps : (token : String) → Keeps (On P) (revoke env token)
  unfolding revoke
  revoke-Keeps token = search (world_rules, s.revokes)

  pub revoke_all-Keeps : (user_id : ℕ) → Keeps (On P) (revoke_all_by_user_id env user_id)
  unfolding revoke_all_by_user_id
  revoke_all-Keeps user_id = search (world_rules, s.revokes)

  pub delete_expired-Keeps : Keeps (On P) (delete_expired env)
  unfolding delete_expired
  delete_expired-Keeps = search (world_rules, s.deletes_expired)
