-- ===== src/Auth/Stable/Replay.antt =====
-- The statements on one-time tokens: none of them marks a token as consumed.
use go_codebase.Prelude.{ℕ, suc, String, ◌≡◌, List, arith}
use go_codebase.Core.Proc.{ok}
use go_codebase.Core.Runtime.{Env, World, reliable}
use go_codebase.Auth.Entity.{User, Event}
use go_codebase.Auth.Tables.{
  TokenType, password_reset, Db, insert_credential, insert_security, upsert_credential,
  upsert_security,
}
use go_codebase.Auth.UserRepository.{get_by_reset_token}
use go_codebase.Auth.UserRepository.Tokens.{
  Redeemable, kept, insert_user-Redeemable, update_user-Redeemable, insert_token-Redeemable,
  get_by_reset_token-ok,
}
use go_codebase.Auth.RefreshTokenRepository.{
  insert_refresh_token, revoke_where, delete_expired_rows,
}
use go_codebase.Auth.Crypto.{Crypto}
use go_codebase.Auth.Stable.{Stable}
use go_codebase.Auth.Trace.{Call, run_all, run_all-On}

pub Redeemable-Stable :
    (kind : TokenType) (hash : String) (now : ℕ) → Stable (Redeemable kind hash now)
unfolding insert_credential insert_security upsert_credential upsert_security insert_refresh_token
    revoke_where delete_expired_rows
Redeemable-Stable kind hash now = record {
  inserts_user = insert_user-Redeemable kind hash now;
  inserts_credential =
      λ r. record { at = λ d e h p. kept kind hash now (ground arith) (ground arith) p };
  inserts_security =
      λ r. record { at = λ d e h p. kept kind hash now (ground arith) (ground arith) p };
  inserts_user_token = insert_token-Redeemable kind hash now;
  upserts_credential =
      λ r. record { at = λ d e h p. kept kind hash now (ground arith) (ground arith) p };
  upserts_security =
      λ r. record { at = λ d e h p. kept kind hash now (ground arith) (ground arith) p };
  updates_user = update_user-Redeemable kind hash now;
  inserts_refresh_token =
      λ r. record { at = λ d e h p. kept kind hash now (ground arith) (ground arith) p };
  revokes = λ q t. record { at = λ d e h p. kept kind hash now (ground arith) (ground arith) p };
  deletes_expired =
      λ t. record { at = λ d e h p. kept kind hash now (ground arith) (ground arith) p };
}

-- A reset token whose row is not consumed and unexpired at the time of the lookup, and whose user
-- is live, is found by a lookup that the database answers after any requests, password resets with
-- this very token included.
pub reset_token_survives :
    (env : Env) (k : Crypto) (hash : String) (cs : List Call) (w : World Db Event)
    → Redeemable password_reset hash (env.now (suc (run_all env k cs w).tick)) w.db
    → (u : User) × ((get_by_reset_token (reliable env) hash (run_all env k cs w)).0 ≡ ok u)
reset_token_survives env k hash cs w h =
    get_by_reset_token-ok env hash (run_all env k cs w)
      (run_all-On env k
        (Redeemable-Stable password_reset hash (env.now (suc (run_all env k cs w).tick))) cs w
        (record { tables = h })).tables
