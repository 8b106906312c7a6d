-- ===== src/Auth/RefreshTokenRepository.antt =====
-- internal/authentication/infrastructure/persistence/refresh_token_repository.go, with the
-- statements of queries/*.sql. A row has the columns of the entity, so `mapSqlcRefreshTokenToEntity`
-- changes nothing.
use go_codebase.Prelude.{
  ℕ, String, Bool, not, ◌&&◌, ◌||◌, Option, none, some, List, [], ◌∷◌, ◌++◌, ltb, ◌==◌,
  if◌then◌else◌, is_some, find, any, select, update_where, str_eq,
}
use go_codebase.Core.Errors.{plain, wrap}
use go_codebase.Core.Proc.{◌>>=◌, ◌>>◌, return, fail, on_error}
use go_codebase.Core.Runtime.{Env, round_trip, read_clock, read, exec}
use go_codebase.Auth.Entity.{RefreshToken}
use go_codebase.Auth.Tables.{Db}
use go_codebase.Auth.UserRepository.{Action}

-- `deleted_at IS NULL`
abbrev pub stands : RefreshToken → Bool
stands r = not (is_some r.deleted_at)

-- The columns that the statement does not list are NULL.
abbrev pub inserted : RefreshToken → RefreshToken
inserted r = record r { revoked_at = none; entity = record r.entity { deleted_at = none } }

-- `id` and `token` are unique, and the user must exist.
unfoldable pub insert_refresh_token : RefreshToken → Db → Option Db
insert_refresh_token r db =
    if any (λ o. o.id == r.id || str_eq o.token r.token) db.refresh_tokens
      || not (any (λ u. u.id == r.user_id) db.users)
    then none
    else some (record db { refresh_tokens = db.refresh_tokens ++ inserted r ∷ [] })

-- `SET revoked_at = NOW(), updated_at = NOW()`
abbrev pub revoked_at_now : (now : ℕ) → RefreshToken → RefreshToken
revoked_at_now now r = record r {
  revoked_at = some now;
  entity = record r.entity { updated_at = now };
}

-- `AND deleted_at IS NULL AND revoked_at IS NULL`
abbrev pub revocable : RefreshToken → Bool
revocable r = stands r && not (is_some r.revoked_at)

unfoldable pub revoke_where : (RefreshToken → Bool) → (now : ℕ) → Db → Option Db
revoke_where p now db = some (record db {
  refresh_tokens = update_where (λ r. p r && revocable r) (revoked_at_now now) db.refresh_tokens;
})

abbrev pub deleted_at_now : (now : ℕ) → RefreshToken → RefreshToken
deleted_at_now now r = record r { entity = record r.entity { deleted_at = some now } }

unfoldable pub delete_expired_rows : (now : ℕ) → Db → Option Db
delete_expired_rows now db = some (record db {
  refresh_tokens =
      update_where (λ r. ltb r.expires_at now && stands r) (deleted_at_now now) db.refresh_tokens;
})

-- `ORDER BY created_at DESC`, with rows of one time in the order of the table.
insert_by_age : RefreshToken → List RefreshToken → List RefreshToken
insert_by_age r [] = r ∷ []
insert_by_age r (x ∷ xs) =
    let rest = insert_by_age r xs in if ltb r.created_at x.created_at then x ∷ rest else r ∷ x ∷ xs

newest_first : List RefreshToken → List RefreshToken
newest_first [] = []
newest_first (x ∷ xs) = insert_by_age x (newest_first xs)

abbrev pub found : Option RefreshToken → Action RefreshToken
found none = fail (plain "refresh token not found")
found (some r) = return r

module _ (env : Env) where
  unfoldable pub create : RefreshToken → Action (Unit {0})
  unfolding insert_refresh_token
  create r = exec env "insert refresh token" (insert_refresh_token r)

  unfoldable pub get_by_token : String → Action RefreshToken
  get_by_token token = do
    on_error (round_trip env) (wrap "get refresh token")
    row ← read (λ db. find (λ r. str_eq r.token token && stands r) db.refresh_tokens)
    found row

  unfoldable pub get_by_user_id : ℕ → Action (List RefreshToken)
  unfolding newest_first insert_by_age
  get_by_user_id user_id = do
    on_error (round_trip env) (wrap "get refresh tokens")
    read (λ db. newest_first (select (λ r. r.user_id == user_id && stands r) db.refresh_tokens))

  unfoldable pub revoke : String → Action (Unit {0})
  unfolding revoke_where
  revoke token = do
    now ← read_clock env
    exec env "revoke refresh token" (revoke_where (λ r. str_eq r.token token) now)

  unfoldable pub revoke_all_by_user_id : ℕ → Action (Unit {0})
  unfolding revoke_where
  revoke_all_by_user_id user_id = do
    now ← read_clock env
    exec env "revoke all refresh tokens" (revoke_where (λ r. r.user_id == user_id) now)

  unfoldable pub delete_expired : Action (Unit {0})
  unfolding delete_expired_rows
  delete_expired = do
    now ← read_clock env
    exec env "delete expired tokens" (delete_expired_rows now)
