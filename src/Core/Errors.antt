-- ===== src/Core/Errors.antt =====
-- internal/core/domain/errors.go, and the sentinel errors of the authentication commands and
-- queries. A Go `error` is a sentinel, an error with a text only, or one that wraps another.
use go_codebase.Prelude.{ℕ, String, Bool, false, ◌==◌}

-- The package variables that are made by `errors.New`. Two variables with one text are two
-- errors: `query_invalid_credentials` is of the package query, the others of core or command.
pub data Sentinel : Type 0 where
  not_found already_exists invalid_id deleted conflict validation forbidden unauthorized : Sentinel
  email_already_exists user_not_found invalid_refresh_token account_disabled : Sentinel
  email_not_verified invalid_verify_token verify_token_expired : Sentinel
  invalid_reset_token reset_token_expired : Sentinel
  query_invalid_credentials query_account_disabled query_account_locked : Sentinel
  query_email_not_verified : Sentinel
  todo_not_found todo_already_done invalid_title : Sentinel

-- The variables are told apart by their addresses, here by a number for each.
abbrev address : Sentinel → ℕ
address not_found = 0
address already_exists = 1
address invalid_id = 2
address deleted = 3
address conflict = 4
address validation = 5
address forbidden = 6
address unauthorized = 7
address email_already_exists = 8
address user_not_found = 9
address invalid_refresh_token = 10
address account_disabled = 11
address email_not_verified = 12
address invalid_verify_token = 13
address verify_token_expired = 14
address invalid_reset_token = 15
address reset_token_expired = 16
address query_invalid_credentials = 17
address query_account_disabled = 18
address query_account_locked = 19
address query_email_not_verified = 20
address todo_not_found = 21
address todo_already_done = 22
address invalid_title = 23

abbrev pub same_sentinel : Sentinel → Sentinel → Bool
same_sentinel a b = address a == address b

-- `plain` is fmt.Errorf without %w, or an error of a library; `wrap` is fmt.Errorf with %w.
pub data GoError : Type 0 where
  sentinel : Sentinel → GoError
  plain : String → GoError
  wrap : String → GoError → GoError
  domain_error : GoError → (code : String) → (message : String) → GoError

-- `errors.Is`, which walks the chain of `Unwrap`.
abbrev pub is : GoError → Sentinel → Bool
is (sentinel s) t = same_sentinel s t
is (plain text) t = false
is (wrap text e) t = is e t
is (domain_error e code message) t = is e t

unfoldable pub new_domain_error : GoError → String → String → GoError
new_domain_error e code message = domain_error e code message

unfoldable pub is_not_found : GoError → Bool
is_not_found e = is e not_found

unfoldable pub is_conflict : GoError → Bool
is_conflict e = is e conflict
