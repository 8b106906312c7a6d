-- ===== src/Examples/Requests.antt =====
-- Requests before the middleware.
use go_codebase.Prelude.{
  ℕ, suc, String, ◌≡◌, refl, true, false, some, none, Option, Bool, List, [], ◌∷◌, str_eq,
  if◌then◌else◌,
}
use go_codebase.Auth.Crypto.{TokenClaims}
use go_codebase.Http.Response.{Response, respond_success}
use go_codebase.Http.Middleware.{RequestContext}
use go_codebase.Http.Middleware.Limits.{StoredReply, Cached, EntryCodec, idempotency}
use go_codebase.Http.Formatter.{Encoding, Call, write_header, write, response_formatter}
use go_codebase.Http.Formatter.Envelopes.{Readable, Enveloped, response_formatter-Enveloped}
use go_codebase.Http.Guards.{idempotency_replays}

abbrev claims : TokenClaims
claims = record {
  user_id = "7";
  email = "ann@example.org";
  role = "user";
  jti = "j";
  tenant_id = "";
}

abbrev pub validate : String → Option TokenClaims
validate s = if str_eq s "good" then some claims else none

abbrev pub nobody : RequestContext
nobody = record {
  request_id = "";
  user_id = "";
  user_email = "";
  user_role = "";
  tenant_id = "";
  tenant_claim = "";
}

abbrev pub hello : RequestContext → Response String
hello c = respond_success (some c.user_email)

abbrev count_up : ℕ → StoredReply × ℕ
count_up n = (record { status_code = 201; body = "made" }, suc n)

abbrev entries : EntryCodec
entries = record {
  marshal = λ r. some r.body;
  unmarshal = λ s. some (record { status_code = 201; body = s });
}

abbrev empty_cache : Cached ℕ
empty_cache = record { cache = λ k. none; app = 0 }

idempotency_example :
    idempotency entries count_up true "k" "idempotency:k"
      (record (idempotency entries count_up true "k" "idempotency:k" empty_cache).1 { app = 9 })
    ≡ (
      record { status_code = 201; body = "made" },
      record (idempotency entries count_up true "k" "idempotency:k" empty_cache).1 { app = 9 },
    )
idempotency_example =
    idempotency_replays entries count_up "k" "idempotency:k" "made" empty_cache 9 refl refl refl
      refl refl refl refl

-- Envelopes that hold the field success only, and no other JSON.
abbrev success_only : Encoding String
success_only = record {
  success_of = λ s.
      if str_eq s "+" then some (some true) else if str_eq s "-" then some (some false) else none;
  error_of = λ s. none;
  page_of = λ s. none;
  cursor_page_of = λ s. none;
  value_of = λ s. none;
  to_pagination_meta = λ v. record { page = 1; per_page = 1; total = 1; total_pages = 1 };
  to_cursor_meta = λ v. record {
    next_cursor = none;
    prev_cursor = none;
    has_next = false;
    has_prev = false;
    limit = 20;
  };
  encode = λ r. if r.success then "+" else "-";
  status_text = λ code. "Not Found";
  trim_space = λ s. s;
}

read_success :
    (b : Bool)
    → (success_only.success_of (if b then "+" else "-") ≡ some (some b))
      × (str_eq (if b then "+" else "-") "" ≡ false)
read_success true = (refl, refl)
read_success false = (refl, refl)

success_only-Readable : Readable success_only
success_only-Readable = record {
  read_back = λ r. (read_success r.success).0;
  filled = λ r. (read_success r.success).1;
}

abbrev not_found_calls : List Call
not_found_calls = write_header 404 ∷ write "no such " ∷ write_header 200 ∷ write "page" ∷ []

response_formatter-Enveloped_example :
    ((response_formatter success_only not_found_calls).status_code ≡ 404)
    × Enveloped success_only not_found_calls (response_formatter success_only not_found_calls)
response_formatter-Enveloped_example =
    response_formatter-Enveloped success_only success_only-Readable not_found_calls
