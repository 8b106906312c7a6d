-- ===== src/Http/Requests.antt =====
-- What the handlers of the modules take from a request before they call a command: a path's
-- identifier as uuid.Parse reads it, and a body as the JSON decoder and the validator do. none
-- stands for an error of uuid.Parse or of the decoder, a text for one of the validator.
use go_codebase.Prelude.{ℕ, String, ◌&&◌, Option, none, some, ltb, leb, str_eq, if◌then◌else◌}
use go_codebase.Core.Proc.{Proc, return}
use go_codebase.Http.Response.{Response, respond_bad_request}

-- The query's `limit`: 20 where it is absent, no number, or not within 1 and 100. `atoi` is
-- strconv.Atoi, with none for an error or a negative number, which the code treats alike.
unfoldable pub limit_of : (atoi : String → Option ℕ) → String → ℕ
limit_of atoi l =
    if str_eq l ""
    then 20
    else elim (atoi l) [ none ↦ 20 | some n ↦ if ltb 0 n && leb n 100 then n else 20 ]

abbrev pub cursor_arg : String → Option String
cursor_arg s = if str_eq s "" then none else some s

module _ {S D : Type 0} where
  abbrev pub identified_or :
      (message : String) → Option ℕ → (ℕ → Proc S (Response D)) → Proc S (Response D)
  identified_or message none f = return (respond_bad_request message)
  identified_or message (some id) f = f id

  abbrev pub decoded : {B : Type 0} → Option B → (B → Proc S (Response D)) → Proc S (Response D)
  decoded none f = return (respond_bad_request "invalid request body")
  decoded (some b) f = f b

  -- `if err = h.validator.Validate(req); err != nil`
  abbrev pub valid_or : Option String → Proc S (Response D) → Proc S (Response D)
  valid_or none f = f
  valid_or (some text) f = return (respond_bad_request text)
