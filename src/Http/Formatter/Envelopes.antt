-- ===== src/Http/Formatter/Envelopes.antt =====
-- What a client gets from a handler behind the formatter.
use Prim.Native.String.{◌++◌ as append}
use Prim.Native.String.append
use text.Mathlib.TextLemmas.{append-nil, append_assoc}
use go_codebase.Prelude.{
  ℕ, String, Bool, true, false, some, List, [], ◌∷◌, ◌≡◌, refl, ◌∙◌, sym, ap, ◌⊎◌, inl, inr, arith,
  Bool-cases, str_eq, ltb,
}
use go_codebase.Http.Response.{ApiResponse}
use go_codebase.Http.Formatter.{
  Encoding, Call, write_header, write, FormattingWriter, serve, formatting_writer, Sent,
  is_envelope, error_envelope, success_envelope, envelope, formatted, response_formatter,
}

-- What the encoder writes is a text, and its field success is read back as it was.
pub record Readable {V : Type 0} (j : Encoding V) : Type 0 where
  pub read_back : (r : ApiResponse V) → (j.success_of (j.encode r) ≡ some (some r.success))
  pub filled : (r : ApiResponse V) → (str_eq (j.encode r) "" ≡ false)

-- The first status that a handler sets, or the default, and all that it writes.
abbrev pub first_status : (default : ℕ) → List Call → ℕ
first_status default [] = default
first_status default (write_header code ∷ cs) = code
first_status default (write b ∷ cs) = first_status default cs

abbrev pub written : List Call → String
written [] = ""
written (write_header code ∷ cs) = written cs
written (write b ∷ cs) = append b (written cs)

abbrev writer : ℕ → String → Bool → FormattingWriter
writer code b wrote = record { status_code = code; body = b; wrote_header = wrote }

serve-settled :
    (code : ℕ) (b : String) (cs : List Call) → (serve cs (writer code b true)).status_code ≡ code
unfolding serve
serve-settled code b [] = refl
serve-settled code b (write_header other ∷ cs) = serve-settled code b cs
serve-settled code b (write more ∷ cs) = serve-settled code (append b more) cs

serve-status :
    (code : ℕ) (b : String) (cs : List Call)
    → (serve cs (writer code b false)).status_code ≡ first_status code cs
unfolding serve
serve-status code b [] = refl
serve-status code b (write_header other ∷ cs) = serve-settled other b cs
serve-status code b (write more ∷ cs) = serve-status code (append b more) cs

serve-body :
    (code : ℕ) (b : String) (wrote : Bool) (cs : List Call)
    → (serve cs (writer code b wrote)).body ≡ append b (written cs)
unfolding serve
serve-body code b wrote [] = sym (append-nil b)
serve-body code b true (write_header other ∷ cs) = serve-body code b true cs
serve-body code b false (write_header other ∷ cs) = serve-body other b true cs
serve-body code b wrote (write more ∷ cs) =
    serve-body code (append b more) wrote cs ∙ append_assoc b more (written cs)

module _ {V : Type 0} (j : Encoding V) where
  -- Nothing for nothing, the handler's own envelope, or one that says success below status 400.
  abbrev pub Enveloped : List Call → Sent → Type 0
  Enveloped calls s =
      ((str_eq (written calls) "" ≡ true) × (str_eq s.body "" ≡ true))
      ⊎ (((is_envelope j (written calls) ≡ true) × (s.body ≡ written calls))
          ⊎ (j.success_of s.body ≡ some (some (ltb s.status_code 400))))

  formatted-status : (w : FormattingWriter) → (formatted j w).status_code ≡ w.status_code
  unfolding formatted
  formatted-status w = ground arith

  error_envelope-success : (code : ℕ) (b : String) → (error_envelope j code b).success ≡ false
  unfolding error_envelope
  error_envelope-success code b = ground arith

  success_envelope-success : (b : String) → (success_envelope j b).success ≡ true
  unfolding success_envelope
  success_envelope-success b = ground arith

  envelope-success : (code : ℕ) (b : String) → (envelope j code b).success ≡ ltb code 400
  unfolding envelope
  envelope-success code b =
      ground (arith, error_envelope-success code b, success_envelope-success b)

  no_body :
      (w : FormattingWriter) → (str_eq w.body "" ≡ true) → str_eq (formatted j w).body "" ≡ true
  unfolding formatted
  no_body w e = rw e refl

  own_envelope :
      (w : FormattingWriter)
      → (str_eq w.body "" ≡ false)
      → (is_envelope j w.body ≡ true)
      → (formatted j w).body ≡ w.body
  unfolding formatted
  own_envelope w some_body own = rw (some_body, own) refl

  new_envelope :
      (w : FormattingWriter)
      → (str_eq w.body "" ≡ false)
      → (is_envelope j w.body ≡ false)
      → (formatted j w).body ≡ j.encode (envelope j w.status_code w.body)
  unfolding formatted
  new_envelope w some_body own = rw (some_body, own) refl

  formatted-Enveloped :
      (readable : Readable j) (calls : List Call) (w : FormattingWriter)
      → (w.body ≡ written calls)
      → Enveloped calls (formatted j w)
  formatted-Enveloped readable calls w same = elim (Bool-cases (str_eq w.body "")) [
    | inl e ↦ inl (ap (λ b. str_eq b "") (sym same) ∙ e, no_body w e)
    | inr some_body ↦ inr (elim (Bool-cases (is_envelope j w.body)) [
      | inl own ↦ inl (ap (is_envelope j) (sym same) ∙ own, own_envelope w some_body own ∙ same)
      | inr new ↦ inr (
          ap j.success_of (new_envelope w some_body new)
          ∙ readable.read_back (envelope j w.status_code w.body)
          ∙ ap (λ b. some (some b)) (envelope-success w.status_code w.body)
          ∙ ap (λ code. some (some (ltb code 400))) (sym (formatted-status w)))
    ])
  ]

  -- Whatever a handler does, the client gets the first status that it sets, or 200. If it writes
  -- anything, the client gets it unchanged where it is an envelope, and else an envelope that says
  -- success exactly for a status below 400; if it writes nothing, the body is empty.
  pub response_formatter-Enveloped :
      (readable : Readable j) (calls : List Call)
      → ((response_formatter j calls).status_code ≡ first_status 200 calls)
        × Enveloped calls (response_formatter j calls)
  unfolding response_formatter
  response_formatter-Enveloped readable calls =
      let w = serve calls formatting_writer in
      (
        formatted-status w ∙ serve-status 200 "" calls,
        formatted-Enveloped readable calls w
            (serve-body 200 "" false calls ∙ append.nil (written calls)),
      )
