-- ===== src/Http/Formatter.antt =====
-- internal/shared/middleware/formatter.go. What it calls of encoding/json, net/http and bytes is a
-- parameter, `V` is a decoded JSON value. Headers but the content type pass through.
pub mod Envelopes
use Prim.Native.String.{◌++◌ as append}
use go_codebase.Prelude.{
  ℕ, String, Bool, true, false, not, Option, none, some, List, [], ◌∷◌, if◌then◌else◌, str_eq, leb,
}
use go_codebase.Http.Response.{
  ApiResponse, ErrorBody, PaginationMeta, CursorMeta, Meta, no_meta, pagination_meta, cursor_meta,
}

pub record Encoding (V : Type 0) : Type 0 where
  -- `json.Unmarshal` into the struct with the pointer Success, with none for an error
  pub success_of : String → Option (Option Bool)
  -- Into the struct with Code and Message
  pub error_of : String → Option ErrorBody
  -- Into the structs with Data and Pagination, and with Data and Meta, where nil is none
  pub page_of : String → Option (Option V × Option V)
  pub cursor_page_of : String → Option (Option V × Option V)
  -- Into an interface{}, nil where there is an error
  pub value_of : String → Option V
  -- `json.Marshal`, then `json.Unmarshal` into the struct, without regard to errors
  pub to_pagination_meta : V → PaginationMeta
  pub to_cursor_meta : V → CursorMeta
  -- `json.NewEncoder(w).Encode`
  pub encode : ApiResponse V → String
  -- `http.StatusText` and `bytes.TrimSpace`
  pub status_text : ℕ → String
  pub trim_space : String → String

-- What a handler does with its http.ResponseWriter.
pub data Call : Type 0 where
  write_header : ℕ → Call
  write : String → Call

pub record FormattingWriter : Type 0 where
  pub status_code : ℕ
  pub body : String
  pub wrote_header : Bool

unfoldable pub on_call : Call → FormattingWriter → FormattingWriter
on_call (write_header code) w =
    if w.wrote_header then w else record w { status_code = code; wrote_header = true }
on_call (write b) w = record w { body = append w.body b }

unfoldable pub serve : List Call → FormattingWriter → FormattingWriter
unfolding on_call
serve [] w = w
serve (c ∷ cs) w = serve cs (on_call c w)

abbrev pub formatting_writer : FormattingWriter
formatting_writer = record { status_code = 200; body = ""; wrote_header = false }

-- What goes to the client.
pub record Sent : Type 0 where
  pub status_code : ℕ
  pub body : String
  pub is_json : Bool

abbrev both : {V : Type 0} → Option (Option V × Option V) → Option (V × V)
both none = none
both (some (none, m)) = none
both (some (some d, none)) = none
both (some (some d, some m)) = some (d, m)

abbrev is_set : Option (Option Bool) → Bool
is_set none = false
is_set (some none) = false
is_set (some (some b)) = true

module _ {V : Type 0} (j : Encoding V) where
  unfoldable pub is_envelope : String → Bool
  is_envelope body = is_set (j.success_of body)

  abbrev failed : ErrorBody → ApiResponse V
  failed e = record { success = false; data_of = none; meta = no_meta; error = some e; stack = "" }

  abbrev succeeded : Option V → Meta → ApiResponse V
  succeeded d meta = record { success = true; data_of = d; meta = meta; error = none; stack = "" }

  abbrev plain_error : (status_code : ℕ) → String → ErrorBody
  plain_error status_code body = record {
    code = j.status_text status_code;
    message = j.trim_space body;
  }

  unfoldable pub error_envelope : (status_code : ℕ) → String → ApiResponse V
  error_envelope status_code body = elim (j.error_of body) [
    | none ↦ failed (plain_error status_code body)
    | some e ↦ if str_eq e.message "" then failed (plain_error status_code body) else failed e
  ]

  unfoldable pub success_envelope : String → ApiResponse V
  success_envelope body = elim (both (j.page_of body)) [
    | some (d, m) ↦ succeeded (some d) (pagination_meta (j.to_pagination_meta m))
    | none ↦ elim (both (j.cursor_page_of body)) [
      | some (d, m) ↦ succeeded (some d) (cursor_meta (j.to_cursor_meta m))
      | none ↦ succeeded (j.value_of body) no_meta
    ]
  ]

  unfoldable pub envelope : (status_code : ℕ) → String → ApiResponse V
  unfolding error_envelope success_envelope
  envelope status_code body =
      if leb 400 status_code then error_envelope status_code body else success_envelope body

  unfoldable pub formatted : FormattingWriter → Sent
  unfolding is_envelope envelope
  formatted w =
      if str_eq w.body ""
      then record { status_code = w.status_code; body = ""; is_json = false }
      else if is_envelope w.body
      then record { status_code = w.status_code; body = w.body; is_json = true }
      else record {
        status_code = w.status_code;
        body = j.encode (envelope w.status_code w.body);
        is_json = true;
      }

  unfoldable pub response_formatter : List Call → Sent
  unfolding serve formatted
  response_formatter calls = formatted (serve calls formatting_writer)
