-- ===== src/Cursor.antt =====
-- internal/shared/cursor/cursor.go. JSON and base64 are the standard library's, so they are
-- functions that the code is given; a time is in nanoseconds, an identifier a number.
use go_codebase.Prelude.{
  ℕ, ◌*◌, ◌≡◌, ◌≢◌, refl, String, Bool, true, false, Option, none, some, ltb, str_eq, eq_iff, arith,
}
use go_codebase.Core.Errors.{plain, wrap}
use go_codebase.Core.Proc.{Result, ok, err}

pub record Cursor : Type 0 where
  pub timestamp : ℕ
  pub id : ℕ

pub record Codec : Type 0 where
  -- `b, _ := json.Marshal(c)`: the bytes, none of them if it returns an error
  pub marshal : Cursor → String
  -- `json.Unmarshal` into a Cursor
  pub unmarshal : String → Option Cursor
  -- `base64.URLEncoding`
  pub encode_to_string : String → String
  pub decode_string : String → Option String

module _ (k : Codec) where
  unfoldable pub encode : (t id : ℕ) → String
  encode t id = k.encode_to_string (k.marshal (record { timestamp = t; id = id }))

  abbrev unmarshalled : Option Cursor → Result Cursor
  unmarshalled none = err (wrap "unmarshal cursor" (plain "json"))
  unmarshalled (some c) = ok c

  abbrev pub decoded : Option String → Result Cursor
  decoded none = err (wrap "decode cursor" (plain "base64"))
  decoded (some bytes) = unmarshalled (k.unmarshal bytes)

  abbrev pub decode_text : Bool → String → Result Cursor
  decode_text true s = err (plain "empty cursor")
  decode_text false s = decoded (k.decode_string s)

  unfoldable pub decode : String → Result Cursor
  decode s = decode_text (str_eq s "") s

-- The year 10000, in nanoseconds since the epoch: from there on, `time.Time` has no JSON form.
abbrev pub year_10000 : ℕ
year_10000 = 253402300800 * 1000000000

-- What the standard library's documentation says of the calls above.
pub record IsFaithful (k : Codec) : Type 0 where
  pub json : (c : Cursor) → ltb c.timestamp year_10000 ≡ true → k.unmarshal (k.marshal c) ≡ some c
  pub base64 : (s : String) → k.decode_string (k.encode_to_string s) ≡ some s
  -- A JSON object has at least its braces, and base64 loses no byte.
  pub json_nonempty : (c : Cursor) → ltb c.timestamp year_10000 ≡ true → k.marshal c ≢ ""
  pub base64_nonempty : (s : String) → s ≢ "" → k.encode_to_string s ≢ ""

-- A cursor that `Encode` makes from a time before the year 10000 is decoded to that time and
-- identifier, with JSON and base64 as documented.
pub decode-encode :
    (k : Codec) (h : IsFaithful k) (t id : ℕ)
    → ltb t year_10000 ≡ true
    → decode k (encode k t id) ≡ ok (record { timestamp = t; id = id })
unfolding decode encode
decode-encode k h t id before =
    let c : Cursor = record { timestamp = t; id = id } in
    let text : str_eq (k.encode_to_string (k.marshal c)) "" ≡ false = ground (
      arith,
      eq_iff (k.encode_to_string (k.marshal c)) "",
      h.base64_nonempty (k.marshal c) (h.json_nonempty c before),
    ) in
    rw (text, h.base64 (k.marshal c), h.json c before) refl
