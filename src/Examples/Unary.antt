-- ===== src/Examples/Unary.antt =====
-- A form of cursors that is read back as it was written: two numbers in unary.
use Prim.Native.Char.{Char, code}
use Prim.Native.String.{[] as nil, ◌∷◌ as cons, char_at}
use go_codebase.Prelude.{
  ℕ, zero, suc, ◌≡◌, ◌≢◌, refl, ap, String, Option, none, some, ◌==◌, if◌then◌else◌,
}
use go_codebase.Cursor.{Cursor, Codec, IsFaithful}

abbrev bar : Char
bar = char_at "l" 0

abbrev comma : Char
comma = char_at "," 0

abbrev pub bars : ℕ → String
bars zero = nil
bars (suc n) = cons bar (bars n)

abbrev written : ℕ → ℕ → String
written zero i = cons comma (bars i)
written (suc t) i = cons bar (written t i)

abbrev pub size : String → ℕ
size nil = 0
size (cons c s) = suc (size s)

abbrev more : Option Cursor → Option Cursor
more none = none
more (some c) = some (record c { timestamp = suc c.timestamp })

abbrev from_text : String → Option Cursor
from_text nil = none
from_text (cons c s) =
    let rest = from_text s in
    if code c == 108 then more rest else some (record { timestamp = 0; id = size s })

pub size-bars : (n : ℕ) → size (bars n) ≡ n
size-bars zero = refl
size-bars (suc n) = ap suc (size-bars n)

from_text-written : (t i : ℕ) → from_text (written t i) ≡ some (record { timestamp = t; id = i })
from_text-written zero i = rw (size-bars i) refl
from_text-written (suc t) i = ap more (from_text-written t i)

written-nonempty : (t i : ℕ) → written t i ≢ ""
written-nonempty zero i h = cc
written-nonempty (suc t) i h = cc

abbrev pub unary : Codec
unary = record {
  marshal = λ c. written c.timestamp c.id;
  unmarshal = from_text;
  encode_to_string = λ s. s;
  decode_string = λ s. some s;
}

pub unary-IsFaithful : IsFaithful unary
unary-IsFaithful = record {
  json = λ c h. from_text-written c.timestamp c.id;
  base64 = λ s. refl;
  json_nonempty = λ c h. written-nonempty c.timestamp c.id;
  base64_nonempty = λ s h. h;
}
