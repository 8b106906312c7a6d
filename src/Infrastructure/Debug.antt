-- ===== src/Infrastructure/Debug.antt =====
-- internal/infrastructure/messaging/debug.go: the last messages for the debug endpoint, in an array
-- that is written round and round. A payload is a list of bytes. The lock makes one call a step.
pub mod Cells
pub mod Loops
pub mod Latest
use go_codebase.Prelude.{
  ℕ, zero, suc, ◌+◌, ◌-◌, ◌%◌, String, Bool, true, false, Option, none, some, List, [], ◌∷◌, ltb,
  ◌==◌, if◌then◌else◌, length, take,
}
use Cells.{get_or, set, replicate}

pub record DebugEntry : Type 0 where
  pub subject : String
  pub timestamp : ℕ
  pub payload : List ℕ

pub record DebugBuffer : Type 0 where
  pub buf : List DebugEntry
  pub cap : ℕ
  pub next : ℕ
  pub full : Bool

abbrev pub zero_entry : DebugEntry
zero_entry = record { subject = ""; timestamp = 0; payload = [] }

unfoldable pub new_debug_buffer : (capacity : ℕ) → DebugBuffer
new_debug_buffer capacity = record {
  buf = replicate capacity zero_entry;
  cap = capacity;
  next = 0;
  full = false;
}

-- `now` is `time.Now().UnixMilli()`.
abbrev pub entry_of : (now : ℕ) (subject : String) (payload : List ℕ) → DebugEntry
entry_of now subject payload = record {
  subject = subject;
  timestamp = now;
  payload = if ltb 1024 (length payload) then take 1024 payload else payload;
}

-- `debugBuffer.append`
unfoldable pub add : (now : ℕ) (subject : String) (payload : List ℕ) → DebugBuffer → DebugBuffer
add now subject payload b =
    let after = (b.next + 1) % b.cap in
    record b {
      buf = set b.buf b.next (entry_of now subject payload);
      next = after;
      full = if after == 0 then true else b.full;
    }

-- The first loop of `read`, with `n` rounds to go.
unfoldable pub copied : (b : DebugBuffer) (start i n : ℕ) → List DebugEntry
copied b start i zero = []
copied b start i (suc n) = get_or b.buf ((start + i) % b.cap) zero_entry ∷ copied b start (suc i) n

-- `entries[i], entries[j] = entries[j], entries[i]`
abbrev pub swapped : (i j : ℕ) → List DebugEntry → List DebugEntry
swapped i j es = set (set es i (get_or es j zero_entry)) j (get_or es i zero_entry)

-- The second loop. The length of the list is fuel enough.
unfoldable pub reversed : (fuel i j : ℕ) → List DebugEntry → List DebugEntry
reversed zero i j es = es
reversed (suc fuel) i j es =
    let rest = reversed fuel (i + 1) (j - 1) (swapped i j es) in if ltb i j then rest else es

abbrev pub start_of : DebugBuffer → ℕ
start_of b = if b.full then b.next else 0

abbrev pub count_of : DebugBuffer → ℕ
count_of b = if b.full then b.cap else b.next

-- For no entries Go's `len(entries)-1` is -1, and here it is 0: the loop does nothing in both.
unfoldable pub read : DebugBuffer → List DebugEntry
unfolding copied reversed
read b =
    let entries = copied b (start_of b) 0 (count_of b) in
    reversed (length entries) 0 (length entries - 1) entries

-- `debugNATSHandler.ServeHTTP`: a status and the entries; without a buffer, 404.
unfoldable pub serve_debug : Option DebugBuffer → ℕ × List DebugEntry
unfolding read
serve_debug none = (404, [])
serve_debug (some b) = (200, read b)
