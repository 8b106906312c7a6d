-- ===== src/Infrastructure/Debug/Latest.antt =====
-- What the buffer holds: the last messages, the latest first.
use native.Mathlib.Nat.{mod-eq_of_lt, mod-eq-sub-mod}
use go_codebase.Prelude.{
  ℕ, zero, suc, ◌+◌, ◌-◌, ◌%◌, ◌<◌, ◌≤◌, ◌≡◌, refl, sym, ◌∙◌, String, Bool, true, false, none, some,
  List, [], ◌∷◌, ltb, ◌==◌, if◌then◌else◌, length, take, at, arith, Bool-cases, inl, inr,
}
use go_codebase.Infrastructure.Debug.{
  DebugEntry, DebugBuffer, zero_entry, new_debug_buffer, entry_of, add, copied, start_of, count_of,
  read,
}
use go_codebase.Infrastructure.Debug.Cells.{
  get_or, set, length-replicate, length-set, get_or-set, at-take, eq_of_at,
}
use go_codebase.Infrastructure.Debug.Loops.{length-copied, at-copied, at-none, at-reversed_all}

-- The index of the entry that was written `k` rounds before the last one.
abbrev back : (next cap k : ℕ) → ℕ
back next cap k = if ltb k next then next - 1 - k else next + cap - 1 - k

-- The buffer holds the last of the messages of `hist`, which starts with the latest.
record Holds (b : DebugBuffer) (hist : List DebugEntry) : Type 0 where
  stored : length b.buf ≡ b.cap
  within : b.next < b.cap
  whole : b.full ≡ true → b.cap ≤ length hist
  partial : b.full ≡ false → b.next ≡ length hist
  latest :
      (k : ℕ) → k < count_of b → at k hist ≡ some (get_or b.buf (back b.next b.cap k) zero_entry)

round : (n cap : ℕ) → n < cap → (n + 1) % cap ≡ (if n + 1 == cap then 0 else n + 1)
round n cap h = grind (arith, mod-eq_of_lt, mod-eq-sub-mod)

back-first : (n cap : ℕ) → n < cap → back ((n + 1) % cap) cap 0 ≡ n
back-first n cap h = rw (round n cap h) (ground arith)

back-later : (n cap k : ℕ) → n < cap → suc k < cap → back ((n + 1) % cap) cap (suc k) ≡ back n cap k
back-later n cap k h later = rw (round n cap h) (ground arith)

back-ne : (n cap k : ℕ) → n < cap → suc k < cap → (back n cap k == n) ≡ false
back-ne n cap k h later = ground arith

count-add_le :
    (now : ℕ) (subject : String) (payload : List ℕ) (b : DebugBuffer) (k : ℕ)
    → b.next < b.cap
    → suc k < count_of (add now subject payload b)
    → (k < count_of b) × (suc k < b.cap)
unfolding add
count-add_le now subject payload b k h more = ground (arith, round b.next b.cap)

add-latest :
    (now : ℕ) (subject : String) (payload : List ℕ) (b : DebugBuffer) (hist : List DebugEntry)
    → Holds b hist
    → (k : ℕ) → k < count_of (add now subject payload b)
    → at k (entry_of now subject payload ∷ hist)
      ≡ some (
          get_or
            (set b.buf b.next (entry_of now subject payload))
            (back ((b.next + 1) % b.cap) b.cap k)
            zero_entry)
add-latest now subject payload b hist h zero more =
    let e = entry_of now subject payload in
    let inside : b.next < length b.buf = ground (arith, h.stored, h.within) in
    let same : (b.next == b.next) ≡ true = ground arith in
    rw (back-first b.next b.cap h.within, get_or-set b.buf b.next e b.next zero_entry inside, same)
      refl
add-latest now subject payload b hist h (suc k) more =
    let e = entry_of now subject payload in
    let inside : b.next < length b.buf = ground (arith, h.stored, h.within) in
    let (old, small) = count-add_le now subject payload b k h.within more in
    let j = back b.next b.cap k in
    let other : (j == b.next) ≡ false = back-ne b.next b.cap k h.within small in
    rw
      (
        back-later b.next b.cap k h.within small,
        get_or-set b.buf b.next e j zero_entry inside,
        other,
      )
      (h.latest k old)

add-Holds :
    (now : ℕ) (subject : String) (payload : List ℕ) (b : DebugBuffer) (hist : List DebugEntry)
    → Holds b hist
    → Holds (add now subject payload b) (entry_of now subject payload ∷ hist)
unfolding add
add-Holds now subject payload b hist h = record {
  stored = length-set b.buf b.next (entry_of now subject payload) ∙ h.stored;
  within = ground (arith, round b.next b.cap);
  whole = ground (arith, round b.next b.cap);
  partial = ground (arith, round b.next b.cap);
  latest = add-latest now subject payload b hist h;
}

new-Holds : (cap : ℕ) → 0 < cap → Holds (new_debug_buffer cap) []
unfolding new_debug_buffer
new-Holds cap h = record {
  stored = length-replicate cap zero_entry;
  within = h;
  whole = λ e. cc;
  partial = λ e. refl;
  latest = λ k less. absurd (omega arith);
}

-- A message with the time of its publication.
pub record Message : Type 0 where
  pub now : ℕ
  pub subject : String
  pub payload : List ℕ

unfoldable pub add_all : List Message → DebugBuffer → DebugBuffer
unfolding add
add_all [] b = b
add_all (m ∷ ms) b = add_all ms (add m.now m.subject m.payload b)

-- The entries of the messages, the latest first.
unfoldable pub history : List Message → List DebugEntry → List DebugEntry
history [] hist = hist
history (m ∷ ms) hist = history ms (entry_of m.now m.subject m.payload ∷ hist)

add_all-Holds :
    (ms : List Message) (b : DebugBuffer) (hist : List DebugEntry)
    → Holds b hist
    → Holds (add_all ms b) (history ms hist)
unfolding add_all history
add_all-Holds [] b hist h = h
add_all-Holds (m ∷ ms) b hist h =
    add_all-Holds ms (add m.now m.subject m.payload b) (entry_of m.now m.subject m.payload ∷ hist)
      (add-Holds m.now m.subject m.payload b hist h)

cap-add_all : (ms : List Message) (b : DebugBuffer) → (add_all ms b).cap ≡ b.cap
unfolding add_all add
cap-add_all [] b = refl
cap-add_all (m ∷ ms) b = cap-add_all ms (add m.now m.subject m.payload b)

mod-once : (m cap : ℕ) → m < cap + cap → m % cap ≡ (if ltb m cap then m else m - cap)
mod-once m cap h = grind (arith, mod-eq_of_lt, mod-eq-sub-mod)

-- The index of an entry of the reversed copy.
read-index :
    (b : DebugBuffer) (full : Bool) (k : ℕ)
    → b.next < b.cap
    → k < (if full then b.cap else b.next)
    → ((if full then b.next else 0) + (0 + ((if full then b.cap else b.next) - 1 - k))) % b.cap
      ≡ back b.next b.cap k
read-index b true k h less =
    rw (mod-once (b.next + (0 + (b.cap - 1 - k))) b.cap (omega arith)) (ground arith)
read-index b false k h less =
    rw (mod-once (0 + (0 + (b.next - 1 - k))) b.cap (omega arith)) (ground arith)

at-copied_back :
    (b : DebugBuffer) (hist : List DebugEntry) (k : ℕ)
    → Holds b hist
    → k < count_of b
    → at (count_of b - 1 - k) (copied b (start_of b) 0 (count_of b)) ≡ at k hist
at-copied_back b hist k h less =
    let i = count_of b - 1 - k in
    let inside : ltb i (count_of b) ≡ true = ground arith in
    at-copied b (start_of b) 0 (count_of b) i
    ∙ rw (inside, read-index b b.full k h.within less) (sym (h.latest k less))

at-read :
    (b : DebugBuffer) (hist : List DebugEntry) (k : ℕ)
    → Holds b hist
    → at k (read b) ≡ (if ltb k (count_of b) then at k hist else none)
unfolding read
at-read b hist k h =
    let entries = copied b (start_of b) 0 (count_of b) in
    let counted : length entries ≡ count_of b = length-copied b (start_of b) 0 (count_of b) in
    at-reversed_all entries k
    ∙ rw counted (elim (Bool-cases (ltb k (count_of b))) [
      | inl less ↦ rw less (at-copied_back b hist k h (ground arith))
      | inr more ↦ rw more refl
    ])

count-Holds :
    (b : DebugBuffer) (hist : List DebugEntry) (k : ℕ)
    → Holds b hist
    → (if ltb k (count_of b) then at k hist else none) ≡ (if ltb k b.cap then at k hist else none)
count-Holds b hist k h = elim (Bool-cases b.full) [
  | inl full ↦ rw full refl
  | inr part ↦ rw part (ground (arith, h.partial, at-none hist k, h.within))
]

-- After any messages, the endpoint shows the last ones, as many as the capacity, the latest first,
-- each with its time, its subject and the first 1024 bytes of its payload.
pub read-latest :
    (cap : ℕ) (ms : List Message)
    → 0 < cap
    → read (add_all ms (new_debug_buffer cap)) ≡ take cap (history ms [])
unfolding new_debug_buffer
read-latest cap ms h =
    let b = add_all ms (new_debug_buffer cap) in
    let holds : Holds b (history ms []) =
      add_all-Holds ms (new_debug_buffer cap) [] (new-Holds cap h) in
    let same : b.cap ≡ cap = cap-add_all ms (new_debug_buffer cap) in
    eq_of_at (read b) (take cap (history ms [])) (λ k.
      at-read b (history ms []) k holds
      ∙ count-Holds b (history ms []) k holds
      ∙ rw same (sym (at-take cap (history ms []) k)))
