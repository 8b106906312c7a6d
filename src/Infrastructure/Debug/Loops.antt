-- ===== src/Infrastructure/Debug/Loops.antt =====
-- The two loops of `read`: a copy from a start index, and the exchange of the ends.
use go_codebase.Prelude.{
  ℕ, zero, suc, ◌+◌, ◌-◌, ◌%◌, ◌<◌, ◌≤◌, ◌≡◌, refl, ap, sym, ◌∙◌, false, ◌&&◌, none, some, List, [],
  ◌∷◌, ltb, leb, ◌==◌, if◌then◌else◌, length, at, arith, Bool-cases, inl, inr,
}
use go_codebase.Infrastructure.Debug.{
  DebugEntry, DebugBuffer, zero_entry, copied, swapped, reversed,
}
use go_codebase.Infrastructure.Debug.Cells.{get_or, set, length-set, at-set, at-get_or}

at-swapped :
    (i j : ℕ) (es : List DebugEntry) (k : ℕ)
    → i < length es
    → j < length es
    → at k (swapped i j es) ≡ (if k == j then at i es else if k == i then at j es else at k es)
at-swapped i j es k hi hj = ground (
  arith,
  at-set (set es i (get_or es j zero_entry)) j (get_or es i zero_entry) k,
  at-set es i (get_or es j zero_entry) k,
  length-set es i (get_or es j zero_entry),
  at-get_or es i zero_entry,
  at-get_or es j zero_entry,
)

length-swapped : (i j : ℕ) (es : List DebugEntry) → length (swapped i j es) ≡ length es
length-swapped i j es =
    length-set (set es i (get_or es j zero_entry)) j (get_or es i zero_entry)
    ∙ length-set es i (get_or es j zero_entry)

-- Where the indices have met, one entry at most is left, and stays.
at-middle :
    (i j : ℕ) (es : List DebugEntry) (k : ℕ)
    → ltb i j ≡ false
    → (if leb i k && leb k j then at (i + j - k) es else at k es) ≡ at k es
at-middle i j es k met = elim (Bool-cases (leb i k && leb k j)) [
  | inl left ↦ rw left (ap (λ m. at m es) (ground arith))
  | inr gone ↦ rw gone refl
]

at-reversed :
    (fuel i j : ℕ) (es : List DebugEntry) (k : ℕ)
    → j < fuel + i
    → j < length es
    → at k (reversed fuel i j es) ≡ (if leb i k && leb k j then at (i + j - k) es else at k es)
unfolding reversed
at-reversed zero i j es k enough within = ground arith
at-reversed (suc fuel) i j es k enough within = elim (Bool-cases (ltb i j)) [
  | inl more ↦ rw more (
      ground (
        arith,
        at-reversed fuel (i + 1) (j - 1) (swapped i j es) k,
        length-swapped i j es,
        at-swapped i j es k,
        at-swapped i j es (i + 1 + (j - 1) - k),
      ))
  | inr done ↦ rw done (sym (at-middle i j es k done))
]

pub length-copied : (b : DebugBuffer) (start i n : ℕ) → length (copied b start i n) ≡ n
unfolding copied
length-copied b start i zero = refl
length-copied b start i (suc n) = ap suc (length-copied b start (suc i) n)

pub at-copied :
    (b : DebugBuffer) (start i n k : ℕ)
    → at k (copied b start i n)
      ≡ (if ltb k n then some (get_or b.buf ((start + (i + k)) % b.cap) zero_entry) else none)
unfolding copied
at-copied b start i zero k = ground arith
at-copied b start i (suc n) zero = let same : i + 0 ≡ i = omega arith in rw same (ground arith)
at-copied b start i (suc n) (suc k) =
    let same : i + suc k ≡ suc i + k = omega arith in
    rw same (ground (arith, at-copied b start (suc i) n k))

pub at-none : (es : List DebugEntry) (k : ℕ) → length es ≤ k → at k es ≡ none
at-none [] k h = refl
at-none (e ∷ es) zero h = absurd (omega arith)
at-none (e ∷ es) (suc k) h = at-none es k (omega arith)

pub at-reversed_all :
    (es : List DebugEntry) (k : ℕ)
    → at k (reversed (length es) 0 (length es - 1) es)
      ≡ (if ltb k (length es) then at (length es - 1 - k) es else none)
unfolding reversed
at-reversed_all [] k = ground arith
at-reversed_all (e ∷ es) k =
    let n = suc (length es) in
    ground (arith, at-reversed n 0 (n - 1) (e ∷ es) k, at-none (e ∷ es) k)
