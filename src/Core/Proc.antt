-- ===== src/Core/Proc.antt =====
-- Go functions that change shared state and may return an error. What was written before an
-- error stays written, so the state comes back beside the error too.
pub mod Ensures
use go_codebase.Prelude.{◌≡◌, refl, Bool, true, false, if◌then◌else◌}
use go_codebase.Core.Errors.{GoError}

pub data Result {ℓ} (A : Type ℓ) : Type ℓ where
  ok : A → Result A
  err : GoError → Result A

abbrev pub Proc : Type 0 → Type 0 → Type 0
Proc S A = S → Result A × S

abbrev pub follow : {S A B : Type 0} → Result A × S → (A → Proc S B) → Result B × S
follow (ok a, s) f = f a s
follow (err e, s) f = (err e, s)

infixl 5 ◌>>=◌ ◌>>◌
abbrev pub ◌>>=◌ : {S A B : Type 0} → Proc S A → (A → Proc S B) → Proc S B
◌>>=◌ m f s = follow (m s) f

abbrev pub ◌>>◌ : {S A B : Type 0} → Proc S A → Proc S B → Proc S B
m >> k = m >>= λ _. k

abbrev pub return : {S A : Type 0} → A → Proc S A
return a s = (ok a, s)

abbrev pub fail : {S A : Type 0} → GoError → Proc S A
fail e s = (err e, s)

-- `if err != nil { return nil, f(err) }`
abbrev pub mapped : {S A : Type 0} → (GoError → GoError) → Result A × S → Result A × S
mapped f (ok a, s) = (ok a, s)
mapped f (err e, s) = (err (f e), s)

abbrev pub on_error : {S A : Type 0} → Proc S A → (GoError → GoError) → Proc S A
on_error m f s = mapped f (m s)

-- `v, err := m()` where the code goes on in both cases.
abbrev pub attempt : {S A : Type 0} → Proc S A → Proc S (Result A)
attempt m s = let (r, s') = m s in (ok r, s')

-- `_ = m()`
abbrev pub ignore : {S A : Type 0} → Proc S A → Proc S (Unit {0})
ignore m s = let (r, s') = m s in (ok tt, s')

mapped-snd : {S A : Type 0} (f : GoError → GoError) (r : Result A × S) → (mapped f r).1 ≡ r.1
mapped-snd f (ok a, s) = refl
mapped-snd f (err e, s) = refl

-- Every run of `m` that starts where `P` holds ends where `P` holds, with or without an error.
pub record Keeps {S A : Type 0} (P : S → Type 0) (m : Proc S A) : Type 0 where
  pub at : (s : S) → P s → P (m s).1

module _ {S A : Type 0} {P : S → Type 0} where
  pub Keeps-return : (a : A) → Keeps P (return {S = S} a)
  Keeps-return a = record { at = λ s h. h }

  pub Keeps-fail : (e : GoError) → Keeps P (fail {S = S} {A = A} e)
  Keeps-fail e = record { at = λ s h. h }

  pub Keeps-if : (b : Bool) (m n : Proc S A) → Keeps P m → Keeps P n → Keeps P (if b then m else n)
  Keeps-if true m n hm hn = hm
  Keeps-if false m n hm hn = hn

  pub Keeps-on_error : (m : Proc S A) (f : GoError → GoError) → Keeps P m → Keeps P (on_error m f)
  Keeps-on_error m f h = record { at = λ s p. rw (mapped-snd f (m s)) (h.at s p) }

  pub Keeps-attempt : (m : Proc S A) → Keeps P m → Keeps P (attempt m)
  Keeps-attempt m h = record { at = λ s p. h.at s p }

  pub Keeps-ignore : (m : Proc S A) → Keeps P m → Keeps P (ignore m)
  Keeps-ignore m h = record { at = λ s p. h.at s p }

module _ {S A B : Type 0} {P : S → Type 0} where
  follow-snd :
      (r : Result A × S) (f : A → Proc S B) → ((a : A) → Keeps P (f a)) → P r.1 → P (follow r f).1
  follow-snd (ok a, s) f hf h = (hf a).at s h
  follow-snd (err e, s) f hf h = h

  pub Keeps-bind :
      (m : Proc S A) (f : A → Proc S B) → Keeps P m → ((a : A) → Keeps P (f a)) → Keeps P (m >>= f)
  Keeps-bind m f hm hf = record { at = λ s h. follow-snd (m s) f hf (hm.at s h) }

  follow-where :
      {Q : A → Type 0} (r : Result A × S) (f : A → Proc S B)
      → ((a : A) → r.0 ≡ ok a → Q a)
      → ((a : A) → Q a → Keeps P (f a))
      → P r.1
      → P (follow r f).1
  follow-where (ok a, s) f q hf h = (hf a (q a refl)).at s h
  follow-where (err e, s) f q hf h = h

  -- The form for a second part that needs what the first one says of its result.
  pub Keeps-bind_where :
      {Q : A → Type 0} (m : Proc S A) (f : A → Proc S B)
      → Keeps P m
      → ((s : S) → P s → (a : A) → (m s).0 ≡ ok a → Q a)
      → ((a : A) → Q a → Keeps P (f a))
      → Keeps P (m >>= f)
  Keeps-bind_where m f hm hq hf = record {
    at = λ s h. follow-where (m s) f (hq s h) hf (hm.at s h);
  }

pub ruleset keeps_rules =
    (Keeps-return, Keeps-fail, Keeps-if, Keeps-on_error, Keeps-attempt, Keeps-ignore, Keeps-bind)

-- A run that returns a value has run both parts.
pub bind-eq-ok :
    {S A B : Type 0} (m : Proc S A) (f : A → Proc S B) (s : S) {b : B}
    → ((m >>= f) s).0 ≡ ok b
    → (a : A) × ((m s).0 ≡ ok a) × ((f a (m s).1).0 ≡ ok b)
bind-eq-ok {S} {A} {B} m f s {b} h = split (m s) h
  where
    split :
        (r : Result A × S) → (follow r f).0 ≡ ok b → (a : A) × (r.0 ≡ ok a) × ((f a r.1).0 ≡ ok b)
    split (ok a, s') e = (a, refl, e)
    split (err e, s') h = cc
