-- ===== src/Core/Proc/Ensures.antt =====
-- What holds after a procedure that returned a value.
use go_codebase.Prelude.{◌≡◌, refl}
use go_codebase.Core.Errors.{GoError}
use go_codebase.Core.Proc.{Result, ok, err, Proc, follow, ◌>>=◌, mapped, on_error, Keeps}

-- Every run of `m` that starts where `P` holds and returns a value ends where `Q` holds.
pub record Ensures {S A : Type 0} (P Q : S → Type 0) (m : Proc S A) : Type 0 where
  pub at : (s : S) (a : A) → P s → (m s).0 ≡ ok a → Q (m s).1

module _ {S A : Type 0} where
  pub Ensures-of_Keeps : {P : S → Type 0} (m : Proc S A) → Keeps P m → Ensures P P m
  Ensures-of_Keeps m h = record { at = λ s a p _. h.at s p }

  mapped-Ensures :
      (Q : S → Type 0) (f : GoError → GoError) (r : Result A × S) (a : A)
      → ((a : A) → r.0 ≡ ok a → Q r.1)
      → (mapped f r).0 ≡ ok a
      → Q (mapped f r).1
  mapped-Ensures Q f (ok b, s) a h e = h b refl
  mapped-Ensures Q f (err x, s) a h e = cc

  pub Ensures-on_error :
      {P Q : S → Type 0} (m : Proc S A) (f : GoError → GoError)
      → Ensures P Q m
      → Ensures P Q (on_error m f)
  Ensures-on_error {Q} m f h = record {
    at = λ s a p e. mapped-Ensures Q f (m s) a (λ b e'. h.at s b p e') e;
  }

module _ {S A B : Type 0} where
  follow-Ensures :
      {R Q : S → Type 0} (r : Result A × S) (f : A → Proc S B) (b : B)
      → ((a : A) → Ensures R Q (f a))
      → ((a : A) → r.0 ≡ ok a → R r.1)
      → (follow r f).0 ≡ ok b
      → Q (follow r f).1
  follow-Ensures (ok a, s) f b hf hr e = (hf a).at s b (hr a refl) e
  follow-Ensures (err x, s) f b hf hr e = cc

  pub Ensures-bind :
      {P R Q : S → Type 0} (m : Proc S A) (f : A → Proc S B)
      → Ensures P R m
      → ((a : A) → Ensures R Q (f a))
      → Ensures P Q (m >>= f)
  Ensures-bind m f hm hf = record {
    at = λ s b p e. follow-Ensures (m s) f b hf (λ a e'. hm.at s a p e') e;
  }

  -- The form for a first part that keeps what holds.
  pub Ensures-bind_keep :
      {P Q : S → Type 0} (m : Proc S A) (f : A → Proc S B)
      → Keeps P m
      → ((a : A) → Ensures P Q (f a))
      → Ensures P Q (m >>= f)
  Ensures-bind_keep m f hm hf = Ensures-bind m f (Ensures-of_Keeps m hm) hf
