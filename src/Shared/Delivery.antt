-- ===== src/Shared/Delivery.antt =====
-- Which handlers the event bus calls, and with what effect.
use mathlib.Core.Path.{fun_ext}
use go_codebase.Prelude.{
  ◌≡◌, refl, sym, ap, ◌∙◌, String, List, [], ◌∷◌, ◌++◌, str_eq, if◌then◌else◌, Bool-cases, inl, inr,
}
use go_codebase.Core.Proc.{Result, ok, err, Proc, follow, ◌>>◌, return}
use go_codebase.Auth.Entity
use go_codebase.Auth.Entity.{user_registered, email_verified, password_reset_requested}
use go_codebase.Shared.Events.{
  BusEvent, Handler, InMemoryEventBus, new_in_memory_event_bus, call_all, publish, subscribe,
  Emailer, on_user_registered, on_email_verified, on_password_reset_requested,
  register_email_handler, auth_event,
}

abbrev pub Subscription : Type 0 → Type 0 → Type 0
Subscription S P = String × Handler S P

-- The calls of Subscribe, one after the other.
unfoldable pub subscribe_all :
    {S P : Type 0} → List (Subscription S P) → InMemoryEventBus S P → InMemoryEventBus S P
unfolding subscribe
subscribe_all [] bus = bus
subscribe_all ((t, h) ∷ xs) bus = subscribe_all xs (subscribe t h bus)

-- The handlers of a type, in the order of their subscriptions.
abbrev of_type : {S P : Type 0} → String → List (Subscription S P) → List (Handler S P)
of_type t [] = []
of_type t ((u, h) ∷ xs) = if str_eq t u then h ∷ of_type t xs else of_type t xs

append_assoc : {A : Type 0} (xs ys zs : List A) → (xs ++ ys) ++ zs ≡ xs ++ (ys ++ zs)
append_assoc [] ys zs = refl
append_assoc (x ∷ xs) ys zs = ap (λ r. x ∷ r) (append_assoc xs ys zs)

append_nil : {A : Type 0} (xs : List A) → xs ++ [] ≡ xs
append_nil [] = refl
append_nil (x ∷ xs) = ap (λ r. x ∷ r) (append_nil xs)

follow_assoc :
    {S : Type 0} (r : Result (Unit {0}) × S) (m n : Proc S (Unit {0}))
    → follow r (λ _. m >> n) ≡ follow (follow r (λ _. m)) (λ _. n)
follow_assoc (ok u, s) m n = refl
follow_assoc (err x, s) m n = refl

module _ {S P : Type 0} where
  handlers-subscribe_all :
      (xs : List (Subscription S P)) (bus : InMemoryEventBus S P) (t : String)
      → (subscribe_all xs bus).handlers t ≡ bus.handlers t ++ of_type t xs
  unfolding subscribe_all subscribe
  handlers-subscribe_all [] bus t = sym (append_nil (bus.handlers t))
  handlers-subscribe_all ((u, h) ∷ xs) bus t =
      handlers-subscribe_all xs (subscribe u h bus) t ∙ elim (Bool-cases (str_eq t u)) [
        | inl same ↦ rw same (append_assoc (bus.handlers t) (h ∷ []) (of_type t xs))
        | inr other ↦ rw other refl
      ]

  of_type-append :
      (t : String) (xs ys : List (Subscription S P))
      → of_type t (xs ++ ys) ≡ of_type t xs ++ of_type t ys
  of_type-append t [] ys = refl
  of_type-append t ((u, h) ∷ xs) ys = elim (Bool-cases (str_eq t u)) [
    | inl same ↦ rw same (ap (λ r. h ∷ r) (of_type-append t xs ys))
    | inr other ↦ rw other (of_type-append t xs ys)
  ]

  call_all-append :
      (hs ks : List (Handler S P)) (e : BusEvent P)
      → call_all (hs ++ ks) e ≡ (call_all hs e >> call_all ks e)
  call_all-append [] ks e = refl
  call_all-append (h ∷ hs) ks e =
      rw (call_all-append hs ks e)
        (fun_ext (λ s. follow_assoc (h e s) (call_all hs e) (call_all ks e)))

module _ {S P : Type 0} (e : BusEvent P) where
  publish-subscribe_all :
      (xs : List (Subscription S P))
      → publish (subscribe_all xs new_in_memory_event_bus) e ≡ call_all (of_type e.type_of xs) e
  unfolding publish new_in_memory_event_bus
  publish-subscribe_all xs =
      ap (λ hs. call_all hs e) (handlers-subscribe_all xs new_in_memory_event_bus e.type_of)

  call_all-between :
      (hs : List (Handler S P)) (t : String) (h : Handler S P) (ys : List (Subscription S P))
      → call_all (hs ++ of_type e.type_of ((t, h) ∷ ys)) e ≡ (
          call_all hs e
          >> (if str_eq e.type_of t then h e else return tt)
          >> call_all (of_type e.type_of ys) e)
  call_all-between hs t h ys = elim (Bool-cases (str_eq e.type_of t)) [
    | inl same ↦ rw same (
        call_all-append hs (h ∷ of_type e.type_of ys) e
        ∙ fun_ext (λ s. follow_assoc (call_all hs e s) (h e) (call_all (of_type e.type_of ys) e)))
    | inr other ↦ rw other (
        call_all-append hs (of_type e.type_of ys) e
        ∙ fun_ext
            (λ s. follow_assoc (call_all hs e s) (return tt) (call_all (of_type e.type_of ys) e)))
  ]

-- A bus that was subscribed to any number of times publishes an event like this: it does what the
-- bus with the subscriptions before any one of them does; if that returns no error, it calls the
-- handler of that one, if it is for the type of the event; and if that returns no error, it does
-- what the bus with the subscriptions after it does. An error ends it, with the state as it is then.
pub publish_in_order :
    {S P : Type 0} (xs ys : List (Subscription S P)) (t : String) (h : Handler S P) (e : BusEvent P)
    → publish (subscribe_all (xs ++ (t, h) ∷ ys) new_in_memory_event_bus) e ≡ (
        publish (subscribe_all xs new_in_memory_event_bus) e
        >> (if str_eq e.type_of t then h e else return tt)
        >> publish (subscribe_all ys new_in_memory_event_bus) e)
publish_in_order xs ys t h e =
    rw
      (
        publish-subscribe_all e (xs ++ (t, h) ∷ ys),
        publish-subscribe_all e xs,
        publish-subscribe_all e ys,
        of_type-append e.type_of xs ((t, h) ∷ ys),
      )
      (call_all-between e (of_type e.type_of xs) t h ys)

abbrev pub mailed : {S : Type 0} → Emailer S → Entity.Event → Proc S (Unit {0})
mailed mailer (user_registered email name token) = mailer.send_verification email name token
mailed mailer (email_verified id email name) = mailer.send_welcome email name
mailed mailer (password_reset_requested email name token) =
    mailer.send_password_reset email name token

follow_return : {S : Type 0} (r : Result (Unit {0}) × S) → follow r (λ u s. (ok tt, s)) ≡ r
follow_return (ok u, s) = refl
follow_return (err x, s) = refl

-- On a bus with the mail handler as its only subscriber, publishing an event of authentication
-- sends the one mail that belongs to it, with the event's address, name and token, and returns what
-- the mailer returns.
pub publish-mails :
    {S : Type 0} (mailer : Emailer S) (event : Entity.Event) (s : S)
    → publish (register_email_handler mailer new_in_memory_event_bus) (auth_event event) s
      ≡ mailed mailer event s
unfolding publish register_email_handler subscribe new_in_memory_event_bus auth_event
    on_user_registered on_email_verified on_password_reset_requested
publish-mails mailer (user_registered email name token) s =
    follow_return (mailer.send_verification email name token s)
publish-mails mailer (email_verified id email name) s =
    follow_return (mailer.send_welcome email name s)
publish-mails mailer (password_reset_requested email name token) s =
    follow_return (mailer.send_password_reset email name token s)
