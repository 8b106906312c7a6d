-- ===== src/Shared/Events.antt =====
-- internal/shared/events: events.go, registry.go and logging_event_bus.go, and the subscriber of
-- internal/authentication/infrastructure/eventbus. A handler is a procedure on any state `S`, with
-- payloads of any type `P`; one call of the bus at a time.
use Prim.Native.String.{◌++◌ as append}
use go_codebase.Prelude.{String, Option, some, List, [], ◌∷◌, ◌++◌, if◌then◌else◌, str_eq}
use go_codebase.Core.Errors.{GoError, plain}
use go_codebase.Core.Proc.{Result, ok, err, Proc, ◌>>◌, return, fail}
use go_codebase.Auth.Entity
use go_codebase.Auth.Entity.{user_registered, email_verified, password_reset_requested}

pub record BusEvent (P : Type 0) : Type 0 where
  pub type_of : String
  pub payload : P

-- A payload is an `interface{}` that holds a struct or a pointer to one, which are two types.
pub data Carried (P : Type 0) : Type 0 where
  value pointer : P → Carried P

abbrev pub Handler : Type 0 → Type 0 → Type 0
Handler S P = BusEvent P → Proc S (Unit {0})

-- `map[string][]Handler`, where a missing key is no handler.
pub record InMemoryEventBus (S P : Type 0) : Type 0 where
  pub handlers : String → List (Handler S P)

-- `log` is the logger's entry and the mark on the trace.
abbrev logged :
    {S : Type 0} → (log : GoError → S → S) → Result (Unit {0}) × S → Result (Unit {0}) × S
logged log (ok u, s) = (ok u, s)
logged log (err e, s) = (err e, log e s)

module _ {S P : Type 0} where
  unfoldable pub new_in_memory_event_bus : InMemoryEventBus S P
  new_in_memory_event_bus = record { handlers = λ t. [] }

  unfoldable pub subscribe :
      (event_type : String) → Handler S P → InMemoryEventBus S P → InMemoryEventBus S P
  subscribe event_type h bus = record {
    handlers = λ t. if str_eq t event_type then bus.handlers t ++ h ∷ [] else bus.handlers t;
  }

  -- `for _, h := range handlers`
  abbrev pub call_all : List (Handler S P) → Handler S P
  call_all [] e = return tt
  call_all (h ∷ hs) e = h e >> call_all hs e

  unfoldable pub publish : InMemoryEventBus S P → Handler S P
  publish bus e = call_all (bus.handlers e.type_of) e

  unfoldable pub publish_logged :
      (log : (event_type : String) → GoError → S → S) → InMemoryEventBus S P → Handler S P
  unfolding publish
  publish_logged log bus e s = logged (log e.type_of) (publish bus e s)

-- The registry of payload types: the last factory under a type wins. Every factory of the program
-- makes a pointer to an empty struct; `P` is what it points to.
abbrev pub Registry : Type 0 → Type 0
Registry P = String → Option P

unfoldable pub register_payload : {P : Type 0} → (event_type : String) → P → Registry P → Registry P
register_payload event_type payload r t = if str_eq t event_type then some payload else r t

unfoldable pub create_payload : {P : Type 0} → Registry P → String → Option P
create_payload r event_type = r event_type

-- The mailer of internal/core/domain.
pub record Emailer (S : Type 0) : Type 0 where
  pub send_verification : (email name token : String) → Proc S (Unit {0})
  pub send_welcome : (email name : String) → Proc S (Unit {0})
  pub send_password_reset : (email name token : String) → Proc S (Unit {0})

abbrev pub AuthHandler : Type 0 → Type 0
AuthHandler S = Handler S (Carried Entity.Event)

module _ {S : Type 0} (mailer : Emailer S) where
  abbrev invalid_payload : AuthHandler S
  invalid_payload e = fail (plain (append "invalid payload type for " e.type_of))

  unfoldable pub on_user_registered : AuthHandler S
  on_user_registered e = elim e.payload [
    | value (user_registered email name token) ↦ mailer.send_verification email name token
    | value (email_verified id email name) ↦ invalid_payload e
    | value (password_reset_requested email name token) ↦ invalid_payload e
    | pointer p ↦ invalid_payload e
  ]

  unfoldable pub on_email_verified : AuthHandler S
  on_email_verified e = elim e.payload [
    | value (user_registered email name token) ↦ invalid_payload e
    | value (email_verified id email name) ↦ mailer.send_welcome email name
    | value (password_reset_requested email name token) ↦ invalid_payload e
    | pointer p ↦ invalid_payload e
  ]

  unfoldable pub on_password_reset_requested : AuthHandler S
  on_password_reset_requested e = elim e.payload [
    | value (user_registered email name token) ↦ invalid_payload e
    | value (email_verified id email name) ↦ invalid_payload e
    | value (password_reset_requested email name token) ↦
        mailer.send_password_reset email name token
    | pointer p ↦ invalid_payload e
  ]

  unfoldable pub register_email_handler :
      InMemoryEventBus S (Carried Entity.Event) → InMemoryEventBus S (Carried Entity.Event)
  unfolding subscribe
  register_email_handler bus =
      subscribe "auth.user.password_reset_requested" on_password_reset_requested (
        subscribe "auth.user.email_verified" on_email_verified
          (subscribe "auth.user.registered" on_user_registered bus))

-- The event that the commands of authentication publish for a payload.
unfoldable pub auth_event : Entity.Event → BusEvent (Carried Entity.Event)
auth_event p = record {
  type_of = elim p [
    | user_registered email name token ↦ "auth.user.registered"
    | email_verified id email name ↦ "auth.user.email_verified"
    | password_reset_requested email name token ↦ "auth.user.password_reset_requested"
  ];
  payload = value p;
}
