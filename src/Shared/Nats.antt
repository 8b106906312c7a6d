-- ===== src/Shared/Nats.antt =====
-- internal/shared/events/nats_event_bus.go. JetStream is a parameter: `js_publish` hands it a
-- message, and it calls the callback of a subscription with each message until the callback
-- acknowledges it. `S` is the handlers' state, `P` the type of a payload.
pub mod Mails
use Prim.Native.String.{◌++◌ as append}
use go_codebase.Prelude.{
  ℕ, zero, suc, String, Bool, Option, none, some, List, [], ◌∷◌, ◌++◌, if◌then◌else◌, str_eq,
}
use go_codebase.Core.Errors.{plain}
use go_codebase.Core.Proc.{Result, ok, err, Proc, fail}
use go_codebase.Auth.Entity
use go_codebase.Shared.Events.{
  Emailer, on_user_registered, on_email_verified, on_password_reset_requested, BusEvent, Carried,
  value, pointer, Handler, Registry, create_payload, call_all,
}

-- The handlers, and the subjects of the subscriptions that were started.
pub record NatsEventBus (S P : Type 0) : Type 0 where
  pub handlers : String → List (Handler S (Carried P))
  pub subjects : List String

-- `json.Marshal`, and `json.Unmarshal` into the value that the registry made, with none for an
-- error.
pub record Json (P : Type 0) : Type 0 where
  pub marshal : P → Option String
  pub unmarshal : (prototype : P) → String → Option P

abbrev pub subject_of : (event_type : String) → String
subject_of event_type = append "events." event_type

pub data Verdict : Type 0 where
  ack nak : Verdict

module _ {S P : Type 0} where
  unfoldable pub new_nats_event_bus : NatsEventBus S P
  new_nats_event_bus = record { handlers = λ t. []; subjects = [] }

  abbrev started : List (Handler S (Carried P)) → (event_type : String) → List String → List String
  started [] event_type subjects = subjects ++ subject_of event_type ∷ []
  started (h ∷ hs) event_type subjects = subjects

  unfoldable pub subscribe :
      (event_type : String) → Handler S (Carried P) → NatsEventBus S P → NatsEventBus S P
  subscribe event_type h bus = record {
    handlers = λ t. if str_eq t event_type then bus.handlers t ++ h ∷ [] else bus.handlers t;
    subjects = started (bus.handlers event_type) event_type bus.subjects;
  }

abbrev pointer_to : {P : Type 0} → Option P → Option (Carried P)
pointer_to none = none
pointer_to (some p) = some (pointer p)

-- The payload of a message, if the registry knows the type and the text can be read: the pointer
-- that the registry made, to what was read.
unfoldable pub payload_of :
    {P : Type 0} → Json P → Registry P → (event_type text : String) → Option (Carried P)
payload_of json registry event_type text = elim (create_payload registry event_type) [
  | none ↦ none
  | some prototype ↦ pointer_to (json.unmarshal prototype text)
]

-- `if err != nil { Nak; return }`
abbrev pub unless_failed : {S : Type 0} → Result (Unit {0}) × S → (S → Verdict × S) → Verdict × S
unless_failed (ok u, s) rest = rest s
unless_failed (err e, s) rest = (nak, s)

-- The loop of the callback.
abbrev pub handle_all :
    {S P : Type 0} → List (Handler S (Carried P)) → BusEvent (Carried P) → S → Verdict × S
handle_all [] e s = (ack, s)
handle_all (h ∷ hs) e s = unless_failed (h e s) (handle_all hs e)

-- JSON is the same for a struct and a pointer to it.
abbrev pub pointed : {P : Type 0} → Carried P → P
pointed (value p) = p
pointed (pointer p) = p

module _ {S P : Type 0} (json : Json P) where
  unfoldable pub publish :
      (js_publish : (subject text : String) → Proc S (Unit {0})) → Handler S (Carried P)
  publish js_publish e = elim (json.marshal (pointed e.payload)) [
    | none ↦ fail (plain "json: marshal")
    | some text ↦ js_publish (subject_of e.type_of) text
  ]

  -- The callback of `startSubscription`. A message that cannot be read is acknowledged too.
  unfoldable pub on_message :
      Registry P → NatsEventBus S P → (event_type text : String) → S → Verdict × S
  on_message registry bus event_type text s = elim (payload_of json registry event_type text) [
    | none ↦ (ack, s)
    | some p ↦ handle_all (bus.handlers event_type) (record { type_of = event_type; payload = p }) s
  ]

-- `EmailHandler.Register` on this bus.
unfoldable pub register_email_handler :
    {S : Type 0} → Emailer S → NatsEventBus S Entity.Event → NatsEventBus S Entity.Event
unfolding subscribe
register_email_handler mailer bus =
    subscribe "auth.user.password_reset_requested" (on_password_reset_requested mailer) (
      subscribe "auth.user.email_verified" (on_email_verified mailer)
        (subscribe "auth.user.registered" (on_user_registered mailer) bus))
