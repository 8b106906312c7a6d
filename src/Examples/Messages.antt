-- ===== src/Examples/Messages.antt =====
-- A message of authentication on the NATS bus. The state is the list of the mails that were sent.
use go_codebase.Prelude.{◌≡◌, refl, none, some, []}
use go_codebase.Auth.Entity
use go_codebase.Shared.Events.{
  Registry, register_payload, create_payload, new_in_memory_event_bus, auth_event,
}
use go_codebase.Shared.Events
use go_codebase.Shared.Delivery.{mailed}
use go_codebase.Shared.Nats.{
  Json, nak, payload_of, new_nats_event_bus, on_message, register_email_handler,
}
use go_codebase.Shared.Nats.Mails.{mail_refused}
use go_codebase.Examples.Buses.{mailer, registered}

-- The texts of one event.
abbrev texts : Json Entity.Event
texts = record { marshal = λ p. some "ann"; unmarshal = λ old text. some registered }

abbrev known : Registry Entity.Event
known = register_payload "auth.user.registered" registered (λ t. none)

mail_refused_example :
    (Events.publish
        (Events.register_email_handler mailer new_in_memory_event_bus)
        (auth_event registered)
        []
      ≡ mailed mailer registered [])
    × (on_message texts known
          (register_email_handler mailer new_nats_event_bus)
          (auth_event registered).type_of
          "ann"
          []
        ≡ (nak, []))
unfolding payload_of register_payload create_payload auth_event
mail_refused_example = mail_refused mailer texts known registered registered "ann" [] refl refl
