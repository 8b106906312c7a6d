-- ===== src/Shared/Nats/Mails.antt =====
-- What becomes of the mails of authentication on the two buses.
use go_codebase.Prelude.{◌≡◌, refl, String, some}
use go_codebase.Auth.Entity
use go_codebase.Auth.Entity.{user_registered, email_verified, password_reset_requested}
use go_codebase.Shared.Events.{
  pointer, Registry, create_payload, Emailer, on_user_registered, on_email_verified,
  on_password_reset_requested, auth_event, new_in_memory_event_bus,
}
use go_codebase.Shared.Events
use go_codebase.Shared.Delivery.{mailed, publish-mails}
use go_codebase.Shared.Nats.{
  Json, nak, payload_of, subscribe, new_nats_event_bus, on_message, register_email_handler,
}

payload-read :
    (json : Json Entity.Event) (registry : Registry Entity.Event) (t text : String)
    (prototype event : Entity.Event)
    → create_payload registry t ≡ some prototype
    → json.unmarshal prototype text ≡ some event
    → payload_of json registry t text ≡ some (pointer event)
unfolding payload_of
payload-read json registry t text prototype event known read = rw (payload_of, known, read) refl

-- On the bus in memory with the mail handler, publishing an event of authentication sends its mail
-- and returns what the mailer returns. On the NATS bus with the same handler, a message with the
-- type of the event that is read back whole, into the value that the registry makes for the type,
-- is refused, whatever the mailer does, and the state is as before: no mail is sent.
pub mail_refused :
    {S : Type 0} (mailer : Emailer S) (json : Json Entity.Event) (registry : Registry Entity.Event)
    (event prototype : Entity.Event) (text : String) (s : S)
    → create_payload registry (auth_event event).type_of ≡ some prototype
    → json.unmarshal prototype text ≡ some event
    → (Events.publish
          (Events.register_email_handler mailer new_in_memory_event_bus)
          (auth_event event)
          s
        ≡ mailed mailer event s)
      × (on_message json registry
            (register_email_handler mailer new_nats_event_bus)
            (auth_event event).type_of
            text
            s
          ≡ (nak, s))
unfolding on_message register_email_handler subscribe new_nats_event_bus auth_event
    on_user_registered on_email_verified on_password_reset_requested
mail_refused mailer json registry (user_registered email name token) prototype text s known read = (
  publish-mails mailer (user_registered email name token) s,
  rw
      (
        on_message,
        payload-read json registry _ text prototype (user_registered email name token) known read,
      )
      refl,
)
mail_refused mailer json registry (email_verified id email name) prototype text s known read = (
  publish-mails mailer (email_verified id email name) s,
  rw
      (
        on_message,
        payload-read json registry _ text prototype (email_verified id email name) known read,
      )
      refl,
)
mail_refused mailer json registry (password_reset_requested email name token) prototype text s known
      read =
    (
      publish-mails mailer (password_reset_requested email name token) s,
      rw
          (
            on_message,
            payload-read json registry _ text prototype (password_reset_requested email name token)
                known read,
          )
          refl,
    )
