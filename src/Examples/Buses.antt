-- ===== src/Examples/Buses.antt =====
-- Events and commands at concrete buses. The state is the list of the mails that were sent.
use go_codebase.Prelude.{str_eq, if◌then◌else◌, ◌≡◌, String, List, [], ◌∷◌, ◌++◌}
use go_codebase.Core.Proc.{Proc, ok, ◌>>◌, return}
use go_codebase.Auth.Entity
use go_codebase.Auth.Entity.{user_registered}
use go_codebase.Shared.Events.{
  Carried, Emailer, new_in_memory_event_bus, publish, on_user_registered, auth_event,
}
use go_codebase.Shared.Delivery.{Subscription, subscribe_all, publish_in_order}

abbrev posted : String → Proc (List String) (Unit {0})
posted mail sent = (ok tt, sent ++ mail ∷ [])

abbrev pub mailer : Emailer (List String)
mailer = record {
  send_verification = λ email name token. posted email;
  send_welcome = λ email name. posted email;
  send_password_reset = λ email name token. posted email;
}

abbrev pub registered : Entity.Event
registered = user_registered "ann@example.org" "Ann" "token"

abbrev mail_subscriptions : List (Subscription (List String) (Carried Entity.Event))
mail_subscriptions = ("auth.user.registered", on_user_registered mailer) ∷ []

publish_in_order_example :
    publish
      (subscribe_all
        (mail_subscriptions
          ++ ("auth.user.registered", λ e. posted "audit@example.org") ∷ mail_subscriptions)
        new_in_memory_event_bus)
      (auth_event registered)
    ≡ (publish (subscribe_all mail_subscriptions new_in_memory_event_bus) (auth_event registered)
        >> (if str_eq (auth_event registered).type_of "auth.user.registered"
            then posted "audit@example.org"
            else return tt)
        >> publish
            (subscribe_all mail_subscriptions new_in_memory_event_bus)
            (auth_event registered))
publish_in_order_example =
    publish_in_order mail_subscriptions mail_subscriptions "auth.user.registered"
      (λ e. posted "audit@example.org") (auth_event registered)
