-- ===== src/Todo/Entity.antt =====
-- internal/todo/domain/entity/todo.go, domain/event/todo_events.go and
-- domain/specification/todo_specification.go. `time.Now()` and `uuid.New()` are arguments.
use go_codebase.Prelude.{ℕ, String, Bool, true, false, not, if◌then◌else◌, str_eq}
use go_codebase.Core.Entity.{Entity, new_entity, touch}

pub record Todo : Type 0 where
  pub entity : Entity
  pub open entity use *
  pub title : String
  pub description : String
  pub completed : Bool

unfoldable pub new_todo : (uuid now : ℕ) (title description : String) → Todo
unfolding new_entity
new_todo uuid now title description = record {
  entity = new_entity uuid now;
  title = title;
  description = description;
  completed = false;
}

unfoldable pub complete : (now : ℕ) → Todo → Todo
unfolding touch
complete now t = record t { completed = true; entity = touch now t.entity }

-- `Update`: an empty text leaves the field as it is.
unfoldable pub revise : (now : ℕ) (title description : String) → Todo → Todo
unfolding touch
revise now title description t = record t {
  title = if str_eq title "" then t.title else title;
  description = if str_eq description "" then t.description else description;
  entity = touch now t.entity;
}

-- The payloads, with the event types' names as constructors.
pub data TodoEvent : Type 0 where
  todo_created : (id : ℕ) (title : String) (created_at : ℕ) → TodoEvent
  todo_updated : (id : ℕ) (title : String) (updated_at : ℕ) → TodoEvent
  todo_completed : (id : ℕ) (title : String) (updated_at : ℕ) → TodoEvent
  todo_deleted : (id deleted_at : ℕ) → TodoEvent

pub data Specification : Type 0 where
  not_completed_spec completed_spec : Specification
  title_contains_spec : (substring : String) → Specification

unfoldable pub is_satisfied_by : Specification → Todo → Bool
is_satisfied_by not_completed_spec t = not t.completed
is_satisfied_by completed_spec t = t.completed
is_satisfied_by (title_contains_spec substring) t =
    if str_eq substring "" then true else not (str_eq t.title "")
