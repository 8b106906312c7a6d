-- ===== src/Core/Entity.antt =====
-- internal/core/domain/entity.go and aggregate.go. A time is the number of nanoseconds since the
-- epoch, in UTC, so `UTC()` changes nothing; an identifier is the number that its 16 bytes spell.
-- `time.Now()` and `uuid.New()` are arguments.
use go_codebase.Prelude.{
  ℕ, Bool, false, Option, none, some, List, [], ◌∷◌, ◌++◌, ◌==◌, ltb, length, is_some,
}

pub record Entity : Type 0 where
  pub id : ℕ
  pub created_at : ℕ
  pub updated_at : ℕ
  pub deleted_at : Option ℕ

unfoldable pub new_entity : (uuid now : ℕ) → Entity
new_entity uuid now = record { id = uuid; created_at = now; updated_at = now; deleted_at = none }

unfoldable pub touch : (now : ℕ) → Entity → Entity
touch now e = record e { updated_at = now }

unfoldable pub soft_delete : (now : ℕ) → Entity → Entity
soft_delete now e = record e { deleted_at = some now; updated_at = now }

unfoldable pub is_deleted : Entity → Bool
is_deleted e = is_some e.deleted_at

-- Both sides are pointers; a nil pointer equals nothing.
unfoldable pub equals : Option Entity → Option Entity → Bool
equals none other = false
equals (some e) none = false
equals (some e) (some other) = e.id == other.id

-- The events are of any type `E` that implements `DomainEvent`.
pub record AggregateRoot (E : Type 0) : Type 0 where
  pub entity : Entity
  pub events : List E

module _ {E : Type 0} where
  unfoldable pub new_aggregate_root : (uuid now : ℕ) → AggregateRoot E
  unfolding new_entity
  new_aggregate_root uuid now = record { entity = new_entity uuid now; events = [] }

  unfoldable pub record_event : (now : ℕ) → E → AggregateRoot E → AggregateRoot E
  unfolding touch
  record_event now event a = record a {
    events = a.events ++ event ∷ [];
    entity = touch now a.entity;
  }

  unfoldable pub pull_events : AggregateRoot E → List E × AggregateRoot E
  pull_events a = (a.events, record a { events = [] })

  unfoldable pub has_events : AggregateRoot E → Bool
  has_events a = ltb 0 (length a.events)

  unfoldable pub clear_events : AggregateRoot E → AggregateRoot E
  clear_events a = record a { events = [] }

  unfoldable pub touch_with : (t : ℕ) → AggregateRoot E → AggregateRoot E
  touch_with t a = record a { entity = record a.entity { updated_at = t } }
