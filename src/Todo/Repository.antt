-- ===== src/Todo/Repository.antt =====
-- internal/todo/infrastructure/persistence/todo_repository.go, with the table of
-- migrations/001 and 009 and the statements of queries/todo.sql as functions on it.
use go_codebase.Prelude.{
  ℕ, String, Bool, true, false, not, ◌&&◌, Option, none, some, List, [], ◌∷◌, ◌++◌, ◌==◌,
  if◌then◌else◌, is_some, any, update_where,
}
use go_codebase.Core.Errors.{plain}
use go_codebase.Core.Proc.{Proc, return, fail}
use go_codebase.Core.Runtime.{World}
use go_codebase.Todo.Entity.{Todo, TodoEvent}
use go_codebase.Listing.{Keyed}

pub record TodoRecord : Type 0 where
  pub id : ℕ
  pub title : String
  pub description : String
  pub completed : Bool
  pub created_at : ℕ
  pub updated_at : ℕ
  pub deleted_at : Option ℕ
  pub tenant_id : String

abbrev pub Table : Type 0
Table = List TodoRecord

abbrev pub Action : Type 0 → Type 0
Action A = Proc (World Table TodoEvent) A

-- `id = $1 AND deleted_at IS NULL`
abbrev pub live : TodoRecord → Bool
live r = not (is_some r.deleted_at)

abbrev pub matches : ℕ → TodoRecord → Bool
matches id r = r.id == id && live r

-- The statement names no tenant, so the column gets its default, the empty text. `kept` is what a
-- TIMESTAMPTZ column keeps of a time.
abbrev pub record_of : (kept : ℕ → ℕ) → Todo → TodoRecord
record_of kept t = record {
  id = t.id;
  title = t.title;
  description = t.description;
  completed = t.completed;
  created_at = kept t.created_at;
  updated_at = kept t.updated_at;
  deleted_at = none;
  tenant_id = "";
}

unfoldable pub insert_todo : (kept : ℕ → ℕ) → Todo → Table → Option Table
insert_todo kept t rows =
    if any (λ o. o.id == t.id) rows then none else some (rows ++ record_of kept t ∷ [])

abbrev pub revised : (kept : ℕ → ℕ) → Todo → TodoRecord → TodoRecord
revised kept t r = record r {
  title = t.title;
  description = t.description;
  completed = t.completed;
  updated_at = kept t.updated_at;
}

unfoldable pub update_todo : (kept : ℕ → ℕ) → Todo → Table → Option Table
update_todo kept t rows = some (update_where (matches t.id) (revised kept t) rows)

abbrev pub deleted : (now : ℕ) → TodoRecord → TodoRecord
deleted now r = record r { deleted_at = some now; updated_at = now }

unfoldable pub soft_delete_todo : (now id : ℕ) → Table → Option Table
soft_delete_todo now id rows = some (update_where (matches id) (deleted now) rows)

-- The columns of a query's row.
abbrev pub todo_of : TodoRecord → Todo
todo_of r = record {
  entity = record {
    id = r.id;
    created_at = r.created_at;
    updated_at = r.updated_at;
    deleted_at = r.deleted_at;
  };
  title = r.title;
  description = r.description;
  completed = r.completed;
}

instance abbrev pub todo_keyed : Keyed TodoRecord
todo_keyed = record { id_of = λ r. r.id; created_of = λ r. r.created_at }

-- What a search takes from the database and from strings.NewReplacer.
pub record Matcher : Type 0 where
  -- `text ILIKE pattern`
  pub ilike : (text pattern : String) → Bool
  -- `"%" + replacer.Replace(query) + "%"`
  pub pattern_of : String → String

abbrev pub found : Option TodoRecord → Action Todo
found none = fail (plain "todo not found")
found (some r) = return (todo_of r)

abbrev pub require_row : Bool → Action (Unit {0})
require_row true = return tt
require_row false = fail (plain "todo not found")
