-- ===== src/Todo/Stable.antt =====
-- Facts about the table of todos that its statements keep are kept by every request, whatever the
-- requests return and wherever the database fails.
use go_codebase.Prelude.{
  ℕ, String, ◌≡◌, refl, Bool, true, false, Option, none, some, find, arith, str_eq, Option-cases,
  inl, inr,
}
use go_codebase.Core.Errors.{sentinel, todo_not_found}
use go_codebase.Core.Proc.{ok, ◌>>=◌, on_error, Keeps, Keeps-bind_where}
use go_codebase.Core.Runtime.{Env, World}
use go_codebase.Core.Runtime.Preserves.{On, Safe, world_rules}
use go_codebase.Todo.Entity.{Todo, TodoEvent, new_todo, revise, complete}
use go_codebase.Todo.Repository.{
  TodoRecord, Table, Action, matches, todo_of, insert_todo, update_todo, soft_delete_todo, found,
  require_row,
}
use go_codebase.Todo.Queries.{create, get_by_id, update, delete}
use go_codebase.Todo.Service.{
  create_titled, create_todo, update_todo_of, delete_todo, complete_open, complete_todo,
  handle_create, handle_update, handle_complete, handle_delete,
}

-- The statements keep `P` of the table when the todo that they write is `Good`, and the todos that
-- are read, made, revised and completed are.
pub record Stable (P : Table → Type 0) (Good : Todo → Type 0) : Type 0 where
  pub inserts : (kept : ℕ → ℕ) (t : Todo) → Good t → Safe P (insert_todo kept t)
  pub updates : (kept : ℕ → ℕ) (t : Todo) → Good t → Safe P (update_todo kept t)
  pub deletes : (now id : ℕ) → Safe P (soft_delete_todo now id)
  pub reads :
      (rows : Table) (id : ℕ) (r : TodoRecord)
      → P rows
      → find (matches id) rows ≡ some r
      → Good (todo_of r)
  pub makes :
      (id now : ℕ) (title description : String)
      → str_eq title "" ≡ false
      → Good (new_todo id now title description)
  pub revises :
      (now : ℕ) (title description : String) (t : Todo)
      → Good t
      → Good (revise now title description t)
  pub completes : (now : ℕ) (t : Todo) → Good t → Good (complete now t)

module _ {P : Table → Type 0} (env : Env) where
  found-Keeps : (row : Option TodoRecord) → Keeps (On P) (found row)
  found-Keeps none = search world_rules
  found-Keeps (some row) = search world_rules

  require_row-Keeps : (present : Bool) → Keeps (On P) (require_row present)
  require_row-Keeps true = search world_rules
  require_row-Keeps false = search world_rules

  pub get_by_id-Keeps : (id : ℕ) → Keeps (On P) (get_by_id env id)
  unfolding get_by_id
  get_by_id-Keeps id = search (world_rules, found-Keeps)

-- The row behind a todo that the repository returns.
get_by_id-ok :
    (env : Env) (id : ℕ) (w : World Table TodoEvent) (t : Todo)
    → (on_error (get_by_id env id) (λ _. sentinel todo_not_found) w).0 ≡ ok t
    → (r : TodoRecord) × (find (matches id) w.db ≡ some r) × (t ≡ todo_of r)
unfolding get_by_id
get_by_id-ok env id w t h = elim (Option-cases (find (matches id) w.db)) [
  | inl e ↦ absurd (ground arith)
  | inr (r, e) ↦ (r, e, ground arith)
]

module _ {P : Table → Type 0} {Good : Todo → Type 0} (s : Stable P Good) (env : Env) where
  create-Keeps : (t : Todo) → Good t → Keeps (On P) (create env t)
  unfolding create
  create-Keeps t good = search (world_rules, s.inserts env.timestamptz t good)

  update-Keeps : (t : Todo) → Good t → Keeps (On P) (update env t)
  unfolding update
  update-Keeps t good =
      search (world_rules, s.updates env.timestamptz t good, require_row-Keeps) depth 8

  delete-Keeps : (id : ℕ) → Keeps (On P) (delete env id)
  unfolding delete
  delete-Keeps id = search (world_rules, s.deletes, require_row-Keeps) depth 8

  -- A step that goes on with the todo that the repository returns.
  with_todo :
      {B : Type 0} (id : ℕ) (f : Todo → Action B)
      → ((t : Todo) → Good t → Keeps (On P) (f t))
      → Keeps (On P) (on_error (get_by_id env id) (λ _. sentinel todo_not_found) >>= f)
  with_todo id f hf =
      Keeps-bind_where (on_error (get_by_id env id) (λ _. sentinel todo_not_found)) f
        (search (world_rules, get_by_id-Keeps env))
        (λ w h t e.
          let (r, there, same) = get_by_id-ok env id w t e in
          rw (same) (s.reads w.db id r h.tables there))
        hf

  create_titled-Keeps :
      (b : Bool) (title description : String)
      → str_eq title "" ≡ b
      → Keeps (On P) (create_titled env b title description)
  create_titled-Keeps true title description e = search world_rules
  create_titled-Keeps false title description e =
      let made : (id now : ℕ) → Good (new_todo id now title description) =
        λ id now. s.makes id now title description e in
      search (world_rules, create-Keeps, made) depth 8

  create_todo-Keeps :
      (title description : String) → Keeps (On P) (create_todo env title description)
  unfolding create_todo
  create_todo-Keeps title description = create_titled-Keeps (str_eq title "") title description refl

  update_todo-Keeps :
      (id : ℕ) (title description : String) → Keeps (On P) (update_todo_of env id title description)
  unfolding update_todo_of
  update_todo-Keeps id title description = with_todo id _ (λ t good.
      let kept : (now : ℕ) → Good (revise now title description t) =
        λ now. s.revises now title description t good in
      search (world_rules, update-Keeps, kept) depth 8)

  complete_open-Keeps : (b : Bool) (t : Todo) → Good t → Keeps (On P) (complete_open env b t)
  complete_open-Keeps true t good = search world_rules
  complete_open-Keeps false t good =
      let kept : (now : ℕ) → Good (complete now t) = λ now. s.completes now t good in
      search (world_rules, update-Keeps, kept) depth 8

  complete_todo-Keeps : (id : ℕ) → Keeps (On P) (complete_todo env id)
  unfolding complete_todo
  complete_todo-Keeps id = with_todo id _ (λ t good. complete_open-Keeps t.completed t good)

  delete_todo-Keeps : (id : ℕ) → Keeps (On P) (delete_todo env id)
  unfolding delete_todo
  delete_todo-Keeps id = search (world_rules, get_by_id-Keeps env, delete-Keeps) depth 8

  pub handle_create-Keeps :
      (title description : String) → Keeps (On P) (handle_create env title description)
  unfolding handle_create
  handle_create-Keeps title description = search (world_rules, create_todo-Keeps) depth 8

  pub handle_update-Keeps :
      (id : ℕ) (title description : String) → Keeps (On P) (handle_update env id title description)
  unfolding handle_update
  handle_update-Keeps id title description = search (world_rules, update_todo-Keeps) depth 8

  pub handle_complete-Keeps : (id : ℕ) → Keeps (On P) (handle_complete env id)
  unfolding handle_complete
  handle_complete-Keeps id = search (world_rules, complete_todo-Keeps) depth 8

  pub handle_delete-Keeps : (id : ℕ) → Keeps (On P) (handle_delete env id)
  unfolding handle_delete
  handle_delete-Keeps id = search (world_rules, delete_todo-Keeps) depth 8
