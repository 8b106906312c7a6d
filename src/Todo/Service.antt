-- ===== src/Todo/Service.antt =====
-- internal/todo/domain/service/todo_domain_service.go, and the handlers of application/command and
-- application/query with the mapper of application/mapper/todo_mapper.go.
use go_codebase.Prelude.{ℕ, String, Bool, true, false, str_eq}
use go_codebase.Core.Errors.{sentinel, todo_not_found, todo_already_done, invalid_title}
use go_codebase.Core.Proc.{◌>>=◌, ◌>>◌, return, fail, on_error}
use go_codebase.Core.Runtime.{Env, publish, read_clock, new_uuid}
use go_codebase.Todo.Entity.{
  Todo, new_todo, complete, revise, todo_created, todo_updated, todo_completed, todo_deleted,
}
use go_codebase.Todo.Repository.{Action}
use go_codebase.Todo.Queries.{create, get_by_id, update, delete}

module _ (env : Env) where
  abbrev pub create_titled : Bool → (title description : String) → Action Todo
  create_titled true title description = fail (sentinel invalid_title)
  create_titled false title description = do
    id ← new_uuid env
    now ← read_clock env
    let todo = new_todo id now title description
    create env todo
    return todo

  unfoldable pub create_todo : (title description : String) → Action Todo
  create_todo title description = create_titled (str_eq title "") title description

  -- The repository's error is dropped.
  unfoldable pub get_todo : ℕ → Action Todo
  get_todo id = on_error (get_by_id env id) (λ _. sentinel todo_not_found)

  unfoldable pub update_todo_of : ℕ → (title description : String) → Action Todo
  unfolding revise
  update_todo_of id title description = do
    todo ← on_error (get_by_id env id) (λ _. sentinel todo_not_found)
    now ← read_clock env
    let todo' = revise now title description todo
    update env todo'
    return todo'

  unfoldable pub delete_todo : ℕ → Action (Unit {0})
  delete_todo id = do on_error (get_by_id env id) (λ _. sentinel todo_not_found); delete env id

  abbrev pub complete_open : Bool → Todo → Action Todo
  complete_open true todo = fail (sentinel todo_already_done)
  complete_open false todo = do
    now ← read_clock env
    update env (complete now todo)
    return (complete now todo)

  unfoldable pub complete_todo : ℕ → Action Todo
  complete_todo id = do
    todo ← on_error (get_by_id env id) (λ _. sentinel todo_not_found)
    complete_open todo.completed todo

-- application/dto/todo_dto.go
pub record TodoResponse : Type 0 where
  pub id : ℕ
  pub title : String
  pub description : String
  pub completed : Bool
  pub created_at : ℕ
  pub updated_at : ℕ

unfoldable pub to_todo_response : Todo → TodoResponse
to_todo_response t = record {
  id = t.id;
  title = t.title;
  description = t.description;
  completed = t.completed;
  created_at = t.created_at;
  updated_at = t.updated_at;
}

-- The `Handle` methods: the service's call, the event, the response.
module _ (env : Env) where
  unfoldable pub handle_create : (title description : String) → Action TodoResponse
  unfolding to_todo_response
  handle_create title description = do
    todo ← create_todo env title description
    publish (todo_created todo.id todo.title todo.created_at)
    return (to_todo_response todo)

  unfoldable pub handle_update : ℕ → (title description : String) → Action TodoResponse
  unfolding to_todo_response
  handle_update id title description = do
    todo ← update_todo_of env id title description
    publish (todo_updated todo.id todo.title todo.updated_at)
    return (to_todo_response todo)

  unfoldable pub handle_complete : ℕ → Action TodoResponse
  unfolding to_todo_response
  handle_complete id = do
    todo ← complete_todo env id
    publish (todo_completed todo.id todo.title todo.updated_at)
    return (to_todo_response todo)

  unfoldable pub handle_delete : ℕ → Action (Unit {0})
  handle_delete id = do delete_todo env id; now ← read_clock env; publish (todo_deleted id now)

  unfoldable pub handle_get : ℕ → Action TodoResponse
  unfolding to_todo_response
  handle_get id = do todo ← get_todo env id; return (to_todo_response todo)
