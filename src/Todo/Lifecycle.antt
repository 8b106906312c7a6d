-- ===== src/Todo/Lifecycle.antt =====
-- What the requests for one todo return, one after the other, where the database answers.
use go_codebase.Prelude.{
  ℕ, suc, String, ◌≡◌, refl, true, false, none, some, [], ◌∷◌, ◌++◌, ◌==◌, find, any, update_where,
  arith, str_eq,
}
use go_codebase.Core.Errors.{sentinel, todo_already_done}
use go_codebase.Core.Proc.{ok, err}
use go_codebase.Core.Runtime.{Env, World, reliable}
use go_codebase.Todo.Entity.{Todo, TodoEvent, new_todo, complete}
use go_codebase.Todo.Repository.{
  TodoRecord, Table, matches, record_of, revised, todo_of, insert_todo, update_todo,
}
use go_codebase.Todo.Queries.{create, get_by_id, update}
use go_codebase.Todo.Service.{get_todo, create_todo, complete_todo}

-- A live row that an update meets is found with the update's values.
find-update :
    (kept : ℕ → ℕ) (t : Todo) (id : ℕ) (rows : Table) (r : TodoRecord)
    → t.id ≡ id
    → find (matches id) rows ≡ some r
    → find (matches id) (update_where (matches id) (revised kept t) rows) ≡ some (revised kept t r)
find-update kept t id [] r e h = cc
find-update kept t id (x ∷ xs) r e h = ground (arith, find-update kept t id xs r e)

any_of_find :
    (id : ℕ) (rows : Table) (r : TodoRecord)
    → find (matches id) rows ≡ some r
    → any (matches id) rows ≡ true
any_of_find id [] r h = cc
any_of_find id (x ∷ xs) r h = ground (arith, any_of_find id xs r)

module _ (env : Env) (w : World Table TodoEvent) (r : TodoRecord)
    (stored : find (matches r.id) w.db ≡ some r) where
  abbrev now_completed : Todo
  now_completed = complete (env.now (suc w.tick)) (todo_of r)

  abbrev completed_table : Table
  completed_table = update_where (matches r.id) (revised env.timestamptz now_completed) w.db

  complete_todo-eq :
      r.completed ≡ false
      → complete_todo (reliable env) r.id w ≡ (
        ok now_completed,
        record { db = completed_table; tick = suc (suc (suc w.tick)); published = w.published },
      )
  unfolding complete_todo get_by_id update update_todo complete
  complete_todo-eq unfinished = rw (stored, unfinished, any_of_find r.id w.db r stored) refl

  abbrev after_complete : World Table TodoEvent
  after_complete = record {
    db = completed_table;
    tick = suc (suc (suc w.tick));
    published = w.published;
  }

  complete_again :
      (n : ℕ)
      → complete_todo (reliable env) r.id (record after_complete { tick = n })
        ≡ (err (sentinel todo_already_done), record after_complete { tick = suc n })
  unfolding complete_todo get_by_id complete
  complete_again n = rw (find-update env.timestamptz now_completed r.id w.db r refl stored) refl

-- Where the database answers, completing a stored, live todo that is not completed returns it
-- completed, and completing it a second time is refused as already done and changes no row.
pub complete_once :
    (env : Env) (w : World Table TodoEvent) (r : TodoRecord)
    → find (matches r.id) w.db ≡ some r
    → r.completed ≡ false
    → (t : Todo) × ((complete_todo (reliable env) r.id w).0 ≡ ok t)
      × (t.completed ≡ true)
      × ((complete_todo (reliable env) r.id (complete_todo (reliable env) r.id w).1).0
          ≡ err (sentinel todo_already_done))
      × ((complete_todo (reliable env) r.id (complete_todo (reliable env) r.id w).1).1.db
          ≡ (complete_todo (reliable env) r.id w).1.db)
unfolding complete
complete_once env w r stored unfinished =
    let first = complete_todo-eq env w r stored unfinished in
    let again = complete_again env w r stored (suc (suc (suc w.tick))) in
    (
      now_completed env w r stored,
      rw (first) refl,
      refl,
      rw (first, again) refl,
      rw (first, again) refl,
    )

find-append :
    (id : ℕ) (rows : Table) (r : TodoRecord)
    → any (λ o. o.id == id) rows ≡ false
    → matches id r ≡ true
    → find (matches id) (rows ++ r ∷ []) ≡ some r
find-append id [] r h e = ground arith
find-append id (x ∷ xs) r h e = ground (arith, find-append id xs r)

-- A todo with its times as the columns keep them.
abbrev pub as_kept : (kept : ℕ → ℕ) → Todo → Todo
as_kept kept t = record t {
  entity = record t.entity {
    created_at = kept t.created_at;
    updated_at = kept t.updated_at;
    deleted_at = none;
  };
}

-- Where the database answers, a todo that is created with a title and under an identifier of no row
-- is returned by the next request for it as the creation returned it, but with its two times as the
-- columns keep them, and not deleted.
pub create_then_get :
    (env : Env) (title description : String) (w : World Table TodoEvent)
    → str_eq title "" ≡ false
    → any (λ o. o.id == env.uuid w.tick) w.db ≡ false
    → ((create_todo (reliable env) title description w).0
        ≡ ok (new_todo (env.uuid w.tick) (env.now (suc w.tick)) title description))
      × ((get_todo
            (reliable env)
            (env.uuid w.tick)
            (create_todo (reliable env) title description w).1).0
          ≡ ok (
              as_kept env.timestamptz
                (new_todo (env.uuid w.tick) (env.now (suc w.tick)) title description)))
unfolding create_todo create insert_todo new_todo get_todo get_by_id
create_then_get env title description w titled fresh =
    let t = new_todo (env.uuid w.tick) (env.now (suc w.tick)) title description in
    let there : find (matches t.id) (w.db ++ record_of env.timestamptz t ∷ [])
        ≡ some (record_of env.timestamptz t) =
      find-append t.id w.db (record_of env.timestamptz t) fresh (ground arith) in
    (rw (titled, fresh) refl, rw (titled, fresh, there) refl)
