-- ===== src/Examples/Todos.antt =====
-- Todos at concrete tables.
use go_codebase.Prelude.{
  ℕ, String, ◌≡◌, refl, true, false, some, none, List, [], ◌∷◌, arith, All, length, ◌≤◌,
}
use go_codebase.Cursor.{encode}
use go_codebase.Core.Errors.{sentinel, todo_not_found, todo_already_done}
use go_codebase.Core.Proc.{ok, err}
use go_codebase.Core.Runtime.{World, reliable}
use go_codebase.Todo.Entity.{Todo, TodoEvent, new_todo}
use go_codebase.Todo.Repository.{TodoRecord, Table, todo_of, todo_keyed}
use go_codebase.Listing.{Page, page_of, list_where}
use go_codebase.Todo.Queries.{get_all, get_by_id, delete}
use go_codebase.Todo.Service.{
  handle_delete, delete_todo, handle_get, complete_todo, create_todo, get_todo,
}
use go_codebase.Listing.Order.{Distinct}
use go_codebase.Listing.Paging.{Dated}
use go_codebase.Listing.Walk.{walk}
use go_codebase.Todo.Facts.{Titled, Unscoped}
use go_codebase.Todo.Paging.{walk_all}
use go_codebase.Todo.Trace.{Call, call_create, call_update, run_all}
use go_codebase.Todo.Deleted.{deleted_stays}
use go_codebase.Todo.Lifecycle.{complete_once, create_then_get, as_kept}
use go_codebase.Todo.Guarantees.{run_all-Valid, tenant_sees_nothing}
use go_codebase.Todo.Handlers.{Reply, list_http, todo_list}
use go_codebase.Http.Requests.{limit_of}
use go_codebase.Http.Response.{respond_cursor_paginated}
use go_codebase.Todo.Answers.{list_http-bounded}
use go_codebase.Examples.Sample.{counting}
use go_codebase.Examples.Unary.{unary, unary-IsFaithful}

abbrev row : (id created_at : ℕ) (title : String) → TodoRecord
row id created_at title = record {
  id = id;
  title = title;
  description = "";
  completed = false;
  created_at = created_at;
  updated_at = created_at;
  deleted_at = none;
  tenant_id = "";
}

abbrev three : Table
three = row 1 10 "a" ∷ row 2 30 "b" ∷ row 3 20 "c" ∷ []

abbrev world : World Table TodoEvent
world = record { db = three; tick = 40; published = [] }

three-Distinct : Distinct three
three-Distinct = ((refl, (refl, tt)), ((refl, tt), (tt, tt)))

three-Titled : All Titled three
three-Titled = (refl, (refl, (refl, tt)))

three-Unscoped : All Unscoped three
three-Unscoped = (refl, (refl, (refl, tt)))

three-Dated : All Dated three
three-Dated = (refl, (refl, (refl, tt)))

abbrev requests : List Call
requests = call_create "d" "" ∷ call_update 2 "" "more" ∷ []

run_all-Valid_example :
    Distinct (run_all counting requests world).db × All Titled (run_all counting requests world).db
run_all-Valid_example = run_all-Valid counting requests world three-Distinct three-Titled

deleted_stays_example :
    (handle_get counting 2 (run_all counting requests (handle_delete counting 2 world).1)).0
    ≡ err (sentinel todo_not_found)
unfolding handle_delete delete_todo get_by_id delete
deleted_stays_example = deleted_stays counting 2 world requests refl

complete_once_example :
    (t : Todo) × ((complete_todo (reliable counting) 3 world).0 ≡ ok t)
    × (t.completed ≡ true)
    × ((complete_todo (reliable counting) 3 (complete_todo (reliable counting) 3 world).1).0
        ≡ err (sentinel todo_already_done))
    × ((complete_todo (reliable counting) 3 (complete_todo (reliable counting) 3 world).1).1.db
        ≡ (complete_todo (reliable counting) 3 world).1.db)
complete_once_example = complete_once counting world (row 3 20 "c") refl refl

create_then_get_example :
    ((create_todo (reliable counting) "d" "e" world).0 ≡ ok (new_todo 140 41 "d" "e"))
    × ((get_todo (reliable counting) 140 (create_todo (reliable counting) "d" "e" world).1).0
        ≡ ok (as_kept (λ t. t) (new_todo 140 41 "d" "e")))
create_then_get_example = create_then_get counting "d" "e" world refl refl

-- Two rows a page.
walk_all_example :
    (walk (λ c. get_all (reliable counting) unary none "" c 2) 4 none world).0
    ≡ ok (todo_of (row 2 30 "b") ∷ todo_of (row 3 20 "c") ∷ todo_of (row 1 10 "a") ∷ [])
walk_all_example =
    walk_all counting unary none "" 1 three unary-IsFaithful three-Distinct three-Dated 3 40 []
      (omega arith)

tenant_sees_nothing_example :
    (page : Page Todo) × ((get_all
        (reliable counting)
        unary
        (some true)
        "acme"
        none
        20
        (run_all counting requests world)).0
      ≡ ok page)
    × (page.items ≡ [])
tenant_sees_nothing_example =
    tenant_sees_nothing counting unary "acme" 20 requests world refl three-Unscoped

abbrev in_order : List Todo
in_order = todo_of (row 2 30 "b") ∷ todo_of (row 3 20 "c") ∷ todo_of (row 1 10 "a") ∷ []

abbrev listing : Reply
unfolding respond_cursor_paginated
listing = respond_cursor_paginated (todo_list in_order) (record {
  next_cursor = some (encode unary 10 1);
  prev_cursor = some (encode unary 30 2);
  has_next = false;
  has_prev = false;
  limit = 20;
})

list_http-bounded_example : length in_order ≤ 100
unfolding list_http get_all list_where page_of limit_of respond_cursor_paginated
list_http-bounded_example =
    list_http-bounded false "" counting unary none "" (λ s. none) "" "many" world listing in_order
      refl refl
