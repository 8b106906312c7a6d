-- ===== src/Todo/Trace.antt =====
-- Requests to the todo module in any order, and what they leave true of the table.
use go_codebase.Prelude.{ℕ, String, List, [], ◌∷◌}
use go_codebase.Core.Runtime.{Env, World}
use go_codebase.Core.Runtime.Preserves.{On}
use go_codebase.Todo.Entity.{Todo, TodoEvent}
use go_codebase.Todo.Repository.{Table}
use go_codebase.Todo.Service.{handle_create, handle_update, handle_complete, handle_delete}
use go_codebase.Todo.Stable.{
  Stable, handle_create-Keeps, handle_update-Keeps, handle_complete-Keeps, handle_delete-Keeps,
}

pub data Call : Type 0 where
  call_create : (title description : String) → Call
  call_update : (id : ℕ) (title description : String) → Call
  call_complete : (id : ℕ) → Call
  call_delete : (id : ℕ) → Call

module _ (env : Env) where
  pub run : Call → World Table TodoEvent → World Table TodoEvent
  run (call_create title description) w = (handle_create env title description w).1
  run (call_update id title description) w = (handle_update env id title description w).1
  run (call_complete id) w = (handle_complete env id w).1
  run (call_delete id) w = (handle_delete env id w).1

  pub run_all : List Call → World Table TodoEvent → World Table TodoEvent
  run_all [] w = w
  run_all (c ∷ cs) w = run_all cs (run c w)

  module _ {P : Table → Type 0} {Good : Todo → Type 0} (s : Stable P Good) where
    run-On : (c : Call) (w : World Table TodoEvent) → On P w → On P (run c w)
    unfolding run
    run-On (call_create title description) w h =
        (handle_create-Keeps s env title description).at w h
    run-On (call_update id title description) w h =
        (handle_update-Keeps s env id title description).at w h
    run-On (call_complete id) w h = (handle_complete-Keeps s env id).at w h
    run-On (call_delete id) w h = (handle_delete-Keeps s env id).at w h

    -- A fact that every statement keeps holds after any requests, if it held before them.
    pub run_all-On : (cs : List Call) (w : World Table TodoEvent) → On P w → On P (run_all cs w)
    unfolding run_all
    run_all-On [] w h = h
    run_all-On (c ∷ cs) w h = run_all-On cs (run c w) (run-On c w h)
