-- ===== src/Todo/Deleted.antt =====
-- A todo that is deleted stays deleted.
use go_codebase.Prelude.{
  ℕ, suc, ◌≡◌, refl, Bool, true, false, ◌||◌, none, List, [], ◌∷◌, ◌++◌, ◌==◌, find, any,
  update_where, arith,
}
use go_codebase.Core.Errors.{sentinel, todo_not_found}
use go_codebase.Core.Proc.{ok, err}
use go_codebase.Core.Runtime.{Env, World}
use go_codebase.Todo.Entity.{TodoEvent}
use go_codebase.Todo.Repository.{
  TodoRecord, Table, matches, record_of, revised, deleted, update_todo, soft_delete_todo,
}
use go_codebase.Todo.Queries.{get_by_id, delete}
use go_codebase.Todo.Service.{get_todo, delete_todo, handle_delete, handle_get}
use go_codebase.Todo.Stable.{Stable}
use go_codebase.Todo.Facts.{insert_todo-some}
use go_codebase.Todo.Trace.{Call, run_all, run_all-On}

abbrev named : ℕ → TodoRecord → Bool
named id r = r.id == id

-- The identifier is that of a row, but of none that is live.
pub record Gone (id : ℕ) (rows : Table) : Type 0 where
  pub present : any (named id) rows ≡ true
  pub dead : any (matches id) rows ≡ false

any-append :
    (p : TodoRecord → Bool) (xs : Table) (r : TodoRecord) → any p (xs ++ r ∷ []) ≡ (any p xs || p r)
any-append p [] r = ground arith
any-append p (x ∷ xs) r = ground (arith, any-append p xs r)

any-update_where :
    (p q : TodoRecord → Bool) (f : TodoRecord → TodoRecord) (xs : Table)
    → ((r : TodoRecord) → p (f r) ≡ p r)
    → any p (update_where q f xs) ≡ any p xs
any-update_where p q f [] same = refl
any-update_where p q f (x ∷ xs) same = ground (arith, any-update_where p q f xs same, same x)

any-deleted :
    (id other now : ℕ) (xs : Table)
    → any (matches id) xs ≡ false
    → any (matches id) (update_where (matches other) (deleted now) xs) ≡ false
any-deleted id other now [] h = refl
any-deleted id other now (x ∷ xs) h = ground (arith, any-deleted id other now xs)

any-named_of_matches : (id : ℕ) (xs : Table) → any (matches id) xs ≡ true → any (named id) xs ≡ true
any-named_of_matches id [] h = h
any-named_of_matches id (x ∷ xs) h = ground (arith, any-named_of_matches id xs)

none-after_delete :
    (id now : ℕ) (xs : Table)
    → any (matches id) (update_where (matches id) (deleted now) xs) ≡ false
none-after_delete id now [] = refl
none-after_delete id now (x ∷ xs) = ground (arith, none-after_delete id now xs)

fresh_id :
    (id other : ℕ) (xs : Table)
    → any (named id) xs ≡ true
    → any (named other) xs ≡ false
    → (other == id) ≡ false
fresh_id id other [] h g = ground arith
fresh_id id other (x ∷ xs) h g = ground (arith, fresh_id id other xs)

Gone-Stable : (id : ℕ) → Stable (Gone id) (λ t. Unit {0})
unfolding update_todo soft_delete_todo
Gone-Stable id = record {
  inserts = λ kept t good. record {
    at = λ rows rows' h g.
        let (fresh, e) = insert_todo-some kept t rows rows' h in
        let other : (t.id == id) ≡ false = fresh_id id t.id rows g.present fresh in
        rw (e) (record {
          present = rw (any-append (named id) rows (record_of kept t), g.present) refl;
          dead = rw (any-append (matches id) rows (record_of kept t), g.dead, other) refl;
        });
  };
  updates = λ kept t good. record {
    at = λ rows rows' h g.
        let e : rows' ≡ update_where (matches t.id) (revised kept t) rows = cc in
        rw (e) (record {
          present =
              rw (any-update_where (named id) (matches t.id) (revised kept t) rows (λ r. refl))
                g.present;
          dead =
              rw (any-update_where (matches id) (matches t.id) (revised kept t) rows (λ r. refl))
                g.dead;
        });
  };
  deletes = λ now other. record {
    at = λ rows rows' h g.
        let e : rows' ≡ update_where (matches other) (deleted now) rows = cc in
        rw (e) (record {
          present =
              rw (any-update_where (named id) (matches other) (deleted now) rows (λ r. refl))
                g.present;
          dead = any-deleted id other now rows g.dead;
        });
  };
  reads = λ rows id r a h. tt;
  makes = λ id now title description e. tt;
  revises = λ now title description t good. tt;
  completes = λ now t good. tt;
}

module _ (env : Env) (id : ℕ) (w : World Table TodoEvent) where
  deleted_table :
      (handle_delete env id w).0 ≡ ok tt
      → (any (matches id) w.db ≡ true)
        × ((handle_delete env id w).1.db
            ≡ update_where (matches id) (deleted (env.now (suc w.tick))) w.db)
  unfolding handle_delete delete_todo get_by_id delete soft_delete_todo
  deleted_table h = (ground arith, ground arith)

  handle_delete-Gone : (handle_delete env id w).0 ≡ ok tt → Gone id (handle_delete env id w).1.db
  handle_delete-Gone h =
      let (there, e) = deleted_table h in
      rw (e) (record {
        present =
            rw
              (any-update_where (named id) (matches id) (deleted (env.now (suc w.tick))) w.db
                (λ r. refl))
              (any-named_of_matches id w.db there);
        dead = none-after_delete id (env.now (suc w.tick)) w.db;
      })

find-none : (id : ℕ) (rows : Table) → any (matches id) rows ≡ false → find (matches id) rows ≡ none
find-none id [] h = refl
find-none id (x ∷ xs) h = ground (arith, find-none id xs)

-- A todo that a request deletes is not found by any later request for it, whatever requests come
-- between the two and whatever the database answers.
pub deleted_stays :
    (env : Env) (id : ℕ) (w : World Table TodoEvent) (cs : List Call)
    → (handle_delete env id w).0 ≡ ok tt
    → (handle_get env id (run_all env cs (handle_delete env id w).1)).0
      ≡ err (sentinel todo_not_found)
unfolding handle_get get_todo get_by_id
deleted_stays env id w cs h =
    let gone =
      (run_all-On env (Gone-Stable id) cs (handle_delete env id w).1
        (record { tables = handle_delete-Gone env id w h })).tables in
    ground (arith, find-none id (run_all env cs (handle_delete env id w).1).db gone.dead)
