-- ===== src/Todo/Facts.antt =====
-- Facts about the table of todos that hold after any requests to the todo module.
use go_codebase.Prelude.{
  ℕ, ◌≡◌, refl, Bool, true, false, some, [], ◌∷◌, ◌++◌, ◌==◌, if◌then◌else◌, find, any,
  update_where, All, All-update_where, str_eq, arith,
}
use go_codebase.Core.Runtime.Preserves.{Safe}
use go_codebase.Todo.Entity.{Todo, new_todo, revise, complete}
use go_codebase.Todo.Repository.{
  TodoRecord, Table, todo_keyed, matches, record_of, revised, deleted, insert_todo, update_todo,
  soft_delete_todo,
}
use go_codebase.Listing.Order.{Distinct}
use go_codebase.Todo.Stable.{Stable}

pub All-append :
    (P : TodoRecord → Type 0) (xs : Table) (r : TodoRecord) → All P xs → P r → All P (xs ++ r ∷ [])
All-append P [] r h p = (p, tt)
All-append P (x ∷ xs) r h p = (h.0, All-append P xs r h.1 p)

All-find :
    (P : TodoRecord → Type 0) (p : TodoRecord → Bool) (xs : Table) (r : TodoRecord)
    → find p xs ≡ some r
    → All P xs
    → P r
All-find P p [] r e h = cc
All-find P p (x ∷ xs) r e h = here (p x) refl (λ rest. All-find P p xs r rest h.1)
  where
    here : (b : Bool) → p x ≡ b → (find p xs ≡ some r → P r) → P r
    here true t later = let same : x ≡ r = ground arith in rw (same) at h.0
    here false t later = later (ground arith)

pub insert_todo-some :
    (kept : ℕ → ℕ) (t : Todo) (rows rows' : Table)
    → insert_todo kept t rows ≡ some rows'
    → (any (λ o. o.id == t.id) rows ≡ false) × (rows' ≡ rows ++ record_of kept t ∷ [])
unfolding insert_todo
insert_todo-some kept t rows rows' h = (ground arith, ground arith)

-- A row's title is not empty.
abbrev pub Titled : TodoRecord → Type 0
Titled r = str_eq r.title "" ≡ false

-- A row belongs to no tenant.
abbrev pub Unscoped : TodoRecord → Type 0
Unscoped r = r.tenant_id ≡ ""

inserted :
    (P : TodoRecord → Type 0) (kept : ℕ → ℕ) (t : Todo)
    → P (record_of kept t)
    → Safe (All P) (insert_todo kept t)
inserted P kept t p = record {
  at = λ rows rows' h a.
      rw ((insert_todo-some kept t rows rows' h).1) (All-append P rows (record_of kept t) a p);
}

updated :
    (P : TodoRecord → Type 0) (kept : ℕ → ℕ) (t : Todo)
    → ((r : TodoRecord) → P r → P (revised kept t r))
    → Safe (All P) (update_todo kept t)
unfolding update_todo
updated P kept t keep = record {
  at = λ rows rows' h a.
      let e : rows' ≡ update_where (matches t.id) (revised kept t) rows = cc in
      rw (e) (All-update_where P (matches t.id) (revised kept t) rows (λ r _. keep r) a);
}

removed :
    (P : TodoRecord → Type 0) (now id : ℕ)
    → ((r : TodoRecord) → P r → P (deleted now r))
    → Safe (All P) (soft_delete_todo now id)
unfolding soft_delete_todo
removed P now id keep = record {
  at = λ rows rows' h a.
      let e : rows' ≡ update_where (matches id) (deleted now) rows = cc in
      rw (e) (All-update_where P (matches id) (deleted now) rows (λ r _. keep r) a);
}

pub Titled-Stable : Stable (All Titled) (λ t. str_eq t.title "" ≡ false)
unfolding new_todo revise complete
Titled-Stable = record {
  inserts = λ kept t good. inserted Titled kept t good;
  updates = λ kept t good. updated Titled kept t (λ r h. good);
  deletes = λ now id. removed Titled now id (λ r h. h);
  reads = λ rows id r a h. All-find Titled (matches id) rows r h a;
  makes = λ id now title description e. e;
  revises = λ now title description t good. ground arith;
  completes = λ now t good. good;
}

pub Unscoped-Stable : Stable (All Unscoped) (λ t. Unit {0})
Unscoped-Stable = record {
  inserts = λ kept t good. inserted Unscoped kept t refl;
  updates = λ kept t good. updated Unscoped kept t (λ r h. h);
  deletes = λ now id. removed Unscoped now id (λ r h. h);
  reads = λ rows id r a h. tt;
  makes = λ id now title description e. tt;
  revises = λ now title description t good. tt;
  completes = λ now t good. tt;
}

Distinct-append :
    (xs : Table) (r : TodoRecord)
    → any (λ o. o.id == r.id) xs ≡ false
    → Distinct xs
    → Distinct (xs ++ r ∷ [])
Distinct-append [] r h d = (tt, tt)
Distinct-append (x ∷ xs) r h d = (
  All-append (λ y. (y.id == x.id) ≡ false) xs r d.0 (ground arith),
  Distinct-append xs r (ground arith) d.1,
)

Distinct-update_where :
    (p : TodoRecord → Bool) (f : TodoRecord → TodoRecord) (xs : Table)
    → ((r : TodoRecord) → (f r).id ≡ r.id)
    → Distinct xs
    → Distinct (update_where p f xs)
Distinct-update_where p f [] same d = tt
Distinct-update_where p f (x ∷ xs) same d = (
  rw (kept (p x))
      (All-update_where (λ y. (y.id == x.id) ≡ false) p f xs (λ y _ h. rw (same y) h) d.0),
  Distinct-update_where p f xs same d.1,
)
  where
    kept : (b : Bool) → (if b then f x else x).id ≡ x.id
    kept true = same x
    kept false = refl

pub Distinct-Stable : Stable Distinct (λ t. Unit {0})
unfolding update_todo soft_delete_todo
Distinct-Stable = record {
  inserts = λ kept t good. record {
    at = λ rows rows' h d.
        let (fresh, e) = insert_todo-some kept t rows rows' h in
        rw (e) (Distinct-append rows (record_of kept t) fresh d);
  };
  updates = λ kept t good. record {
    at = λ rows rows' h d.
        let e : rows' ≡ update_where (matches t.id) (revised kept t) rows = cc in
        rw (e) (Distinct-update_where (matches t.id) (revised kept t) rows (λ r. refl) d);
  };
  deletes = λ now id. record {
    at = λ rows rows' h d.
        let e : rows' ≡ update_where (matches id) (deleted now) rows = cc in
        rw (e) (Distinct-update_where (matches id) (deleted now) rows (λ r. refl) d);
  };
  reads = λ rows id r a h. tt;
  makes = λ id now title description e. tt;
  revises = λ now title description t good. tt;
  completes = λ now t good. tt;
}
