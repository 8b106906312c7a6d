-- ===== src/Tenant/Facts.antt =====
-- What the statements on the table of tenants keep of it.
use go_codebase.Prelude.{
  ℕ, ◌≡◌, refl, String, Bool, true, false, not, ◌||◌, Option, [], ◌∷◌, ◌++◌, ◌==◌, if◌then◌else◌,
  any, select, update_where, str_eq, eq_iff, arith, Option-cases, inl, inr,
}
use go_codebase.Core.Runtime.Preserves.{Safe}
use go_codebase.Tenant.Repository.{
  Tenant, Table, insert_tenant, update_tenant_row, delete_tenant_row, revised,
}

-- A row has the identifier or the slug of another.
abbrev pub clashes : Tenant → Tenant → Bool
clashes x o = o.id == x.id || str_eq o.slug x.slug

abbrev pub Unique : Table → Type 0
Unique [] = Unit
Unique (x ∷ xs) = (any (clashes x) xs ≡ false) × Unique xs

clashes_sym : (x y : Tenant) → clashes x y ≡ clashes y x
clashes_sym x y = ground (arith, eq_iff x.slug y.slug, eq_iff y.slug x.slug)

any-append :
    (p : Tenant → Bool) (xs : Table) (r : Tenant) → any p (xs ++ r ∷ []) ≡ (any p xs || p r)
any-append p [] r = ground arith
any-append p (x ∷ xs) r = ground (arith, any-append p xs r)

Unique-append :
    (xs : Table) (r : Tenant) → any (clashes r) xs ≡ false → Unique xs → Unique (xs ++ r ∷ [])
Unique-append [] r h u = (refl, tt)
Unique-append (x ∷ xs) r h u = (
  ground (arith, any-append (clashes x) xs r, clashes_sym x r, u.0),
  Unique-append xs r (ground arith) u.1,
)

any-select-false :
    (p q : Tenant → Bool) (xs : Table) → any p xs ≡ false → any p (select q xs) ≡ false
any-select-false p q [] h = refl
any-select-false p q (x ∷ xs) h = ground (arith, any-select-false p q xs)

Unique-select : (q : Tenant → Bool) (xs : Table) → Unique xs → Unique (select q xs)
Unique-select q [] u = tt
Unique-select q (x ∷ xs) u = kept (q x) (Unique-select q xs u.1)
  where
    kept : (b : Bool) → Unique (select q xs) → Unique (if b then x ∷ select q xs else select q xs)
    kept true rest = (any-select-false (clashes x) q xs u.0, rest)
    kept false rest = rest

module _ (p : Tenant → Bool) (f : Tenant → Tenant)
    (same : (x y : Tenant) → clashes x (f y) ≡ clashes x y)
    (same_left : (x y : Tenant) → clashes (f x) y ≡ clashes x y) where
  any-updated :
      (x : Tenant) (xs : Table) → any (clashes x) (update_where p f xs) ≡ any (clashes x) xs
  any-updated x [] = refl
  any-updated x (y ∷ ys) = ground (arith, any-updated x ys, same x y)

  any-updated_left : (x : Tenant) (xs : Table) → any (clashes (f x)) xs ≡ any (clashes x) xs
  any-updated_left x [] = refl
  any-updated_left x (y ∷ ys) = ground (arith, any-updated_left x ys, same_left x y)

  Unique-update_where : (xs : Table) → Unique xs → Unique (update_where p f xs)
  Unique-update_where [] u = tt
  Unique-update_where (x ∷ xs) u = (here (p x), Unique-update_where xs u.1)
    where
      here : (b : Bool) → any (clashes (if b then f x else x)) (update_where p f xs) ≡ false
      here true = rw (any-updated (f x) xs, any-updated_left x xs) u.0
      here false = rw (any-updated x xs) u.0

module _ (jsonb : String → Option String) (kept : ℕ → ℕ) where
  abbrev as_stored : Tenant → String → Tenant
  as_stored t settings = record t {
    settings = settings;
    created_at = kept t.created_at;
    updated_at = kept t.updated_at;
  }

  pub insert_tenant-Safe : (t : Tenant) → Safe Unique (insert_tenant jsonb kept t)
  unfolding insert_tenant
  insert_tenant-Safe t = record {
    at = λ rows rows' h u. elim (Option-cases (jsonb t.settings)) [
      | inl refused ↦ absurd (ground arith)
      | inr (settings, e) ↦
          let fresh : any (clashes t) rows ≡ false = ground arith in
          let grown : rows' ≡ rows ++ as_stored t settings ∷ [] = ground arith in
          rw (grown) (Unique-append rows (as_stored t settings) fresh u)
    ];
  }

  pub update_tenant_row-Safe : (t : Tenant) → Safe Unique (update_tenant_row jsonb kept t)
  unfolding update_tenant_row
  update_tenant_row-Safe t = record {
    at = λ rows rows' h u. elim (Option-cases (jsonb t.settings)) [
      | inl refused ↦ absurd (ground arith)
      | inr (settings, e) ↦
          let r : Tenant = as_stored t settings in
          let changed : rows' ≡ update_where (λ o. o.id == t.id) (revised jsonb kept r) rows =
            ground arith in
          rw (changed) (
            Unique-update_where (λ o. o.id == t.id) (revised jsonb kept r) (λ x y. refl)
              (λ x y. refl) rows u)
    ];
  }

pub delete_tenant_row-Safe : (id : ℕ) → Safe Unique (delete_tenant_row id)
unfolding delete_tenant_row
delete_tenant_row-Safe id = record {
  at = λ rows rows' h u.
      let e : rows' ≡ select (λ o. not (o.id == id)) rows = cc in
      rw (e) (Unique-select (λ o. not (o.id == id)) rows u);
}
