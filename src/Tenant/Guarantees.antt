-- ===== src/Tenant/Guarantees.antt =====
-- What holds of tenants after requests to the tenant module.
use go_codebase.Prelude.{
  ℕ, suc, ◌≡◌, refl, String, Bool, false, not, ◌||◌, Option, none, some, [], ◌∷◌, ◌++◌, ◌==◌, find,
  any, select, str_eq, or_else, arith,
}
use go_codebase.Core.Errors.{sentinel, new_domain_error, not_found}
use go_codebase.Core.Proc.{ok, err}
use go_codebase.Core.Runtime.{Env, World, reliable}
use go_codebase.Tenant.Repository.{
  Tenant, Table, map_tenant_to_entity, insert_tenant, delete_tenant_row, get_by_id, get_by_slug,
  create, delete,
}
use go_codebase.Tenant.Commands.{
  Format, response_of, CreateTenantCommand, new_tenant, create_tenant, delete_tenant, get_tenant,
}
use go_codebase.Tenant.Handlers.{create_tenant_http, Reply}
use go_codebase.Http.Response.{respond_error, error_text}

find-append :
    (id : ℕ) (rows : Table) (r : Tenant)
    → any (λ o. o.id == id) rows ≡ false
    → r.id ≡ id
    → find (λ o. o.id == id) (rows ++ r ∷ []) ≡ some r
find-append id [] r h e = ground arith
find-append id (x ∷ xs) r h e = ground (arith, find-append id xs r)

no_row :
    (p q : Tenant → Bool) (rows : Table) → any (λ o. p o || q o) rows ≡ false → any p rows ≡ false
no_row p q [] h = refl
no_row p q (x ∷ xs) h = ground (arith, no_row p q xs)

find-none : (p : Tenant → Bool) (rows : Table) → any p rows ≡ false → find p rows ≡ none
find-none p [] h = refl
find-none p (x ∷ xs) h = ground (arith, find-none p xs)

any_swap :
    (p q : Tenant → Bool) (rows : Table) → any (λ o. p o || q o) rows ≡ any (λ o. q o || p o) rows
any_swap p q [] = refl
any_swap p q (x ∷ xs) = ground (arith, any_swap p q xs)

module _ (env : Env) (jsonb : String → Option String) (f : Format) (c : CreateTenantCommand)
    (settings : String) (w : World Table (Unit {0})) where
  abbrev made : Tenant
  made = new_tenant (env.uuid (suc (suc w.tick))) (env.now (suc w.tick)) c

  abbrev kept_row : Tenant
  kept_row = record made {
    settings = settings;
    created_at = env.timestamptz made.created_at;
    updated_at = env.timestamptz made.updated_at;
  }

  -- Where the database answers, a tenant that is created with an identifier and a slug of no row,
  -- and with settings that are JSON, is returned by the next request for it as the creation
  -- returned it, but with its settings in the form that the database gives them, and its times as
  -- the columns keep them, in the zone of the database.
  pub created_tenant_found :
      jsonb (or_else c.settings "{}") ≡ some settings
      → any (λ o. o.id == made.id || str_eq o.slug c.slug) w.db ≡ false
      → ((create_tenant (reliable env) jsonb f c w).0
          ≡ ok (response_of f.uuid_text f.local_nanoseconds f.local_nanoseconds made))
        × ((get_tenant (reliable env) f made.id (create_tenant (reliable env) jsonb f c w).1).0
            ≡ ok (response_of f.uuid_text f.nanoseconds f.nanoseconds kept_row))
  unfolding create_tenant get_by_slug create insert_tenant new_tenant get_tenant get_by_id
      response_of map_tenant_to_entity
  created_tenant_found json fresh =
      let no_id = no_row (λ o. o.id == made.id) (λ o. str_eq o.slug c.slug) w.db fresh in
      let no_slug : find (λ o. str_eq o.slug c.slug) w.db ≡ none =
        find-none (λ o. str_eq o.slug c.slug) w.db
          (no_row (λ o. str_eq o.slug c.slug) (λ o. o.id == made.id) w.db
            (rw (any_swap (λ o. str_eq o.slug c.slug) (λ o. o.id == made.id) w.db) fresh)) in
      let there = find-append made.id w.db kept_row no_id refl in
      (rw (no_slug, fresh, json) refl, rw (no_slug, fresh, json, there) refl)

none_left :
    (id : ℕ) (rows : Table) → any (λ o. o.id == id) (select (λ o. not (o.id == id)) rows) ≡ false
none_left id [] = refl
none_left id (x ∷ xs) = ground (arith, none_left id xs)

module _ (env : Env) (id : ℕ) (w : World Table (Unit {0})) where
  deleted_rows :
      (delete_tenant env id w).0 ≡ ok tt
      → (delete_tenant env id w).1.db ≡ select (λ o. not (o.id == id)) w.db
  unfolding delete_tenant get_by_id delete delete_tenant_row
  deleted_rows h = ground arith

  -- A tenant that is deleted, with no error, is not found by the next request for it, whatever the
  -- database answers to that.
  pub deleted_tenant_missing :
      (f : Format)
      → (delete_tenant env id w).0 ≡ ok tt
      → (get_tenant env f id (delete_tenant env id w).1).0
        ≡ err (new_domain_error (sentinel not_found) "TENANT_NOT_FOUND" "tenant not found")
  unfolding get_tenant get_by_id
  deleted_tenant_missing f h =
      let gone : find (λ o. o.id == id) (delete_tenant env id w).1.db ≡ none =
        rw (deleted_rows h)
          (find-none (λ o. o.id == id) (select (λ o. not (o.id == id)) w.db) (none_left id w.db)) in
      ground arith

module _ (is_production : Bool) (stack : String) (env : Env) (jsonb : String → Option String)
    (f : Format) (c : CreateTenantCommand) (w : World Table (Unit {0})) (t : Tenant) where
  -- Where the database answers, a valid request for a new tenant whose slug another tenant has is
  -- answered with status 409, and no row is changed.
  pub create_tenant_http-taken :
      find (λ o. str_eq o.slug c.slug) w.db ≡ some t
      → (reply : Reply) × ((create_tenant_http is_production stack
            (reliable env)
            f
            jsonb
            (some c)
            (λ b. none)
            w).0
          ≡ ok reply)
        × (reply.status ≡ 409)
        × ((create_tenant_http is_production stack
              (reliable env)
              f
              jsonb
              (some c)
              (λ b. none)
              w).1.db
            ≡ w.db)
  unfolding create_tenant_http create_tenant get_by_slug new_domain_error respond_error error_text
  create_tenant_http-taken h = (
    respond_error 409 "CONFLICT" "tenant with this slug already exists",
    rw (h) refl,
    refl,
    rw (h) refl,
  )
