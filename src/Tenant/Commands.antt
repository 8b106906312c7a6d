-- ===== src/Tenant/Commands.antt =====
-- internal/tenant/application: the command and query handlers. `Format` is `time.Time.Format` at
-- the two layouts that they use, for a time of `time.Now()`, which is in the local zone, and for one
-- that the database gave, which is in the zone of its session.
use go_codebase.Prelude.{ℕ, String, Bool, true, Option, none, some, map, or_else}
use go_codebase.Cursor.{Codec}
use go_codebase.Core.Errors.{GoError, sentinel, new_domain_error, already_exists, not_found}
use go_codebase.Core.Proc.{Result, ok, err, ◌>>=◌, ◌>>◌, return, fail, attempt, on_error}
use go_codebase.Core.Runtime.{Env, read_clock, new_uuid}
use go_codebase.Listing.{Page}
use go_codebase.Tenant.Repository.{
  Tenant, Action, get_by_id, get_by_slug, list, delete, create, update,
}

pub record Format : Type 0 where
  -- `time.RFC3339Nano`
  pub local_nanoseconds : ℕ → String
  pub nanoseconds : ℕ → String
  -- `"2006-01-02T15:04:05Z07:00"`, for times of the database only
  pub seconds : ℕ → String
  -- `uuid.UUID.String`
  pub uuid_text : ℕ → String

pub record TenantResponse : Type 0 where
  pub id : String
  pub name : String
  pub slug : String
  pub domain : Option String
  pub settings : String
  pub is_active : Bool
  pub created_at : String
  pub updated_at : String

unfoldable pub response_of :
    (uuid_text created_format updated_format : ℕ → String) → Tenant → TenantResponse
response_of uuid_text created_format updated_format t = record {
  id = uuid_text t.id;
  name = t.name;
  slug = t.slug;
  domain = t.domain;
  settings = t.settings;
  is_active = t.is_active;
  created_at = created_format t.created_at;
  updated_at = updated_format t.updated_at;
}

pub record CreateTenantCommand : Type 0 where
  pub name : String
  pub slug : String
  pub domain : Option String
  pub settings : Option String

pub record UpdateTenantCommand : Type 0 where
  pub name : Option String
  pub domain : Option String
  pub settings : Option String
  pub is_active : Option Bool

unfoldable pub new_tenant : (uuid now : ℕ) → CreateTenantCommand → Tenant
new_tenant uuid now c = record {
  id = uuid;
  name = c.name;
  slug = c.slug;
  domain = c.domain;
  settings = or_else c.settings "{}";
  is_active = true;
  created_at = now;
  updated_at = now;
}

-- `if c.Domain != nil { tenant.Domain = c.Domain }`
abbrev kept_or : Option String → Option String → Option String
kept_or none old = old
kept_or (some d) old = some d

unfoldable pub changed_tenant : (now : ℕ) → UpdateTenantCommand → Tenant → Tenant
changed_tenant now c t = record t {
  name = or_else c.name t.name;
  domain = kept_or c.domain t.domain;
  settings = or_else c.settings t.settings;
  is_active = or_else c.is_active t.is_active;
  updated_at = now;
}

abbrev pub missing : GoError → GoError
missing e = new_domain_error (sentinel not_found) "TENANT_NOT_FOUND" "tenant not found"

module _ (env : Env) (jsonb : String → Option String) (f : Format) where
  -- `existing, _ := repo.GetBySlug(…)`, and on if there is none; `now` is read before the
  -- identifier is made.
  abbrev pub create_tenant_if : Result Tenant → CreateTenantCommand → Action TenantResponse
  create_tenant_if (ok existing) c = fail (
      new_domain_error (sentinel already_exists) "TENANT_EXISTS"
        "tenant with this slug already exists")
  create_tenant_if (err e) c = do
    now ← read_clock env
    uuid ← new_uuid env
    create env jsonb (new_tenant uuid now c)
    return (response_of f.uuid_text f.local_nanoseconds f.local_nanoseconds (new_tenant uuid now c))

  unfoldable pub create_tenant : CreateTenantCommand → Action TenantResponse
  unfolding get_by_slug create new_tenant response_of new_domain_error
  create_tenant c = do existing ← attempt (get_by_slug env c.slug); create_tenant_if existing c

  unfoldable pub update_tenant : ℕ → UpdateTenantCommand → Action TenantResponse
  unfolding get_by_id update changed_tenant response_of new_domain_error
  update_tenant id c = do
    tenant ← on_error (get_by_id env id) missing
    now ← read_clock env
    update env jsonb (changed_tenant now c tenant)
    return (response_of f.uuid_text f.nanoseconds f.local_nanoseconds (changed_tenant now c tenant))

module _ (env : Env) where
  unfoldable pub delete_tenant : ℕ → Action (Unit {0})
  unfolding get_by_id delete new_domain_error
  delete_tenant id = do on_error (get_by_id env id) missing; delete env id

  unfoldable pub get_tenant : Format → ℕ → Action TenantResponse
  unfolding get_by_id response_of new_domain_error
  get_tenant f id = do
    tenant ← on_error (get_by_id env id) missing
    return (response_of f.uuid_text f.nanoseconds f.nanoseconds tenant)

  unfoldable pub list_tenants :
      Format → (k : Codec) → Option String → (limit : ℕ) → Action (Page TenantResponse)
  unfolding list response_of
  list_tenants f k cursor limit = do
    p ← list env k cursor limit
    return (record {
      items = map (response_of f.uuid_text f.seconds f.seconds) p.items;
      next_cursor = p.next_cursor;
      prev_cursor = p.prev_cursor;
      has_next = p.has_next;
      has_prev = p.has_prev;
    })
