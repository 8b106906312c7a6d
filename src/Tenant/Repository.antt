-- ===== src/Tenant/Repository.antt =====
-- internal/tenant/domain/entity and internal/tenant/infrastructure/persistence, with the table of
-- migration 007 and the statements of sqlc as functions on it.
use go_codebase.Prelude.{
  ℕ, String, Bool, true, false, not, ◌||◌, Option, none, some, List, [], ◌∷◌, ◌++◌, ◌==◌,
  if◌then◌else◌, find, any, select, update_where, str_eq,
}
use go_codebase.Cursor.{Codec}
use go_codebase.Core.Errors.{plain, wrap}
use go_codebase.Core.Proc.{Proc, ◌>>=◌, ◌>>◌, return, fail, on_error}
use go_codebase.Core.Runtime.{Env, World, round_trip, read, exec}
use go_codebase.Listing.{Keyed, Page, list_where}

-- The settings are a JSON text.
pub record Tenant : Type 0 where
  pub id : ℕ
  pub name : String
  pub slug : String
  pub domain : Option String
  pub settings : String
  pub is_active : Bool
  pub created_at : ℕ
  pub updated_at : ℕ

instance abbrev pub tenant_keyed : Keyed Tenant
tenant_keyed = record { id_of = λ t. t.id; created_of = λ t. t.created_at }

-- A row has the columns of an entity; a NULL domain is a nil pointer.
abbrev pub Table : Type 0
Table = List Tenant

-- The module publishes no events.
abbrev pub Action : Type 0 → Type 0
Action A = Proc (World Table (Unit {0})) A

unfoldable pub map_tenant_to_entity : Tenant → Tenant
map_tenant_to_entity row = record {
  id = row.id;
  name = row.name;
  slug = row.slug;
  domain = row.domain;
  settings = row.settings;
  is_active = row.is_active;
  created_at = row.created_at;
  updated_at = row.updated_at;
}

-- `jsonb` is the text that a JSONB column gives back for a text, with none for one that is no JSON;
-- `kept` is what a TIMESTAMPTZ column keeps of a time.
module _ (jsonb : String → Option String) (kept : ℕ → ℕ) where
  abbrev stored_row : (Tenant → Option Table) → Tenant → Option String → Option Table
  stored_row f t none = none
  stored_row f t (some settings) = f (record t {
    settings = settings;
    created_at = kept t.created_at;
    updated_at = kept t.updated_at;
  })

  -- `id` and `slug` are unique.
  unfoldable pub insert_tenant : Tenant → Table → Option Table
  insert_tenant t rows =
      if any (λ o. o.id == t.id || str_eq o.slug t.slug) rows
      then none
      else stored_row (λ r. some (rows ++ r ∷ [])) t (jsonb t.settings)

  abbrev pub revised : Tenant → Tenant → Tenant
  revised t o = record o {
    name = t.name;
    domain = t.domain;
    settings = t.settings;
    is_active = t.is_active;
    updated_at = t.updated_at;
  }

  unfoldable pub update_tenant_row : Tenant → Table → Option Table
  update_tenant_row t rows =
      stored_row (λ r. some (update_where (λ o. o.id == t.id) (revised r) rows)) t
        (jsonb t.settings)

unfoldable pub delete_tenant_row : ℕ → Table → Option Table
delete_tenant_row id rows = some (select (λ o. not (o.id == id)) rows)

abbrev pub found : Option Tenant → Action Tenant
found none = fail (plain "tenant not found")
found (some row) = return (map_tenant_to_entity row)

abbrev pub require_row : Bool → Action (Unit {0})
require_row true = return tt
require_row false = fail (plain "tenant not found")

module _ (env : Env) where
  unfoldable pub get_by_id : ℕ → Action Tenant
  unfolding map_tenant_to_entity
  get_by_id id = do
    on_error (round_trip env) (wrap "get tenant")
    row ← read (λ rows. find (λ t. t.id == id) rows)
    found row

  unfoldable pub get_by_slug : String → Action Tenant
  unfolding map_tenant_to_entity
  get_by_slug slug = do
    on_error (round_trip env) (wrap "get tenant by slug")
    row ← read (λ rows. find (λ t. str_eq t.slug slug) rows)
    found row

  unfoldable pub list : (k : Codec) → Option String → (limit : ℕ) → Action (Page Tenant)
  unfolding list_where
  list k cursor limit =
      list_where env k (λ t. t) (λ rows. rows) "list tenants" (λ t. true) cursor limit

  unfoldable pub delete : ℕ → Action (Unit {0})
  unfolding delete_tenant_row
  delete id = do
    matched ← read (λ rows. any (λ t. t.id == id) rows)
    exec env "delete tenant" (delete_tenant_row id)
    require_row matched

  module _ (jsonb : String → Option String) where
    unfoldable pub create : Tenant → Action (Unit {0})
    unfolding insert_tenant
    create t = exec env "insert tenant" (insert_tenant jsonb env.timestamptz t)

    unfoldable pub update : Tenant → Action (Unit {0})
    unfolding update_tenant_row
    update t = do
      matched ← read (λ rows. any (λ o. o.id == t.id) rows)
      exec env "update tenant" (update_tenant_row jsonb env.timestamptz t)
      require_row matched
