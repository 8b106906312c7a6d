-- ===== src/Tenant/Trace.antt =====
-- Requests to the tenant module in any order.
use go_codebase.Prelude.{ℕ, String, Bool, true, false, Option, none, some, List, [], ◌∷◌}
use go_codebase.Core.Proc.{Result, ok, err, Keeps}
use go_codebase.Core.Runtime.{Env, World}
use go_codebase.Core.Runtime.Preserves.{On, world_rules}
use go_codebase.Tenant.Repository.{
  Tenant, Table, found, require_row, get_by_id, get_by_slug, create, update, delete,
}
use go_codebase.Tenant.Commands.{
  Format, CreateTenantCommand, UpdateTenantCommand, create_tenant_if, create_tenant, update_tenant,
  delete_tenant,
}
use go_codebase.Tenant.Facts.{
  Unique, insert_tenant-Safe, update_tenant_row-Safe, delete_tenant_row-Safe,
}

module _ {P : Table → Type 0} (env : Env) where
  found-Keeps : (row : Option Tenant) → Keeps (On P) (found row)
  found-Keeps none = search world_rules
  found-Keeps (some row) = search world_rules

  require_row-Keeps : (present : Bool) → Keeps (On P) (require_row present)
  require_row-Keeps true = search world_rules
  require_row-Keeps false = search world_rules

  get_by_id-Keeps : (id : ℕ) → Keeps (On P) (get_by_id env id)
  unfolding get_by_id
  get_by_id-Keeps id = search (world_rules, found-Keeps)

  get_by_slug-Keeps : (slug : String) → Keeps (On P) (get_by_slug env slug)
  unfolding get_by_slug
  get_by_slug-Keeps slug = search (world_rules, found-Keeps)

pub data Call : Type 0 where
  call_create : CreateTenantCommand → Call
  call_update : (id : ℕ) → UpdateTenantCommand → Call
  call_delete : (id : ℕ) → Call

module _ (env : Env) (jsonb : String → Option String) (f : Format) where
  pub run : Call → World Table (Unit {0}) → World Table (Unit {0})
  run (call_create c) w = (create_tenant env jsonb f c w).1
  run (call_update id c) w = (update_tenant env jsonb f id c w).1
  run (call_delete id) w = (delete_tenant env id w).1

  pub run_all : List Call → World Table (Unit {0}) → World Table (Unit {0})
  run_all [] w = w
  run_all (c ∷ cs) w = run_all cs (run c w)

  create-Keeps : (t : Tenant) → Keeps (On Unique) (create env jsonb t)
  unfolding create
  create-Keeps t = search (world_rules, insert_tenant-Safe)

  update-Keeps : (t : Tenant) → Keeps (On Unique) (update env jsonb t)
  unfolding update
  update-Keeps t = search (world_rules, update_tenant_row-Safe, require_row-Keeps) depth 8

  delete-Keeps : (id : ℕ) → Keeps (On Unique) (delete env id)
  unfolding delete
  delete-Keeps id = search (world_rules, delete_tenant_row-Safe, require_row-Keeps) depth 8

  create_tenant_if-Keeps :
      (r : Result Tenant) (c : CreateTenantCommand)
      → Keeps (On Unique) (create_tenant_if env jsonb f r c)
  create_tenant_if-Keeps (ok t) c = search world_rules
  create_tenant_if-Keeps (err e) c = search (world_rules, create-Keeps) depth 8

  create_tenant-Keeps : (c : CreateTenantCommand) → Keeps (On Unique) (create_tenant env jsonb f c)
  unfolding create_tenant
  create_tenant-Keeps c =
      search (world_rules, get_by_slug-Keeps env, create_tenant_if-Keeps) depth 8

  update_tenant-Keeps :
      (id : ℕ) (c : UpdateTenantCommand) → Keeps (On Unique) (update_tenant env jsonb f id c)
  unfolding update_tenant
  update_tenant-Keeps id c = search (world_rules, get_by_id-Keeps env, update-Keeps) depth 8

  delete_tenant-Keeps : (id : ℕ) → Keeps (On Unique) (delete_tenant env id)
  unfolding delete_tenant
  delete_tenant-Keeps id = search (world_rules, get_by_id-Keeps env, delete-Keeps) depth 8

  run-Unique : (c : Call) (w : World Table (Unit {0})) → On Unique w → On Unique (run c w)
  unfolding run
  run-Unique (call_create c) w h = (create_tenant-Keeps c).at w h
  run-Unique (call_update id c) w h = (update_tenant-Keeps id c).at w h
  run-Unique (call_delete id) w h = (delete_tenant-Keeps id).at w h

  pub run_all-On :
      (cs : List Call) (w : World Table (Unit {0})) → On Unique w → On Unique (run_all cs w)
  unfolding run_all
  run_all-On [] w h = h
  run_all-On (c ∷ cs) w h = run_all-On cs (run c w) (run-Unique c w h)
