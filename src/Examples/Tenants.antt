-- ===== src/Examples/Tenants.antt =====
-- Tenants at a concrete table.
use go_codebase.Prelude.{◌≡◌, refl, String, Option, true, none, some, [], ◌∷◌}
use go_codebase.Core.Proc.{ok}
use go_codebase.Core.Runtime.{World, reliable}
use go_codebase.Tenant.Repository.{Tenant, Table}
use go_codebase.Tenant.Commands.{
  Format, CreateTenantCommand, new_tenant, response_of, create_tenant, get_tenant,
}
use go_codebase.Tenant.Guarantees.{created_tenant_found}
use go_codebase.Examples.Sample.{counting}

abbrev acme : Tenant
acme = record {
  id = 1;
  name = "Acme";
  slug = "acme";
  domain = none;
  settings = "{}";
  is_active = true;
  created_at = 1;
  updated_at = 1;
}

abbrev begin : World Table (Unit {0})
begin = record { db = acme ∷ []; tick = 3; published = [] }

-- Every text is in its normal form.
abbrev any_json : String → Option String
any_json s = some s

abbrev no_format : Format
no_format = record {
  local_nanoseconds = λ n. "here";
  nanoseconds = λ n. "there";
  seconds = λ n. "there";
  uuid_text = λ n. "id";
}

abbrev asks : (slug : String) → CreateTenantCommand
asks slug = record { name = "New"; slug = slug; domain = none; settings = none }

created_tenant_found_example :
    ((create_tenant (reliable counting) any_json no_format (asks "other") begin).0
      ≡ ok (response_of (λ n. "id") (λ n. "here") (λ n. "here") (new_tenant 105 4 (asks "other"))))
    × ((get_tenant
          (reliable counting)
          no_format
          105
          (create_tenant (reliable counting) any_json no_format (asks "other") begin).1).0
        ≡ ok (
            response_of
              (λ n. "id")
              (λ n. "there")
              (λ n. "there")
              (new_tenant 105 4 (asks "other"))))
unfolding new_tenant
created_tenant_found_example =
    created_tenant_found counting any_json no_format (asks "other") "{}" begin refl refl
