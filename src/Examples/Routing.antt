-- ===== src/Examples/Routing.antt =====
-- A request to a route that wants a permission.
use go_codebase.Prelude.{String, ◌≡◌, refl, true, false, none, some, ◌⊎◌, ◌||◌, str_eq}
use go_codebase.Http.Response.{Response}
use go_codebase.Http.Routes.{
  Mounted, Route, Services, Headers, todo_routes, api, behind, written, served,
}
use go_codebase.Http.Routes.Protected.{Refused, Entered, Replayed, protected_route}
use go_codebase.Examples.Requests.{validate, nobody, hello}

abbrev services : Services
services = record {
  validate_token = validate;
  token_denylist = true;
  redis = λ k. none;
  entries = record { marshal = λ r. some r.body; unmarshal = λ t. none };
  denylist_key = λ j. j;
  parse = λ s. some 7;
  enforce = λ u r a. some (str_eq a "read");
  tenants = record { enabled = false; domain = "" };
  hosts = record {
    before_colon = λ s. s;
    has_suffix = λ s t. false;
    trim_suffix = λ s t. s;
    dotted = λ s. s;
  };
}

abbrev good_headers : Headers
good_headers = record {
  authorization = "Bearer good";
  tenant = "";
  host = "";
  idempotency_key = "again";
}

abbrev todos_mounted : Mounted
todos_mounted = record { prefix = "/todos"; grouped = true; routes = todo_routes }

abbrev read_todo : Route
read_todo = record {
  method = "GET";
  pattern = "/{id}";
  authenticated = true;
  permission = some ("todo", "read");
}

abbrev text_of : Response String → String
text_of a = "text"

protected_route_example :
    (((served services good_headers text_of todos_mounted read_todo hello nobody).0
          ≡ written text_of (behind services good_headers todos_mounted read_todo hello nobody))
        × (Refused (behind services good_headers todos_mounted read_todo hello nobody)
            ⊎ Entered services good_headers read_todo hello
                (behind services good_headers todos_mounted read_todo hello nobody))
      ⊎ Replayed services good_headers todos_mounted read_todo
          (served services good_headers text_of todos_mounted read_todo hello nobody).0)
    × ((str_eq "/todos" "/auth" || true) ≡ true)
unfolding api todo_routes
protected_route_example =
    protected_route services good_headers text_of 1 3 todos_mounted read_todo hello nobody refl refl
      refl
