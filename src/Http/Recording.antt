-- ===== src/Http/Recording.antt =====
-- internal/shared/middleware: ErrorHandler, ErrorRecorder and persistError of middleware.go,
-- and audit.go, with the inserts of internal/shared/auditlog. A handler may return or panic, and
-- works on the state `S` of the application and on what is left of the request's body.
pub mod Recorded
pub mod Anonymous
use go_codebase.Prelude.{
  ℕ, ◌+◌, ◌-◌, ◌/◌, String, Bool, true, false, ◌||◌, Option, none, some, List, [], ◌∷◌, ◌++◌, leb,
  str_eq, if◌then◌else◌, or_else,
}
use go_codebase.Prelude.Int.{ℤ, int32}
use go_codebase.Core.Errors.{GoError}
use go_codebase.Core.Proc.{Result, ok, err, Proc, ◌>>=◌, ◌>>◌, return, ignore, attempt}
use go_codebase.Core.Runtime.{Env, World, read_clock, new_uuid, exec}
use go_codebase.Http.Middleware.{RequestContext, with_request_id}

pub record Request : Type 0 where
  pub method : String
  pub path : String
  pub raw_query : String
  pub remote_addr : String
  pub user_agent : String
  pub request_id : String

-- utils.ErrorInfo
pub record ErrorInfo : Type 0 where
  pub error : String
  pub stack : String

-- The values in the context of a request.
pub record Scope : Type 0 where
  pub keys : RequestContext
  pub error_info : Option ErrorInfo

-- Rows of audit_logs and error_logs, with their nullable columns.
pub record AuditRow : Type 0 where
  pub id : ℕ
  pub request_id : String
  pub user_id : Option ℕ
  pub user_email : Option String
  pub method : String
  pub path : String
  pub status_code : ℕ
  pub duration_ms : ℕ
  pub ip : String
  pub user_agent : String
  pub request_body : Option String
  pub response_size : ℤ
  pub tenant_id : String
  pub created_at : ℕ

pub record ErrorRow : Type 0 where
  pub id : ℕ
  pub request_id : String
  pub user_id : Option ℕ
  pub user_email : Option String
  pub level : String
  pub message : String
  pub error : String
  pub stack_trace : String
  pub method : String
  pub path : String
  pub status_code : ℕ
  pub ip : String
  pub user_agent : String
  pub request_body : Option String
  pub metadata : String
  pub tenant_id : String
  pub created_at : ℕ

-- The two tables, the messages of the logger, what is not yet read of the request's body, and the
-- rest of the application.
pub record Server (S : Type 0) : Type 0 where
  pub audit_logs : List AuditRow
  pub error_logs : List ErrorRow
  pub logged : List String
  pub unread : String
  pub app : S

-- The status that the handler set last, 200 without one, and the bytes that it wrote.
pub record Served : Type 0 where
  pub status_code : ℕ
  pub bytes_written : ℕ

-- What was sent before a panic, if anything was.
pub data Outcome : Type 0 where
  returned : Served → Outcome
  panicked : (text : String) (sent : Option Served) → Outcome

abbrev pub State : Type 0 → Type 0
State S = World (Server S) (Unit {0})

abbrev pub Handler : Type 0 → Type 0
Handler S = Scope → Request → State S → Outcome × State S

-- What the middleware takes of net/http, runtime/debug, encoding/json and uuid: `stack` is
-- `debug.Stack()`, `query_json` the text of {"query": …}, `envelope_size` the bytes of the answer to
-- a panic.
pub record Texts : Type 0 where
  pub status_text : ℕ → String
  pub stack : String
  pub query_json : String → String
  pub parse_uuid : String → Option ℕ
  pub envelope_size : String → ℕ

abbrev pub non_empty : String → Option String
non_empty s = if str_eq s "" then none else some s

abbrev pub has_body : Request → Bool
has_body r = str_eq r.method "POST" || (str_eq r.method "PUT" || str_eq r.method "PATCH")

module _ (t : Texts) where
  -- `ptrStringToNullUUID`
  unfoldable pub null_uuid : Option String → Option ℕ
  null_uuid none = none
  null_uuid (some s) = t.parse_uuid s

  unfoldable pub error_row :
      (id now : ℕ) → Scope → Request → (status : ℕ) (message err_msg stack body : String) → ErrorRow
  unfolding null_uuid
  error_row id now c r status message err_msg stack body = record {
    id = id;
    request_id = c.keys.request_id;
    user_id = null_uuid (non_empty c.keys.user_id);
    user_email = non_empty c.keys.user_email;
    level = "error";
    message = message;
    error = err_msg;
    stack_trace = stack;
    method = r.method;
    path = r.path;
    status_code = status;
    ip = r.remote_addr;
    user_agent = r.user_agent;
    request_body = if has_body r then non_empty body else none;
    metadata = t.query_json r.raw_query;
    tenant_id = c.keys.tenant_id;
    created_at = now;
  }

  unfoldable pub audit_row :
      (id now : ℕ) (started ended : ℕ) → Scope → Request → Served → (body : String) → AuditRow
  unfolding null_uuid
  audit_row id now started ended c r s body = record {
    id = id;
    request_id = c.keys.request_id;
    user_id = null_uuid (non_empty c.keys.user_id);
    user_email = non_empty c.keys.user_email;
    method = r.method;
    path = r.path;
    status_code = s.status_code;
    duration_ms = (ended - started) / 1_000_000;
    ip = r.remote_addr;
    user_agent = r.user_agent;
    request_body = non_empty body;
    response_size = int32 s.bytes_written;
    tenant_id = c.keys.tenant_id;
    created_at = now;
  }

  -- A status that was sent stays; the body of the answer comes behind what was written.
  abbrev pub answered : (text : String) → Option Served → Served
  answered text none = record { status_code = 500; bytes_written = t.envelope_size text }
  answered text (some s) = record s { bytes_written = s.bytes_written + t.envelope_size text }

module _ {S : Type 0} where
  abbrev add_error : ErrorRow → Server S → Option (Server S)
  add_error row d = some (record d { error_logs = d.error_logs ++ row ∷ [] })

  abbrev add_audit : AuditRow → Server S → Option (Server S)
  add_audit row d = some (record d { audit_logs = d.audit_logs ++ row ∷ [] })

  abbrev report : Result (Unit {0}) × State S → State S
  report (ok u, w) = w
  report (err e, w) = record w {
    db = record w.db { logged = w.db.logged ++ "failed to persist error log" ∷ [] };
  }

module _ {S : Type 0} (env : Env) (t : Texts) where
  -- `io.ReadAll(r.Body)`, after which the body is put back as it was.
  abbrev insert_error :
      Scope → Request → (status : ℕ) (message err_msg stack : String) → Proc (State S) (Unit {0})
  insert_error c r status message err_msg stack = do
    id ← new_uuid env
    now ← read_clock env
    exec env "insert error log"
        (λ d. add_error (error_row t id now c r status message err_msg stack d.unread) d)

  unfoldable pub persist_error :
      Scope → Request → (status : ℕ) (message err_msg stack : String) → State S → State S
  unfolding error_row
  persist_error c r status message err_msg stack w =
      report (insert_error c r status message err_msg stack w)

  abbrev recovered : Scope → Request → Outcome × State S → Outcome × State S
  recovered c r (returned s, w) = (returned s, w)
  recovered c r (panicked text sent, w) = (
    returned (answered t text sent),
    persist_error c r 500 "panic recovered" text t.stack
        (record w { db = record w.db { logged = w.db.logged ++ "panic recovered" ∷ [] } }),
  )

  unfoldable pub error_handler : Handler S → Handler S
  unfolding persist_error
  error_handler next c r w = recovered c r (next c r w)

  -- `CaptureError` is called by nothing, so the writer's own message and stack are empty.
  abbrev report_status : Option ErrorInfo → Scope → Request → (status : ℕ) → State S → State S
  report_status none c r status w = persist_error c r status (t.status_text status) "" "" w
  report_status (some info) c r status w =
      persist_error c r status info.error info.error info.stack w

  abbrev seen : Scope → Request → Outcome × State S → Outcome × State S
  seen c r (panicked text sent, w) = (panicked text sent, w)
  seen c r (returned s, w) = (
    returned s,
    if leb 500 s.status_code then report_status c.error_info c r s.status_code w else w,
  )

  unfoldable pub error_recorder : Handler S → Handler S
  unfolding persist_error
  error_recorder next c r w = seen c r (next c r w)

  abbrev insert_audit :
      (started : ℕ) → Scope → Request → Served → (body : String) → Proc (State S) (Unit {0})
  insert_audit started c r s body = do
    ended ← read_clock env
    id ← new_uuid env
    now ← read_clock env
    exec env "insert audit log" (add_audit (audit_row t id now started ended c r s body))

  -- A handler that panics leaves the middleware before it comes to the entry.
  abbrev audited :
      (started : ℕ) → Scope → Request → (body : String) → Outcome × State S → Outcome × State S
  audited started c r body (panicked text sent, w) = (panicked text sent, w)
  audited started c r body (returned s, w) =
      (returned s, (ignore (insert_audit started c r s body) w).1)

  -- The body is read whole and put back before the handler runs.
  unfoldable pub audit_log : Handler S → Handler S
  unfolding audit_row
  audit_log next c r w =
      audited (env.now w.tick) c r (if has_body r then w.db.unread else "")
        (next c r (read_clock env w).1)

  -- From RequestID inwards, for the requests that CORS passes on; SecurityHeaders and Tracing add
  -- headers and spans. `fresh` is the text of a new UUID.
  unfoldable pub recording : (fresh : String) → Handler S → Handler S
  unfolding error_handler error_recorder audit_log with_request_id
  recording fresh next c r =
      error_handler (error_recorder (audit_log next))
        (record c { keys = with_request_id r.request_id fresh c.keys }) r
