-- ===== src/Http/Recording/Anonymous.antt =====
-- Who a recorded request came from.
use go_codebase.Prelude.{
  ◌≡◌, refl, String, Option, none, List, [], ◌∷◌, ◌++◌, All, leb, if◌then◌else◌, ℕ, or_else, ap,
  Bool-cases, inl, inr,
}
use mathlib.Core.Path.{subst}
use go_codebase.Core.Proc.{Result, ok, err, Keeps, keeps_rules}
use go_codebase.Core.Runtime.{Env, read_clock}
use go_codebase.Core.Runtime.Preserves.{On, Safe, Keeps-read_clock, Keeps-new_uuid, Keeps-exec}
use go_codebase.Http.Middleware.{with_request_id}
use go_codebase.Http.Recording.{
  Request, Scope, Server, Served, Outcome, returned, panicked, State, Handler, Texts, has_body,
  null_uuid, error_row, audit_row, persist_error, recording, recovered, seen, audited, report,
  add_error, add_audit, insert_error, insert_audit,
}
use go_codebase.Http.Recording.Recorded.{scope_of}

-- The context of a request that comes in.
abbrev pub background : Scope
background = record {
  keys = record {
    request_id = "";
    user_id = "";
    user_email = "";
    user_role = "";
    tenant_id = "";
    tenant_claim = "";
  };
  error_info = none;
}

abbrev pub NamesNobody : Option ℕ → Option String → String → Type 0
NamesNobody user_id user_email tenant_id = (user_id ≡ none) × (user_email ≡ none) × (tenant_id ≡ "")

abbrev pub Anonymous : {S : Type 0} → Server S → Type 0
Anonymous d =
    All (λ a. NamesNobody a.user_id a.user_email a.tenant_id) d.audit_logs
    × All (λ e. NamesNobody e.user_id e.user_email e.tenant_id) d.error_logs

All-snoc :
    {A : Type 0} (P : A → Type 0) (xs : List A) (x : A) → All P xs → P x → All P (xs ++ x ∷ [])
All-snoc P [] x h p = (p, tt)
All-snoc P (y ∷ ys) x h p = (h.0, All-snoc P ys x h.1 p)

-- The context behind RequestID.
abbrev entry : (fresh : String) → Request → Scope
entry fresh r = scope_of fresh r background

module _ {S : Type 0} where
  report-Anonymous : (o : Result (Unit {0}) × State S) → Anonymous o.1.db → Anonymous (report o).db
  report-Anonymous (ok u, w) h = h
  report-Anonymous (err e, w) h = h

module _ {S : Type 0} (env : Env) (t : Texts) (fresh : String) (r : Request) where
  add_error-Safe :
      (id now status : ℕ) (message err_msg stack : String)
      → Safe (Anonymous {S = S}) (λ d.
        add_error (error_row t id now (entry fresh r) r status message err_msg stack d.unread) d)
  unfolding error_row null_uuid with_request_id
  add_error-Safe id now status message err_msg stack = record {
    at = λ d e same h. subst Anonymous (ap (λ o. or_else o d) same) (
      h.0,
      All-snoc (λ x. NamesNobody x.user_id x.user_email x.tenant_id) d.error_logs
          (error_row t id now (entry fresh r) r status message err_msg stack d.unread) h.1
          (refl, refl, refl),
    );
  }

  add_audit-Safe :
      (id now started ended : ℕ) (s : Served) (body : String)
      → Safe
          (Anonymous {S = S})
          (add_audit (audit_row t id now started ended (entry fresh r) r s body))
  unfolding audit_row null_uuid with_request_id
  add_audit-Safe id now started ended s body = record {
    at = λ d e same h. subst Anonymous (ap (λ o. or_else o d) same) (
      All-snoc (λ x. NamesNobody x.user_id x.user_email x.tenant_id) d.audit_logs
          (audit_row t id now started ended (entry fresh r) r s body) h.0 (refl, refl, refl),
      h.1,
    );
  }

  insert_error-Keeps :
      (status : ℕ) (message err_msg stack : String)
      → Keeps
          (On (Anonymous {S = S}))
          (insert_error env t (entry fresh r) r status message err_msg stack)
  insert_error-Keeps status message err_msg stack =
      search (keeps_rules, Keeps-new_uuid, Keeps-read_clock, Keeps-exec, add_error-Safe)

  insert_audit-Keeps :
      (started : ℕ) (s : Served) (body : String)
      → Keeps (On (Anonymous {S = S})) (insert_audit env t started (entry fresh r) r s body)
  insert_audit-Keeps started s body =
      search (keeps_rules, Keeps-new_uuid, Keeps-read_clock, Keeps-exec, add_audit-Safe)

  persist_error-Anonymous :
      (status : ℕ) (message err_msg stack : String) (w : State S)
      → Anonymous w.db
      → Anonymous (persist_error env t (entry fresh r) r status message err_msg stack w).db
  unfolding persist_error
  persist_error-Anonymous status message err_msg stack w h =
      report-Anonymous (insert_error env t (entry fresh r) r status message err_msg stack w)
        ((insert_error-Keeps status message err_msg stack).at w (record { tables = h })).tables

  audited-Anonymous :
      (started : ℕ) (body : String) (o : Outcome × State S)
      → Anonymous o.1.db
      → Anonymous (audited env t started (entry fresh r) r body o).1.db
  audited-Anonymous started body (panicked text sent, w) h = h
  audited-Anonymous started body (returned s, w) h =
      ((insert_audit-Keeps started s body).at w (record { tables = h })).tables

  seen-Anonymous :
      (o : Outcome × State S) → Anonymous o.1.db → Anonymous (seen env t (entry fresh r) r o).1.db
  seen-Anonymous (panicked text sent, w) h = h
  seen-Anonymous (returned s, w) h = elim (Bool-cases (leb 500 s.status_code)) [
    | inl failed ↦
        rw failed (persist_error-Anonymous s.status_code (t.status_text s.status_code) "" "" w h)
    | inr fine ↦ rw fine h
  ]

  recovered-Anonymous :
      (o : Outcome × State S)
      → Anonymous o.1.db
      → Anonymous (recovered env t (entry fresh r) r o).1.db
  recovered-Anonymous (returned s, w) h = h
  recovered-Anonymous (panicked text sent, w) h =
      persist_error-Anonymous 500 "panic recovered" text t.stack
        (record w { db = record w.db { logged = w.db.logged ++ "panic recovered" ∷ [] } }) h

  -- No entry of the two logs names a user or a tenant, whatever the handler does, if it writes no
  -- such entry itself and there was none before, with or without failures of the database: the
  -- values are read from the context from before the authentication.
  pub recording-Anonymous :
      (next : Handler S) (w : State S)
      → ((c : Scope) (q : Request) (v : State S) → Anonymous v.db → Anonymous (next c q v).1.db)
      → Anonymous w.db
      → Anonymous (recording env t fresh next background r w).1.db
  unfolding recording
  recording-Anonymous next w keeps h =
      let start = (read_clock env w).1 in
      let body = if has_body r then w.db.unread else "" in
      let o = next (entry fresh r) r start in
      let audit = audited env t (env.now w.tick) (entry fresh r) r body o in
      recovered-Anonymous (seen env t (entry fresh r) r audit) (
        seen-Anonymous audit
          (audited-Anonymous (env.now w.tick) body o (keeps (entry fresh r) r start h)))
