-- ===== src/Http/Recording/Recorded.antt =====
-- What the two tables say of each request.
use go_codebase.Prelude.{
  ℕ, ◌≡◌, refl, String, Option, none, some, [], ◌∷◌, ◌++◌, leb, if◌then◌else◌, Bool-cases, inl, inr,
}
use go_codebase.Core.Runtime.{Env, reliable, read_clock}
use go_codebase.Http.Middleware.{with_request_id}
use go_codebase.Http.Recording.{
  Request, Scope, AuditRow, ErrorRow, Served, Outcome, returned, panicked, State, Handler, Texts,
  ErrorInfo, report_status, audit_row, persist_error, recording, recovered, seen, audited, has_body,
}

abbrev pub scope_of : (fresh : String) → Request → Scope → Scope
scope_of fresh r c = record c { keys = with_request_id r.request_id fresh c.keys }

module _ {S : Type 0} where
  abbrev pub AuditedOnce : Request → Served → (v end : State S) → Type 0
  AuditedOnce r s v end =
      (a : AuditRow) × (end.db.audit_logs ≡ v.db.audit_logs ++ a ∷ [])
      × (a.status_code ≡ s.status_code)
      × (a.method ≡ r.method)
      × (a.path ≡ r.path)

  abbrev pub ReportedOnce : Request → (status : ℕ) → (v end : State S) → Type 0
  ReportedOnce r status v end =
      (e : ErrorRow) × (end.db.error_logs ≡ v.db.error_logs ++ e ∷ [])
      × (e.status_code ≡ status)
      × (e.method ≡ r.method)
      × (e.path ≡ r.path)

  -- What the client gets and what is recorded for a handler that ended in the state `v`.
  abbrev pub Noted : Request → Outcome → State S → Outcome → State S → Type 0
  Noted r (returned s) v out end =
      (out ≡ returned s)
      × AuditedOnce r s v end
      × (if leb 500 s.status_code
          then ReportedOnce r s.status_code v end
          else end.db.error_logs ≡ v.db.error_logs)
  Noted r (panicked text sent) v out end =
      ((s : Served) × (out ≡ returned s)
        × (s.status_code ≡ (elim sent [ none ↦ 500 | some before ↦ before.status_code ])))
      × (end.db.audit_logs ≡ v.db.audit_logs)
      × ReportedOnce r 500 v end

  -- The state in which the handler starts, and its context.
  abbrev pub entered : Env → State S → State S
  entered env w = (read_clock env w).1

  module _ (env : Env) (t : Texts) (r : Request) (c : Scope) where
    abbrev whole : (started : ℕ) (body : String) → Outcome × State S → Outcome × State S
    whole started body o =
        recovered (reliable env) t c r
          (seen (reliable env) t c r (audited (reliable env) t started c r body o))

    report_status-Once :
        (info : Option ErrorInfo) (status : ℕ) (v : State S)
        → ((report_status (reliable env) t info c r status v).db.audit_logs ≡ v.db.audit_logs)
          × ReportedOnce r status v (report_status (reliable env) t info c r status v)
    unfolding persist_error
    report_status-Once none status v = (refl, (_, refl, refl, refl, refl))
    report_status-Once (some info) status v = (refl, (_, refl, refl, refl, refl))

    whole-Noted :
        (started : ℕ) (body : String) (o : Outcome × State S)
        → Noted r o.0 o.1 (whole started body o).0 (whole started body o).1
    unfolding persist_error audit_row
    whole-Noted started body (panicked text none, v) =
        ((_, refl, refl), refl, (_, refl, refl, refl, refl))
    whole-Noted started body (panicked text (some before), v) =
        ((_, refl, refl), refl, (_, refl, refl, refl, refl))
    whole-Noted started body (returned s, v) =
        let after = (audited (reliable env) t started c r body (returned s, v)).1 in
        let (same, once) = report_status-Once c.error_info s.status_code after in
        elim (Bool-cases (leb 500 s.status_code)) [
          | inl failed ↦ rw failed (refl, (_, same, refl, refl, refl), once)
          | inr fine ↦ rw fine (refl, (_, refl, refl, refl, refl), refl)
        ]

  -- Where the database answers, whatever the handler does: if it returns, the client gets what it
  -- sent, and the request is in the audit log once, with its status, and in the error log once if
  -- the status is 500 or more, else not; if it panics, the client gets status 500, or the status
  -- that the handler had sent before, and the request is in the error log once, with status 500,
  -- but not in the audit log.
  pub recording-Noted :
      (env : Env) (t : Texts) (fresh : String) (next : Handler S) (r : Request) (c : Scope)
      (w : State S)
      → let (o, v) = next (scope_of fresh r c) r (entered env w) in
        let (out, end) = recording (reliable env) t fresh next c r w in Noted r o v out end
  unfolding recording
  recording-Noted env t fresh next r c w =
      whole-Noted env t r (scope_of fresh r c) (env.now w.tick)
        (if has_body r then w.db.unread else "") (next (scope_of fresh r c) r (entered env w))
