-- ===== src/Authz/Answers.antt =====
-- Names of roles that are taken, in internal/authorization/application/command/create_role.go.
use go_codebase.Prelude.{
  ℕ, suc, ◌≡◌, refl, ◌∙◌, String, true, ◌||◌, none, List, [], ◌∷◌, ◌==◌, any, str_eq, arith,
}
use go_codebase.Core.Errors.{GoError, sentinel, conflict}
use go_codebase.Core.Proc.{Result, ok, err, follow, return}
use go_codebase.Core.Runtime.{Env}
use go_codebase.Core.Runtime.Ends.{exec-none}
use go_codebase.Authz.Entity.{Role, new_role}
use go_codebase.Authz.Tables.{RoleRecord, Db, role_record_of, insert_role}
use go_codebase.Authz.Repositories.{State, create_role_row, get_role_by_name}
use go_codebase.Authz.Commands.{create_role, create_role_if}

name_taken :
    (name : String) (id : ℕ) (rows : List RoleRecord)
    → any (λ o. str_eq o.name name) rows ≡ true
    → any (λ o. o.id == id || str_eq o.name name) rows ≡ true
name_taken name id [] h = h
name_taken name id (x ∷ xs) h = ground (arith, name_taken name id xs)

abbrev pub Refused : {M : Type 0} → Result Role × State M → Db M → Type 0
Refused r db = (e : GoError) × (r.0 ≡ err e) × (r.1.db ≡ db)

after_refusal :
    {M : Type 0} (m : Result (Unit {0}) × State M) (role : Role) (db : Db M)
    → (e : GoError) × (m.0 ≡ err e) × (m.1.db ≡ db)
    → Refused (follow m (λ u. return role)) db
after_refusal (ok u, w) role db (e, p, q) = absurd (ground arith)
after_refusal (err x, w) role db (e, p, q) = (e, ground arith, q)

insert_role-taken :
    {M : Type 0} (role : Role) (db : Db M)
    → any (λ o. str_eq o.name role.name) db.roles ≡ true
    → insert_role (role_record_of role) db ≡ none
unfolding insert_role
insert_role-taken role db h = rw (name_taken role.name role.id db.roles h) refl

module _ {M : Type 0} (env : Env) (name description : String) where
  create_role_if-taken :
      (r : Result Role) (w : State M)
      → any (λ o. str_eq o.name name) w.db.roles ≡ true
      → Refused (create_role_if env r name description w) w.db
  unfolding create_role_row new_role
  create_role_if-taken (ok existing) w taken = (sentinel conflict, refl, refl)
  create_role_if-taken (err x) w taken =
      let role = new_role (env.uuid w.tick) (env.now (suc w.tick)) name description in
      let later : State M = record w { tick = suc (suc w.tick) } in
      after_refusal (create_role_row env role later) role w.db (
        exec-none env "insert role" (insert_role (role_record_of role)) later
          (insert_role-taken role w.db taken))

  db-get_role_by_name : (w : State M) → (get_role_by_name env name w).1.db ≡ w.db
  unfolding get_role_by_name
  db-get_role_by_name w = ground arith

  -- No role is created under the name of another, deleted or not, whatever the database answers:
  -- the request returns an error and leaves the tables as they were.
  pub create_role-taken :
      (w : State M)
      → any (λ o. str_eq o.name name) w.db.roles ≡ true
      → Refused (create_role env name description w) w.db
  unfolding create_role
  create_role-taken w taken =
      let same = db-get_role_by_name w in
      let (e, p, q) =
        create_role_if-taken (get_role_by_name env name w).0 (get_role_by_name env name w).1
          (rw (same) taken) in
      (e, p, q ∙ same)
