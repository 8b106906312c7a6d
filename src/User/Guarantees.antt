-- ===== src/User/Guarantees.antt =====
-- What the administration of users leaves true of the table of users.
use go_codebase.Prelude.{
  ℕ, suc, ◌≡◌, refl, String, Bool, true, false, not, ◌&&◌, ◌||◌, none, some, List, [], ◌∷◌, ◌==◌,
  find, any, update_where, str_eq, arith, find_sound, find-update_where, any_of_find, Option-cases,
  inl, inr,
}
use go_codebase.Core.Entity.{soft_delete}
use go_codebase.Core.Errors.{sentinel, wrap, already_exists}
use go_codebase.Core.Proc.{ok}
use go_codebase.Core.Runtime.{Env, World, reliable}
use go_codebase.Auth.Entity.{User, Event}
use go_codebase.Auth.Tables.{UserRecord, Db, matches, insert_user}
use go_codebase.User.Repository.{user_of, revised, get_by_id, create, update, update_user_row}
use go_codebase.User.Commands.{delete_user, update_user, changed_user, create_user, new_user_of}
use go_codebase.User.Handlers.{Reply, CreateUserRequest, update_user_http, create_user_http}
use go_codebase.Http.Response.{handle, map_error, respond_error}

matched_id : (id : ℕ) (r : UserRecord) → matches id r ≡ true → r.id ≡ id
matched_id id r h = ground arith

-- The row is live under its identifier after any update.
still_matches :
    (id now : ℕ) (u : User) (r : UserRecord)
    → matches id r ≡ true
    → matches id (revised now u r) ≡ true
still_matches id now u r h = h

still_found :
    (id i now : ℕ) (u : User) (rows : List UserRecord) (r : UserRecord)
    → i ≡ id
    → find (matches id) rows ≡ some r
    → find (matches id) (update_where (matches i) (revised now u) rows) ≡ some (revised now u r)
still_found id i now u rows r e h =
    rw (e) (find-update_where (matches id) (revised now u) rows r (still_matches id now u) h)

module _ (env : Env) (id : ℕ) (w : World Db Event) where
  abbrev soft_deleted : UserRecord → User
  soft_deleted r = record (user_of r) {
    entity = soft_delete (env.now (suc w.tick)) (user_of r).entity;
  }

  deleted_rows :
      (r : UserRecord)
      → find (matches id) w.db.users ≡ some r
      → (delete_user env id w).0 ≡ ok tt
      → (delete_user env id w).1.db.users
        ≡ update_where
            (matches r.id)
            (revised (env.now (suc (suc w.tick))) (soft_deleted r))
            w.db.users
  unfolding delete_user get_by_id update update_user_row user_of soft_delete
  deleted_rows r there h = ground arith

  row_of_deleted :
      (delete_user env id w).0 ≡ ok tt → (r : UserRecord) × (find (matches id) w.db.users ≡ some r)
  unfolding delete_user get_by_id
  row_of_deleted h = elim (Option-cases (find (matches id) w.db.users)) [
    | inl e ↦ absurd (ground arith)
    | inr (r, e) ↦ (r, e)
  ]

  -- After a request to delete a user that returns no error, the user is still found by the next
  -- request for it, where the database answers that one.
  pub deleted_user_found :
      (delete_user env id w).0 ≡ ok tt
      → (u : User) × ((get_by_id (reliable env) id (delete_user env id w).1).0 ≡ ok u)
  unfolding get_by_id
  deleted_user_found h =
      let (r, there) = row_of_deleted h in
      let now = env.now (suc (suc w.tick)) in
      let same : r.id ≡ id = matched_id id r (find_sound (matches id) w.db.users r there) in
      let still : find (matches id) (delete_user env id w).1.db.users
          ≡ some (revised now (soft_deleted r) r) =
        rw (deleted_rows r there h)
          (still_found id r.id now (soft_deleted r) w.db.users r same there) in
      (user_of (revised now (soft_deleted r) r), rw (still) refl)

any_either :
    (id : ℕ) (email : String) (rows : List UserRecord)
    → any (λ o. str_eq o.email email) rows ≡ true
    → any (λ o. o.id == id || str_eq o.email email) rows ≡ true
any_either id email [] h = h
any_either id email (x ∷ xs) h = ground (arith, any_either id email xs)

module _ (is_production : Bool) (stack : String) (env : Env) (uuid_text format : ℕ → String)
    (w : World Db Event) where
  -- Where the database answers, a request for a new user with the address of another, deleted or
  -- not, is answered with status 409, and no row of users is changed.
  pub create_user_http-taken :
      (b : CreateUserRequest)
      → any (λ o. str_eq o.email b.email) w.db.users ≡ true
      → (reply : Reply) × ((create_user_http is_production stack
            (reliable env)
            uuid_text
            format
            (some b)
            w).0
          ≡ ok reply)
        × (reply.status ≡ 409)
        × ((create_user_http is_production stack
              (reliable env)
              uuid_text
              format
              (some b)
              w).1.db.users
            ≡ w.db.users)
  unfolding create_user_http create_user create insert_user new_user_of handle map_error
      respond_error
  create_user_http-taken b taken =
      let clash = any_either (env.uuid (suc w.tick)) b.email w.db.users taken in
      (
        map_error is_production stack (wrap "create user" (sentinel already_exists)),
        rw (clash) refl,
        refl,
        rw (clash) refl,
      )

  -- Where the database answers, a request that changes only the name of a user, and does not say
  -- whether the user is active, makes the user active, also where it was not.
  pub update_user_http-activates :
      (name : String) (r : UserRecord)
      → find (matches r.id) w.db.users ≡ some r
      → any (λ o. not (o.id == r.id) && str_eq o.email r.email) w.db.users ≡ false
      → (r' : UserRecord) × (find
            (matches r.id)
            (update_user_http is_production stack
              (reliable env)
              uuid_text
              format
              (some r.id)
              (some (record { name = name; email = ""; is_active = none }))
              w).1.db.users
          ≡ some r')
        × (r'.is_active ≡ true)
  unfolding update_user_http update_user get_by_id update update_user_row user_of changed_user
  update_user_http-activates name r there unique =
      let u = changed_user (env.now (suc w.tick)) name "" true (user_of r) in
      let now = env.now (suc (suc w.tick)) in
      let matched = any_of_find (matches r.id) w.db.users r there in
      (
        revised now u r,
        rw (there, matched, unique) (still_found r.id r.id now u w.db.users r refl there),
        refl,
      )
