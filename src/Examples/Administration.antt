-- ===== src/Examples/Administration.antt =====
-- The administration of users at a concrete table.
use go_codebase.Prelude.{◌≡◌, refl, true, false, none, some, [], ◌∷◌, find}
use go_codebase.Core.Proc.{ok}
use go_codebase.Core.Entity.{soft_delete}
use go_codebase.Core.Runtime.{World, reliable}
use go_codebase.Auth.Entity.{User, Event}
use go_codebase.Auth.Tables.{UserRecord, Db, matches}
use go_codebase.User.Repository.{user_of, get_by_id, update, update_user_row}
use go_codebase.User.Commands.{delete_user}
use go_codebase.User.Handlers.{update_user_http}
use go_codebase.User.Guarantees.{deleted_user_found, update_user_http-activates}
use go_codebase.Examples.Sample.{counting, ann, start}

abbrev inactive : UserRecord
inactive = record ann { is_active = false }

abbrev disabled : World Db Event
disabled = record (start 0) { db = record (start 0).db { users = inactive ∷ [] } }

deleted_user_found_example :
    (u : User) × ((get_by_id (reliable counting) 1 (delete_user counting 1 disabled).1).0 ≡ ok u)
unfolding delete_user get_by_id update update_user_row user_of soft_delete
deleted_user_found_example = deleted_user_found counting 1 disabled refl

update_user_http-activates_example :
    (r' : UserRecord) × (find
        (matches 1)
        (update_user_http true ""
          (reliable counting)
          (λ n. "id")
          (λ n. "t")
          (some 1)
          (some (record { name = "Anne"; email = ""; is_active = none }))
          disabled).1.db.users
      ≡ some r')
    × (r'.is_active ≡ true)
update_user_http-activates_example =
    update_user_http-activates true "" counting (λ n. "id") (λ n. "t") disabled "Anne" inactive refl
      refl
