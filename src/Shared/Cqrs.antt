-- ===== src/Shared/Cqrs.antt =====
-- internal/shared/cqrs/bus.go: the command bus and the query bus, which are the same code for two
-- names. `type_of` is reflect.TypeOf(…).String(), one call of a bus at a time.
use Prim.Native.String.{◌++◌ as append}
use go_codebase.Prelude.{
  ◌≡◌, refl, String, Option, none, some, List, [], ◌∷◌, str_eq, if◌then◌else◌, Bool-cases, inl, inr,
}
use go_codebase.Core.Errors.{plain}
use go_codebase.Core.Proc.{Proc, fail}

-- The handlers by the name of a command's type; `C` are the commands and `R` what they return.
pub record Bus (S C R : Type 0) : Type 0 where
  pub handlers : String → Option (C → Proc S R)

module _ {S C R : Type 0} (type_of : C → String) where
  unfoldable pub new_bus : Bus S C R
  new_bus = record { handlers = λ key. none }

  unfoldable pub register : C → (C → Proc S R) → Bus S C R → Bus S C R
  register cmd handler bus = record {
    handlers = λ key. if str_eq key (type_of cmd) then some handler else bus.handlers key;
  }

  abbrev handled : (message : String) → Option (C → Proc S R) → C → Proc S R
  handled message none cmd = fail (plain message)
  handled message (some handler) cmd = handler cmd

  unfoldable pub dispatch : Bus S C R → C → Proc S R
  dispatch bus cmd =
      handled (append "no handler registered for command: " (type_of cmd))
        (bus.handlers (type_of cmd)) cmd

  unfoldable pub ask : Bus S C R → C → Proc S R
  ask bus query =
      handled (append "no handler registered for query: " (type_of query))
        (bus.handlers (type_of query)) query

  abbrev pub register_all : List (C × (C → Proc S R)) → Bus S C R → Bus S C R
  register_all [] bus = bus
  register_all ((cmd, handler) ∷ rs) bus = register cmd handler (register_all rs bus)

  -- What the registrations, the latest first, say of a command.
  abbrev pub chosen : List (C × (C → Proc S R)) → C → (otherwise : Proc S R) → Proc S R
  chosen [] cmd otherwise = otherwise
  chosen ((c, handler) ∷ rs) cmd otherwise =
      let earlier = chosen rs cmd otherwise in
      if str_eq (type_of cmd) (type_of c) then handler cmd else earlier

  -- A command is given to the handler that was registered last for its type, and to no other; where
  -- there is none, the bus returns an error that names the type and runs nothing.
  pub dispatch-last :
      (rs : List (C × (C → Proc S R))) (cmd : C)
      → dispatch (register_all rs new_bus) cmd
        ≡ chosen rs cmd (fail (plain (append "no handler registered for command: " (type_of cmd))))
  unfolding dispatch register new_bus
  dispatch-last [] cmd = refl
  dispatch-last ((c, handler) ∷ rs) cmd = elim (Bool-cases (str_eq (type_of cmd) (type_of c))) [
    | inl same ↦ rw (same) refl
    | inr other ↦ rw (other) (dispatch-last rs cmd)
  ]
