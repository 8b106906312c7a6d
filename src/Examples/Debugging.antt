-- ===== src/Examples/Debugging.antt =====
-- A debug buffer of two places after three messages.
use go_codebase.Prelude.{◌≡◌, List, [], ◌∷◌, take, arith}
use go_codebase.Infrastructure.Debug.{new_debug_buffer, read}
use go_codebase.Infrastructure.Debug.Latest.{Message, add_all, history, read-latest}

abbrev three_messages : List Message
three_messages =
    record { now = 1; subject = "events.a"; payload = 10 ∷ [] }
    ∷ record { now = 2; subject = "events.b"; payload = 20 ∷ [] }
    ∷ record { now = 3; subject = "events.c"; payload = 30 ∷ [] }
    ∷ []

read-latest_example :
    read (add_all three_messages (new_debug_buffer 2)) ≡ take 2 (history three_messages [])
read-latest_example = read-latest 2 three_messages (omega arith)
