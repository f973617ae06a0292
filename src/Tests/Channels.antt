-- ===== src/Tests/Channels.antt =====
-- A channel with room for three, and messages that are as large as they say.
use rjrssync.Common.{ℕ, some, List, [], ◌∷◌, ◌≡◌, refl}
use rjrssync.Channel.{Event, sends, polls, takes, returns, run}
use rjrssync.Channel.Memory.{Bounded, nothing_yet, run_new-Bounded}

abbrev size : ℕ → ℕ
size n = n

-- The third message waits, until the first is received.
abbrev events : List (Event ℕ)
events =
    sends 2
    ∷ polls
    ∷ sends 5
    ∷ polls
    ∷ sends 9
    ∷ polls
    ∷ takes
    ∷ polls
    ∷ returns
    ∷ polls
    ∷ takes
    ∷ returns
    ∷ []

third_waits :
    ((run size 3 events nothing_yet).received ≡ 2 ∷ 5 ∷ [])
    × ((run size 3 events nothing_yet).channel.sending ≡ some (9, 9))
unfolding run
third_waits = (refl, refl)

run_new-Bounded_example : Bounded 3 (run size 3 events nothing_yet)
run_new-Bounded_example = run_new-Bounded size 3 events
