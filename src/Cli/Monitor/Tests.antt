-- ===== src/Cli/Monitor/Tests.antt =====
-- Two controllers, with a key on each.
use omarchy_presence_unlock.Base.{ℕ, ◌≡◌, refl, List, [], ◌∷◌, Bytes, codes, arith}
use omarchy_presence_unlock.Cli.Monitor.{CapturedIrk, Event, new_irk, run_helper, start}
use omarchy_presence_unlock.Cli.Monitor.RoundTrip.{
  IsReported, first_irk, started_next, monitor_round_trip,
}

abbrev key : Bytes
key = 1 ∷ 2 ∷ 3 ∷ 4 ∷ 5 ∷ 6 ∷ 7 ∷ 8 ∷ 9 ∷ 10 ∷ 11 ∷ 12 ∷ 13 ∷ 14 ∷ 15 ∷ 255 ∷ []

abbrev captured : CapturedIrk
captured = record { random_address = codes "R"; identity_address = codes "I"; key = key }

captured-IsReported : IsReported captured
captured-IsReported = record {
  random = record { nonempty = λ e. absurd (cc e); solid = (refl, tt) };
  identity = record { nonempty = λ e. absurd (cc e); solid = (refl, tt) };
  bytes = grind arith;
  size = refl;
}

abbrev events : List (ℕ × Event)
events = (1, new_irk captured) ∷ (0, new_irk captured) ∷ []

monitor_round_trip_example : started_next (start (run_helper 0 events)) ≡ first_irk 0 events
monitor_round_trip_example =
    monitor_round_trip 0 events (captured-IsReported, (captured-IsReported, tt))
