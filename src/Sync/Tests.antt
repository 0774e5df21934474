-- ===== src/Sync/Tests.antt =====
-- Two threads at a guard, and a history of a notifier.
use gnsshat.Base.{◌<◌, ◌≡◌, ◌↔◌, refl, arith, true, false, [], ◌∷◌, none, some, List}
use gnsshat.Sync.Guard.{
  System, arrive, enter, Reachable, at_start, onward, start, IsExclusive, Reachable-IsExclusive,
  moved, waiting, inside, take_resource,
}
use gnsshat.Sync.Notifier.{
  silent, Event, notified, waited, observed, history, notifications, pending, wait,
  wait_for_new_generation, wait_for_new_generation_lem,
}

abbrev both_wait : System
both_wait = record { locked = false; phase = moved 1 waiting (moved 0 waiting start.phase) }

abbrev one_inside : System
one_inside = record { locked = true; phase = moved 0 inside both_wait.phase }

one_inside_reached : Reachable one_inside
unfolding take_resource
one_inside_reached =
    onward
      (onward (onward at_start (arrive {s = start} 0 refl))
        (arrive {s = record { locked = false; phase = moved 0 waiting start.phase }} 1 refl))
      (enter {s = both_wait} 0 true refl refl)

Reachable-IsExclusive_example : IsExclusive one_inside
Reachable-IsExclusive_example = Reachable-IsExclusive one_inside_reached

abbrev events : List Event
events = notified ∷ observed 0 ∷ waited ∷ notified ∷ []

wait_for_new_generation_lem_example :
    ((wait_for_new_generation (history events silent) 0 false
        ≡ some (true, (history events silent).generation))
      ↔ (0 < notifications events))
    × ((wait (history events silent) ≡ none) ↔ (pending false events ≡ false))
wait_for_new_generation_lem_example =
    wait_for_new_generation_lem events silent false (omega arith) (omega arith)
