-- ===== src/Engine/TimerWheel/Tests.antt =====
-- Tests of engine/timer_wheel.py.
use vh26_pixel_perfect.Prelude.{nat_eq, ◌≤◌, ◌≡◌, refl, [], ◌∷◌}
use vh26_pixel_perfect.Prelude.Dict.{get, put}
use vh26_pixel_perfect.Engine.TimerWheel.{TimerWheel, empty, heappush, insert_deadline, pop_due}
use vh26_pixel_perfect.Engine.TimerWheel.View.{deadline, IsValid, empty-IsValid}
use vh26_pixel_perfect.Engine.TimerWheel.Schedule.{insert_deadline-IsValid}
use vh26_pixel_perfect.Engine.TimerWheel.Due.{fired, fires, stays, commands_for, pop_due-fires}

-- Incident 7 is scheduled twice, so its first entry in the heap is stale.
abbrev wheel : TimerWheel
wheel = insert_deadline (insert_deadline (insert_deadline empty 7 500) 3 900) 7 800

wheel-IsValid : IsValid wheel
wheel-IsValid =
    insert_deadline-IsValid _ 7 800
      (insert_deadline-IsValid _ 3 900 (insert_deadline-IsValid empty 7 500 empty-IsValid))

due_commands : (pop_due wheel 850).1 ≡ record { incident_id = 7; quiet_at_ms = 800 } ∷ []
unfolding pop_due insert_deadline heappush get put
due_commands = refl

pop_due-fires_example :
    (fired 7 (pop_due wheel 850).1 ≡ fires 850 (deadline wheel 7))
    × (deadline (pop_due wheel 850).0 7 ≡ stays 850 (deadline wheel 7))
    × (commands_for 7 (pop_due wheel 850).1 ≤ 1)
pop_due-fires_example = pop_due-fires wheel 850 wheel-IsValid 7
