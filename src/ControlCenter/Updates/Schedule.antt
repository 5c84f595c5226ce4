-- ===== src/ControlCenter/Updates/Schedule.antt =====
-- control_center/main.cpp: the deadlines of the loop.
use hardware_monitor.ControlCenter.Updates.{Deadlines, end_pass, render_interval, tick_cadence}
use hardware_monitor.Prelude.{arith, max, none, true, ℕ, ◌+◌, ◌<◌, ◌↔◌, ◌≡◌, ◌≤◌}

-- A pass at `now` renders exactly if the render deadline has come, and afterwards that deadline lies
-- after `now` and no later than it did or one interval from `now`; the next tick is not before `now`
-- and not after both `now` and one cadence behind the last one; the loop goes on
-- without sleeping exactly if a whole cadence has passed since the last tick.
pub end_pass_lem :
    (now : ℕ) (s : Deadlines)
    → let (s', renders, sleeps) = end_pass now s in
      ((renders ≡ true) ↔ (s.next_render ≤ now))
      × (now < s'.next_render)
      × (s'.next_render ≤ max s.next_render (now + render_interval))
      × (now ≤ s'.next_tick)
      × (s'.next_tick ≤ max now (s.next_tick + tick_cadence))
      × ((sleeps ≡ none) ↔ (s.next_tick + tick_cadence ≤ now))
unfolding end_pass
end_pass_lem now s = ground arith
