-- ===== src/Timers/Tick.antt =====
-- `fire_timer`, `timer_tick_processor` and `check_timers` of supp_src/lib_timers.c.
use cosimus.Base.{
  Bool, true, false, ℕ, zero, suc, ◌+◌, ◌-◌, ◌*◌, ◌/◌, ◌^◌, Option, none, some, List, peek, u32,
  u64, leb, ◌==◌, ◌||◌, if◌then◌else◌, ◌>>=◌,
}
use cosimus.LinkedList.{lpop}
use cosimus.Timers.{
  TimerwheelEntry, Timers, Host, update, wheel_at, with_wheel, timer_inactive, timer_onetime,
  timer_periodic, timer_wheel_size, timer_wheel_ticks_per_sec, timer_number, timer_enqueue_internal,
  timer_deactivate_internal,
}

-- `timers[idx]` through a pointer that was read when the array was at `buf`.
unfoldable pub entry_through : ℕ → Timers → ℕ → Option TimerwheelEntry
entry_through buf st idx =
    st.timers_list >>= λ (now, entries). if now == buf then peek entries idx else none

-- `fire_timer` after the callback.
unfoldable pub after_fire : Host → ℕ → TimerwheelEntry → Timers → Option Timers
after_fire host idx e st =
    if e.state == timer_onetime
    then timer_deactivate_internal host idx st
    else (if e.state == timer_periodic
        then timer_enqueue_internal host idx e.period st
        else some st)

unfoldable pub call_timer : Host → ℕ → TimerwheelEntry → Timers → Option Timers
call_timer host id e st =
    if e.callback == 0
    then some st
    else host.callback e.callback id e.param_int e.param_uuid e.param_dbuf st

unfoldable pub fire_active : Host → ℕ → ℕ → TimerwheelEntry → Timers → Option Timers
fire_active host buf idx e st = do
  st1 ← call_timer host (timer_number e.generation idx) e st
  now ← entry_through buf st1 idx
  after_fire host idx now st1

unfoldable pub fire_in : Host → ℕ → Timers → ℕ × List TimerwheelEntry → Option Timers
fire_in host idx st (buf, entries) = do
  e ← peek entries idx
  st1 ← update (λ e. record e { wheel_li = 0; wheel_idx = 0 }) idx st
  (if e.state == timer_onetime || e.state == timer_periodic
      then fire_active host buf idx e st1
      else (if e.state == timer_inactive then none else some st1))

-- `fire_timer(idx)`
unfoldable pub fire_timer : Host → ℕ → Timers → Option Timers
fire_timer host idx st = st.timers_list >>= fire_in host idx st

-- One round of the loop of `timer_tick_processor`, and whether it was not the last.
unfoldable pub tick_round : Host → Timers → Option (Bool × Timers)
tick_round host st = wheel_at st st.timerwheel_idx >>= λ head.
    lpop (some head) st.heap >>= λ (idx, head', h).
    let st1 = with_wheel st.timerwheel_idx head' h st in
    let fired = fire_timer host (u32 idx) st1 >>= λ st2. some (true, st2) in
    if u32 idx == 0 then some (false, st1) else fired

-- The loop, for so many rounds at most.
unfoldable pub tick_rounds : Host → ℕ → Timers → Option Timers
tick_rounds host zero st = none
tick_rounds host (suc left) st = tick_round host st >>= λ (more, st1).
    let rest = tick_rounds host left st1 in if more then rest else some st1

-- `timer_tick_processor()`
unfoldable pub timer_tick_processor : Host → ℕ → Timers → Option Timers
timer_tick_processor host fuel st = tick_rounds host fuel st >>= λ st'. some (record st' {
  timerwheel_idx =
      if leb timer_wheel_size (st'.timerwheel_idx + 1) then 0 else st'.timerwheel_idx + 1;
})

-- `get_time_msec()`, given the time of day.
get_time_msec : ℕ → ℕ → ℕ
get_time_msec sec usec = u64 (1000000 * sec + usec) / 1000

-- `check_timers()`, given the time: the milliseconds to the next tick.
unfoldable pub check_timers : Host → ℕ → ℕ → Timers → Option (ℕ × Timers)
check_timers host fuel now st =
    let delta = u64 (now + (2 ^ 64 - st.last_timer_tick_time)) in
    let interval = 1000 / timer_wheel_ticks_per_sec in
    if leb interval delta
    then (timer_tick_processor host fuel st >>= λ st'.
        some (interval, record st' { last_timer_tick_time = now }))
    else some (interval - delta, st)
