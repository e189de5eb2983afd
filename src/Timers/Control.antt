-- ===== src/Timers/Control.antt =====
-- `start_timer` and `stop_timer` of supp_src/lib_timers.c.
use cosimus.Base.{
  ℕ, ◌+◌, ◌%◌, ◌^◌, Option, none, some, List, length, peek, u8, ◌>>>◌, leb, ◌==◌, ◌&&◌, ◌||◌,
  if◌then◌else◌, ◌>>=◌,
}
use cosimus.Timers.{
  TimerwheelEntry, Timers, Host, entry_at, update, lock_param, no_uuid, timer_onetime,
  timer_periodic, timer_number, timer_enqueue_internal, timer_delete_internal,
  timer_deactivate_internal,
}
use cosimus.Timers.Array.{grab_timer_index}

-- What `start_timer` writes into the entry.
unfoldable pub filled : ℕ → ℕ → ℕ → ℕ → Option (List ℕ) → ℕ → TimerwheelEntry → TimerwheelEntry
filled interval kind callback int uuid dbuf e = record e {
  state = u8 kind;
  generation = u8 (e.generation + 1);
  callback = callback;
  param_int = int;
  param_uuid = elim uuid [ none ↦ no_uuid | some bytes ↦ bytes ];
  param_dbuf = dbuf;
  period = if kind == timer_periodic then interval else e.period;
}

unfoldable pub start_grabbed :
    Host → ℕ → ℕ → ℕ → ℕ → Option (List ℕ) → ℕ → ℕ → Timers → Option (ℕ × Timers)
start_grabbed host interval kind callback int uuid dbuf mytimer st = do
  st1 ← lock_param dbuf st
  st2 ← update (filled interval kind callback int uuid dbuf) mytimer st1
  st3 ← timer_enqueue_internal host mytimer interval st2
  e ← entry_at st3 mytimer
  some (timer_number e.generation mytimer, st3)

-- `start_timer(interval, timer_kind, callback, param_int, param_uuid, param_dbuf)`
unfoldable pub start_timer :
    Host → ℕ → ℕ → ℕ → ℕ → Option (List ℕ) → ℕ → Timers → Option (ℕ × Timers)
start_timer host interval kind callback int uuid dbuf st =
    grab_timer_index host st >>= λ (mytimer, st').
    if mytimer == 0
    then some (0, st')
    else start_grabbed host interval kind callback int uuid dbuf mytimer st'

unfoldable pub stop_active : Host → ℕ → TimerwheelEntry → Timers → Option (ℕ × Timers)
stop_active host idx e st =
    (if e.wheel_li == 0 then some st else timer_delete_internal host idx st) >>= λ st1.
    timer_deactivate_internal host idx st1 >>= λ st2. some (1, st2)

unfoldable pub stop_entry : Host → ℕ → ℕ → TimerwheelEntry → Timers → Option (ℕ × Timers)
stop_entry host idx gen e st =
    if e.generation == gen && (e.state == timer_periodic || e.state == timer_onetime)
    then stop_active host idx e st
    else some (0, st)

unfoldable pub stop_in : Host → ℕ → Timers → ℕ × List TimerwheelEntry → Option (ℕ × Timers)
stop_in host id st (buf, entries) =
    let idx = id % 2 ^ 24 in
    if idx == 0 || leb (length entries) idx
    then some (0, st)
    else (peek entries idx >>= λ e. stop_entry host idx (id >>> 24) e st)

-- `stop_timer(timer_id)`
unfoldable pub stop_timer : Host → ℕ → Timers → Option (ℕ × Timers)
stop_timer host id st = st.timers_list >>= stop_in host id st
