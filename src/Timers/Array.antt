-- ===== src/Timers/Array.antt =====
-- `init_timers`, `expand_timer_list` and `grab_timer_index` of supp_src/lib_timers.c.
use cosimus.Base.{
  ℕ, suc, ◌+◌, ◌-◌, Option, none, some, List, [], ◌∷◌, ◌++◌, length, peek, replicate, ◌==◌,
  if◌then◌else◌, ◌>>=◌,
}
use cosimus.Timers.{
  TimerwheelEntry, Timers, Host, entry_at, update, no_uuid, timer_inactive, timer_dbuf_size,
}

-- The loop of `init_timers` and `expand_timer_list` over the entries from `i` on.
unfoldable pub chain_from : ℕ → List TimerwheelEntry → List TimerwheelEntry
chain_from i [] = []
chain_from i (e ∷ es) =
    record e { state = timer_inactive; generation = 0; next_inactive_index = suc i }
    ∷ chain_from (suc i) es

-- `timers[i].next_inactive_index = next`
unfoldable pub set_next : ℕ → ℕ → Timers → Option Timers
set_next i next = update (λ e. record e { next_inactive_index = next }) i

abbrev pub blank_entry : TimerwheelEntry
blank_entry = record {
  time = 0;
  period = 0;
  state = 0;
  generation = 0;
  wheel_idx = 0;
  wheel_li = 0;
  callback = 0;
  param_int = 0;
  param_uuid = no_uuid;
  param_dbuf = 0;
  next_inactive_index = 0;
}

-- `init_timers()`, given where `dalloczf` put the array.
unfoldable pub init_timers : Option ℕ → Timers → Option (ℕ × Timers)
init_timers none st = some (0, record st { timers_list = none })
init_timers (some buf) st =
    let size = timer_dbuf_size in
    let es = blank_entry ∷ chain_from 1 (replicate 4 blank_entry) in
    set_next (size - 1) 0 (record st { timers_list = some (buf, es) }) >>= λ st'.
    some (1, record st' { timer_first_inactive = 1; timer_last_inactive = size - 1 })

unfoldable pub expand_with :
    List TimerwheelEntry → ℕ → List TimerwheelEntry → Timers → Option (ℕ × Timers)
expand_with old buf new st =
    let oldsize = length old in
    let newsize = oldsize + length new in
    set_next (newsize - 1) 0 (record st { timers_list = some (buf, old ++ chain_from oldsize new) })
    >>= λ st1. set_next st1.timer_last_inactive oldsize st1 >>= λ st2.
        some (1, record st2 { timer_last_inactive = newsize - 1 })

unfoldable pub expand_answer :
    List TimerwheelEntry → Timers → Option (ℕ × List TimerwheelEntry) → Option (ℕ × Timers)
expand_answer old st none = some (0, st)
expand_answer old st (some (buf, new)) = expand_with old buf new st

unfoldable pub expand_old : Host → Timers → ℕ × List TimerwheelEntry → Option (ℕ × Timers)
expand_old host st (buf, old) = expand_answer old st (host.realloc st)

-- `expand_timer_list()`
unfoldable pub expand_timer_list : Host → Timers → Option (ℕ × Timers)
expand_timer_list host st =
    if st.timer_first_inactive == st.timer_last_inactive
    then st.timers_list >>= expand_old host st
    else some (0, st)

-- The end of `grab_timer_index`.
unfoldable pub take_first : ℕ → Timers → Option (ℕ × Timers)
take_first mytimer st = entry_at st mytimer >>= λ e.
    let st' = record st { timer_first_inactive = e.next_inactive_index } in
    if e.state == timer_inactive then some (mytimer, st') else none

unfoldable pub grab_from : Host → ℕ → TimerwheelEntry → Timers → Option (ℕ × Timers)
grab_from host mytimer e st =
    if e.next_inactive_index == 0
    then (expand_timer_list host st >>= λ (ok, st').
        if ok == 0 then some (0, st') else take_first mytimer st')
    else take_first mytimer st

unfoldable pub grab_in : Host → Timers → Option (ℕ × List TimerwheelEntry) → Option (ℕ × Timers)
grab_in host st none = some (0, st)
grab_in host st (some (buf, entries)) =
    peek entries st.timer_first_inactive >>= λ e. grab_from host st.timer_first_inactive e st

-- `grab_timer_index()`
unfoldable pub grab_timer_index : Host → Timers → Option (ℕ × Timers)
grab_timer_index host st = grab_in host st st.timers_list
