-- ===== src/Timers.antt =====
-- supp_src/lib_timers.c: timers on a wheel of lists, with a queue of inactive entries.
-- The array of entries has the address of its block, since `fire_timer` keeps a pointer into it
-- over the callback. The wheel's lists are those of supp_src/lib_lists.c in `heap`. The buffers that
-- timers hold are known by their addresses, 0 is NULL. A `uuid_t` is its bytes. `none` is a failed
-- assertion or an access through a bad pointer or outside an array.
pub mod Array
pub mod Control
pub mod Tick
pub mod Pool
pub mod Deactivate
pub mod Grab
pub mod Start
pub mod Stop
pub mod Fire
use cosimus.Base.{
  ℕ, zero, suc, ◌+◌, ◌-◌, ◌*◌, ◌/◌, ◌%◌, ◌^◌, Bool, true, false, not, Option, none, some, List, [],
  ◌∷◌, ◌++◌, length, peek, set, replicate, u8, u32, u64, ◌<<<◌, ◌>>>◌, ltb, leb, ◌==◌, ◌&&◌, ◌||◌,
  if◌then◌else◌, ◌>>=◌,
}
use cosimus.Dbuf.{Dbuf}
use cosimus.Dbuf.Lock.{dlock, dunlock, Unlocked, nothing, alive, freed}
use cosimus.LinkedList.{Listitem, Heap, Malloc, lpush, lpop, lbelongs, ldelete}

abbrev pub timer_wheel_size : ℕ
timer_wheel_size = 10000

abbrev pub timer_wheel_ticks_per_sec : ℕ
timer_wheel_ticks_per_sec = 100

abbrev pub timer_dbuf_size : ℕ
timer_dbuf_size = 5

abbrev pub timer_inactive : ℕ
timer_inactive = 0

abbrev pub timer_onetime : ℕ
timer_onetime = 1

abbrev pub timer_periodic : ℕ
timer_periodic = 2

-- `timerwheel_entry_t`
pub record TimerwheelEntry : Type 0 where
  pub time : ℕ
  pub period : ℕ
  pub state : ℕ
  pub generation : ℕ
  pub wheel_idx : ℕ
  pub wheel_li : ℕ
  pub callback : ℕ
  pub param_int : ℕ
  pub param_uuid : List ℕ
  pub param_dbuf : ℕ
  pub next_inactive_index : ℕ

-- The variables of the file, and the memory it works on.
pub record Timers : Type 0 where
  pub timers_list : Option (ℕ × List TimerwheelEntry)
  pub timerwheel : ℕ → ℕ
  pub timerwheel_idx : ℕ
  pub timer_first_inactive : ℕ
  pub timer_last_inactive : ℕ
  pub last_timer_tick_time : ℕ
  pub heap : Heap
  pub dbufs : ℕ → Option Dbuf

-- What the file does not decide: the answer of `malloc` to `lpush`; that of `realloc`, an address and
-- what stands in the new entries; and the callbacks, which get their address, the timer's number and
-- the three parameters. `rounds` bounds the loop of `lbelongs`.
pub record Host : Type 0 where
  pub malloc : Heap → Malloc
  pub realloc : Timers → Option (ℕ × List TimerwheelEntry)
  pub callback : ℕ → ℕ → ℕ → List ℕ → ℕ → Timers → Option Timers
  pub rounds : ℕ

-- `timer_list_length()`
unfoldable pub timer_list_length : Timers → ℕ
timer_list_length st = elim st.timers_list [ none ↦ 0 | some (buf, entries) ↦ length entries ]

-- `timers[idx]`
unfoldable pub entry_at : Timers → ℕ → Option TimerwheelEntry
entry_at st idx = st.timers_list >>= λ (buf, entries). peek entries idx

-- Assignments to the fields of `timers[idx]`.
unfoldable pub update : (TimerwheelEntry → TimerwheelEntry) → ℕ → Timers → Option Timers
update f idx st = st.timers_list >>= λ (buf, entries).
    peek entries idx >>= λ e. some (record st { timers_list = some (buf, set entries idx (f e)) })

-- `timerwheel[idx]`
unfoldable pub wheel_at : Timers → ℕ → Option ℕ
wheel_at st idx = if ltb idx timer_wheel_size then some (st.timerwheel idx) else none

-- A call that got `&timerwheel[idx]` leaves this list and this memory.
unfoldable pub with_wheel : ℕ → Option ℕ → Heap → Timers → Timers
with_wheel idx none h st = record st { heap = h }
with_wheel idx (some head) h st = record st {
  timerwheel = λ i. if i == idx then head else st.timerwheel i;
  heap = h;
}

after_unlock : Unlocked → ℕ → Timers → Timers
after_unlock nothing a st = st
after_unlock (alive d) a st = record st { dbufs = λ i. if i == a then some d else st.dbufs i }
after_unlock (freed called) a st = record st { dbufs = λ i. if i == a then none else st.dbufs i }

-- `if(param_dbuf != NULL) dunlock(param_dbuf)`
unfoldable pub unlock_param : ℕ → Timers → Option Timers
unfolding after_unlock
unlock_param a st =
    if a == 0
    then some st
    else (st.dbufs a >>= λ d. dunlock (some d) >>= λ u. some (after_unlock u a st))

-- `if(param_dbuf != NULL) dlock(param_dbuf)`
unfoldable pub lock_param : ℕ → Timers → Option Timers
lock_param a st =
    if a == 0
    then some st
    else (st.dbufs a >>= λ d.
        dlock (some d) >>= λ p. some (record st { dbufs = λ i. if i == a then p else st.dbufs i }))

abbrev pub no_uuid : List ℕ
no_uuid = replicate 16 0

unfoldable pub forget : TimerwheelEntry → TimerwheelEntry
forget e = record e { param_dbuf = 0; param_int = 0; param_uuid = no_uuid; state = timer_inactive }

-- The end of `timer_deactivate_internal`: the entry goes to the end of the queue.
unfoldable pub queue_inactive : ℕ → Timers → Option Timers
queue_inactive idx st = do
  st1 ← update forget idx st
  last ← entry_at st1 st1.timer_last_inactive
  st2 ←
      (if last.state == timer_inactive
        then update (λ e. record e { next_inactive_index = idx }) st1.timer_last_inactive st1
        else none)
  update (λ e. record e { next_inactive_index = 0 }) idx (record st2 { timer_last_inactive = idx })

-- `timer_deactivate_internal(idx)`
unfoldable pub timer_deactivate_internal : Host → ℕ → Timers → Option Timers
timer_deactivate_internal host idx st = do
  e ← entry_at st idx
  head ← wheel_at st e.wheel_idx
  listed ← lbelongs host.rounds (some head) e.wheel_li st.heap
  st1 ← (if listed then none else unlock_param e.param_dbuf st)
  queue_inactive idx st1

unfoldable pub ticks_of : ℕ → ℕ
ticks_of msec = u32 (msec * timer_wheel_ticks_per_sec) / 1000

-- `timer_enqueue_internal(timer_idx, msec)`
unfoldable pub timer_enqueue_internal : Host → ℕ → ℕ → Timers → Option Timers
timer_enqueue_internal host idx msec st =
    let next = u32 (st.timerwheel_idx + ticks_of msec) % timer_wheel_size in
    if leb timer_wheel_size (ticks_of msec)
    then some st
    else (wheel_at st next >>= λ head.
        lpush (some head) idx (host.malloc st.heap) st.heap >>= λ (li, head', h).
        update (λ e. record e { wheel_li = li; wheel_idx = next }) idx (with_wheel next head' h st))

-- `timer_delete_internal(timer_idx)`
unfoldable pub timer_delete_internal : Host → ℕ → Timers → Option Timers
timer_delete_internal host idx st = do
  e ← entry_at st idx
  head ← wheel_at st e.wheel_idx
  listed ← lbelongs host.rounds (some head) e.wheel_li st.heap
  (head', h) ← (if listed then ldelete (some head) e.wheel_li st.heap else none)
  update (λ e. record e { wheel_li = 0; wheel_idx = 0 }) idx (with_wheel e.wheel_idx head' h st)

unfoldable pub timer_number : ℕ → ℕ → ℕ
timer_number generation idx = u32 ((generation <<< 24) + idx)
