-- ===== src/Examples/Wheel.antt =====
-- Tests: timers at concrete values.
use cosimus.Base.{
  ℕ, ◌≡◌, refl, inr, Option, none, some, List, [], ◌∷◌, ◌==◌, if◌then◌else◌, arith, peek, u8,
}
use cosimus.LinkedList.{Listitem, Heap, Malloc}
use cosimus.LinkedList.Seg.{item, IsList, nil, cons}
use cosimus.Timers.{TimerwheelEntry, Timers, Host, ticks_of, timer_number}
use cosimus.Timers.Array.{blank_entry, grab_timer_index}
use cosimus.Timers.Control.{filled, start_timer, stop_timer}
use cosimus.Timers.Tick.{timer_tick_processor}
use cosimus.Timers.Pool.{IsPool}
use cosimus.Timers.Grab.Grow.{grab-grown}
use cosimus.Timers.Start.{placed, slot, start_timer-IsPool}
use cosimus.Timers.Stop.Running.{stop_timer-IsPool}
use cosimus.Timers.Fire.Endless.{Reuses, Rounds, IsShort, timer_tick_endless}

abbrev junk : Listitem
junk = item 1 2 3

-- `malloc` when it has nothing but the address 16.
abbrev only_16 : Option Listitem → Malloc
only_16 none = some (16, junk)
only_16 (some n) = none

abbrev host : Host
host = record {
  malloc = λ h. only_16 (h 16);
  realloc = λ st. some (200, blank_entry ∷ blank_entry ∷ []);
  callback = λ f id int uuid dbuf st. some (record st { timers_list = some (200, []) });
  rounds = 10;
}

abbrev idle : ℕ → TimerwheelEntry
idle n = record blank_entry { next_inactive_index = n }

abbrev clock : List TimerwheelEntry → ℕ → ℕ → ℕ → Heap → Timers
clock es first last item_7 h = record {
  timers_list = some (100, es);
  timerwheel = λ i. if i == 7 then item_7 else 0;
  timerwheel_idx = 7;
  timer_first_inactive = first;
  timer_last_inactive = last;
  last_timer_tick_time = 0;
  heap = h;
  dbufs = λ a. none;
}

abbrev no_items : Heap
no_items a = none

abbrev one_item : Heap
one_item a = if a == 16 then some (item 0 16 1) else none

abbrev unused : List TimerwheelEntry
unused = blank_entry ∷ idle 2 ∷ idle 0 ∷ []

unused-IsPool : IsPool (clock unused 1 2 0 no_items) 100 unused 1 (2 ∷ [])
unused-IsPool = record {
  held = refl;
  first = refl;
  last = refl;
  queue = (
    (_, refl, refl, refl),
    omega arith,
    (omega arith, tt),
    ((_, refl, refl, refl), omega arith, tt, tt),
  );
}

start_timer_example :
    (st' : Timers) × (es' : List TimerwheelEntry) × (start_timer host 500 1 900 5 none 0
        (clock unused 1 2 0 no_items)
      ≡ some (timer_number (u8 1) 1, st'))
    × IsPool st' 100 es' 2 []
    × (peek es' 1
        ≡ some (
            placed 16
              (slot 500 (clock unused 1 2 0 no_items))
              (filled 500 1 900 5 none 0 (idle 2))))
    × IsList st'.heap (st'.timerwheel (slot 500 (clock unused 1 2 0 no_items))) ((16, 1) ∷ [])
unfolding ticks_of
start_timer_example =
    start_timer-IsPool host (clock unused 1 2 0 no_items) 100 unused 1 2 [] 500 1 900 5 none
      (idle 2) 16 junk [] unused-IsPool refl (omega arith) (record { at = refl; linked = nil }) refl
      refl (omega arith)

-- A timer of five milliseconds on the wheel.
abbrev running : ℕ → TimerwheelEntry
running f = record blank_entry {
  state = 2;
  generation = 3;
  period = 5;
  callback = f;
  wheel_idx = 7;
  wheel_li = 16;
}

abbrev started : ℕ → List TimerwheelEntry
started f = blank_entry ∷ running f ∷ idle 0 ∷ []

abbrev busy : ℕ → Timers
busy f = clock (started f) 2 2 16 one_item

one_item-IsList : IsList one_item 16 ((16, 1) ∷ [])
one_item-IsList = record { at = refl; linked = cons refl (omega arith) tt nil }

stop_timer_example :
    (st' : Timers) × (es' : List TimerwheelEntry) × (stop_timer host (timer_number 3 1) (busy 900)
      ≡ some (1, st'))
    × IsPool st' 100 es' 2 (1 ∷ [])
    × IsList st'.heap (st'.timerwheel 7) []
    × (stop_timer host (timer_number 3 1) st' ≡ some (0, st'))
stop_timer_example =
    stop_timer-IsPool host (busy 900) 100 (started 900) 2 [] 1 (running 900) [] 1 []
      (record {
        held = refl;
        first = refl;
        last = refl;
        queue = ((_, refl, refl, refl), omega arith, tt, tt);
      })
      refl (omega arith) (omega arith) (omega arith) (omega arith, tt) refl (inr refl)
      (record {
        inside = omega arith;
        wheel = one_item-IsList;
        enough = omega arith;
        first_slot = inr (omega arith, [], record { at = refl; linked = nil }, tt, omega arith);
      })

abbrev last_one : List TimerwheelEntry
last_one = blank_entry ∷ idle 0 ∷ []

grab_example :
    (st' : Timers) × (es : List TimerwheelEntry) × (grab_timer_index host
        (clock last_one 1 1 0 no_items)
      ≡ some (1, st'))
    × IsPool st' 200 es 2 (3 ∷ [])
grab_example =
    grab-grown host (clock last_one 1 1 0 no_items) 100 200 last_one 1 blank_entry
      (blank_entry ∷ [])
      (record {
        held = refl;
        first = refl;
        last = refl;
        queue = ((_, refl, refl, refl), omega arith, tt, tt);
      })
      refl

host-Reuses : Reuses host 16
host-Reuses h e = (junk, rw e refl)

timer_tick_example :
    (st' : Timers) × (es' : List TimerwheelEntry) × (e' : TimerwheelEntry) × Rounds host 5
      (busy 0)
      st'
    × IsShort st' 100 es' 1 e' 16
    × (timer_tick_processor host 5 (busy 0) ≡ none)
unfolding ticks_of
timer_tick_example =
    timer_tick_endless host 5 (busy 0) 100 (started 0) 1 (running 0) 16 host-Reuses (omega arith)
      (record {
        held = refl;
        at = refl;
        index = (omega arith, omega arith);
        periodic = refl;
        quiet = refl;
        short = omega arith;
        now = omega arith;
        alone = one_item-IsList;
      })
