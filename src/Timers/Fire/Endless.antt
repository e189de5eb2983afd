-- ===== src/Timers/Fire/Endless.antt =====
-- `timer_tick_processor` of supp_src/lib_timers.c with a timer whose period is less than a tick.
use cosimus.Base.{
  ℕ, zero, suc, ◌<◌, ◌≡◌, ◌≢◌, refl, ap, ◌∙◌, inr, true, false, none, some, List, [], ◌∷◌, peek,
  set, u32, lt→ltb, ◌==◌, arith,
}
use cosimus.LinkedList.{Listitem, Heap}
use cosimus.LinkedList.Seg.{IsList}
use cosimus.LinkedList.Push.{not_null}
use cosimus.LinkedList.Pop.{lpop_lem}
use cosimus.Timers.{
  TimerwheelEntry, Timers, Host, wheel_at, with_wheel, ticks_of, timer_wheel_size,
  timer_enqueue_internal,
}
use cosimus.Timers.Tick.{
  entry_through, call_timer, after_fire, fire_active, fire_timer, tick_round, tick_rounds,
  timer_tick_processor,
}
use cosimus.Timers.Pool.{peek-set_here}
use cosimus.Timers.Deactivate.{with_entries}
use cosimus.Timers.Start.{placed, slot, enqueue-run}
use cosimus.Timers.Fire.{fire_timer-run}

-- `malloc` answers with the address `a` when it is not used.
abbrev pub Reuses : Host → ℕ → Type 0
Reuses host a = (h : Heap) → h a ≡ none → (junk : Listitem) × (host.malloc h ≡ some (a, junk))

-- The current slot holds the item `a` of entry `k` alone: a periodic timer without a callback, whose
-- period is less than a tick.
pub record IsShort (st : Timers) (buf : ℕ) (es : List TimerwheelEntry) (k : ℕ) (e : TimerwheelEntry)
    (a : ℕ) : Type 0 where
  pub held : st.timers_list ≡ some (buf, es)
  pub at : peek es k ≡ some e
  pub index : (k ≢ 0) × (k < 4294967296)
  pub periodic : e.state ≡ 2
  pub quiet : e.callback ≡ 0
  pub short : ticks_of e.period ≡ 0
  pub now : st.timerwheel_idx < timer_wheel_size
  pub alone : IsList st.heap (st.timerwheel st.timerwheel_idx) ((a, k) ∷ [])

same_slot :
    (msec : ℕ) (st : Timers)
    → ticks_of msec ≡ 0
    → st.timerwheel_idx < timer_wheel_size
    → slot msec st ≡ st.timerwheel_idx
same_slot msec st short now = rw short (omega arith)

after_periodic :
    (host : Host) (k : ℕ) (e : TimerwheelEntry) (st : Timers)
    → e.state ≡ 2
    → after_fire host k e st ≡ timer_enqueue_internal host k e.period st
unfolding after_fire
after_periodic host k e st periodic =
    let no_once : (e.state == 1) ≡ false = rw periodic refl in
    let again : (e.state == 2) ≡ true = rw periodic refl in rw (no_once, again) refl

-- One round of the loop ends where it began.
round_again :
    (host : Host) (st : Timers) (buf : ℕ) (es : List TimerwheelEntry) (k : ℕ) (e : TimerwheelEntry)
    (a : ℕ)
    → Reuses host a
    → a ≢ 0
    → IsShort st buf es k e a
    → (st' : Timers) × (es' : List TimerwheelEntry) × (e' : TimerwheelEntry) × (tick_round host st
        ≡ some (true, st'))
      × IsShort st' buf es' k e' a
unfolding tick_round wheel_at fire_active call_timer entry_through with_wheel
round_again host st buf es k e a reuses nonnull v =
    let w = st.timerwheel_idx in
    let (h, popped, empty, freed, spared) = lpop_lem a k [] v.alone in
    let st1 = with_wheel w (some 0) h st in
    let e1 = placed 0 0 e in
    let es1 = set es k e1 in
    let st2 = with_entries buf es1 st1 in
    let at1 = peek-set_here es k e e1 v.at in
    let (junk, answered) = reuses h freed in
    let here : (w == w) ≡ true = ground arith in
    let where_now = same_slot e.period st2 v.short v.now in
    let quick : ticks_of e.period < timer_wheel_size = omega (arith, v.short) in
    let empty' : IsList h (st2.timerwheel (slot e.period st2)) [] = rw (where_now, here) empty in
    let (h', ran, list, spared') =
      enqueue-run host st2 buf es1 k e.period e1 a junk [] refl at1 quick empty' answered freed
        nonnull in
    let e' = placed a w e1 in
    let st3 = with_entries buf (set es1 k e') (with_wheel w (some a) h' st2) in
    let no_call : (e.callback == 0) ≡ true = rw v.quiet refl in
    let buf_same : (buf == buf) ≡ true = ground arith in
    let inside = lt→ltb w timer_wheel_size v.now in
    let word : u32 k ≡ k = omega (arith, v.index.1) in
    let fired : fire_timer host k st1 ≡ some st3 =
      fire_timer-run host st1 buf es k e v.held v.at (inr v.periodic)
      ∙ rw (no_call, buf_same, at1, after_periodic host k e1 st2 v.periodic, ran)
          (ap
            (λ s.
              some (with_entries buf (set es1 k (placed a s e1)) (with_wheel s (some a) h' st2)))
            where_now) in
    (
      st3,
      set es1 k e',
      e',
      rw (inside, popped, word, fired, not_null k v.index.0) refl,
      record {
        held = refl;
        at = peek-set_here es1 k e1 e' at1;
        index = v.index;
        periodic = v.periodic;
        quiet = v.quiet;
        short = v.short;
        now = v.now;
        alone = rw here list;
      },
    )

-- `n` rounds of the loop, none of which is the last.
pub data Rounds : Host → ℕ → Timers → Timers → Type 0 where
  no_rounds : {host : Host} {st : Timers} → Rounds host 0 st st
  one_more :
      {host : Host} {n : ℕ} {st st1 st2 : Timers}
      → tick_round host st ≡ some (true, st1)
      → Rounds host n st1 st2
      → Rounds host (suc n) st st2

Rounds-none :
    {host : Host} {n : ℕ} {st st' : Timers} → Rounds host n st st' → tick_rounds host n st ≡ none
unfolding tick_rounds
Rounds-none no_rounds = refl
Rounds-none (one_more run rest) = rw run (Rounds-none rest)

-- When the current slot holds a periodic timer without a callback alone, whose period is less than a
-- tick, and `malloc` answers with the item's address once that is free, any number of rounds of the
-- loop of `timer_tick_processor` succeed, none is the last, and they end in a state of the same kind;
-- so that the loop does not end.
pub timer_tick_endless :
    (host : Host) (n : ℕ) (st : Timers) (buf : ℕ) (es : List TimerwheelEntry) (k : ℕ)
    (e : TimerwheelEntry) (a : ℕ)
    → Reuses host a
    → a ≢ 0
    → IsShort st buf es k e a
    → (st' : Timers) × (es' : List TimerwheelEntry) × (e' : TimerwheelEntry) × Rounds host n st st'
      × IsShort st' buf es' k e' a
      × (timer_tick_processor host n st ≡ none)
unfolding timer_tick_processor
timer_tick_endless host zero st buf es k e a reuses nonnull v =
    let none_yet : Rounds host 0 st st = no_rounds in
    (st, es, e, none_yet, v, rw (Rounds-none none_yet) refl)
timer_tick_endless host (suc n) st buf es k e a reuses nonnull v =
    let (st1, es1, e1, run, v1) = round_again host st buf es k e a reuses nonnull v in
    let (st', es', e', rounds, v', none_left) =
      timer_tick_endless host n st1 buf es1 k e1 a reuses nonnull v1 in
    let all : Rounds host (suc n) st st' = one_more run rounds in
    (st', es', e', all, v', rw (Rounds-none all) refl)
