-- ===== src/Timers/Start.antt =====
-- `start_timer` of supp_src/lib_timers.c puts a timer on the wheel.
use native.Mathlib.Nat.{mod-lt}
use cosimus.Base.{
  ℕ, ◌+◌, ◌%◌, ◌<◌, ◌≡◌, ◌≢◌, refl, true, false, Option, none, some, List, [], ◌∷◌, peek, set, u8,
  u32, leb, lt→ltb, ◌==◌, arith,
}
use cosimus.LinkedList.{Listitem, Heap}
use cosimus.LinkedList.Seg.{Cells, IsList, Spares}
use cosimus.LinkedList.Push.{not_null, lpush_lem}
use cosimus.Timers.{
  TimerwheelEntry, Timers, Host, update, wheel_at, with_wheel, lock_param, ticks_of,
  timer_wheel_size, timer_enqueue_internal, timer_number,
}
use cosimus.Timers.Array.{init_timers, set_next, chain_from}
use cosimus.Timers.Control.{filled, start_grabbed, start_timer}
use cosimus.Timers.Pool.{IsPool, peek-set_here, Queue-set}
use cosimus.Timers.Deactivate.{with_entries, update-run, entry_at-run}
use cosimus.Timers.Grab.{with_first, grab-IsPool}

-- The slot of the wheel in which a timer is put.
abbrev pub slot : ℕ → Timers → ℕ
slot msec st = u32 (st.timerwheel_idx + ticks_of msec) % timer_wheel_size

abbrev pub placed : ℕ → ℕ → TimerwheelEntry → TimerwheelEntry
placed a w e = record e { wheel_li = a; wheel_idx = w }

-- `timer_enqueue_internal` for a time that the wheel spans: the new item `a` is in front of its slot.
pub enqueue-run :
    (host : Host) (st : Timers) (buf : ℕ) (es : List TimerwheelEntry) (k msec : ℕ)
    (e : TimerwheelEntry) (a : ℕ) (junk : Listitem) (xs : Cells)
    → st.timers_list ≡ some (buf, es)
    → peek es k ≡ some e
    → ticks_of msec < timer_wheel_size
    → IsList st.heap (st.timerwheel (slot msec st)) xs
    → host.malloc st.heap ≡ some (a, junk)
    → st.heap a ≡ none
    → a ≢ 0
    → (h : Heap) × (timer_enqueue_internal host k msec st
        ≡ some (
            with_entries buf
              (set es k (placed a (slot msec st) e))
              (with_wheel (slot msec st) (some a) h st)))
      × IsList h a ((a, k) ∷ xs)
      × Spares a xs st.heap h
unfolding timer_enqueue_internal wheel_at with_wheel
enqueue-run host st buf es k msec e a junk xs held at short v answered unused nonnull =
    let w = slot msec st in
    let (h, ran, v', spared) = lpush_lem xs a k junk v unused nonnull in
    let on_wheel : leb timer_wheel_size (ticks_of msec) ≡ false = ground arith in
    let inside =
      lt→ltb w timer_wheel_size (mod-lt (u32 (st.timerwheel_idx + ticks_of msec)) (omega arith)) in
    (
      h,
      rw
          (
            on_wheel,
            inside,
            answered,
            ran,
            update-run (placed a w) (with_wheel w (some a) h st) buf es k e held at,
          )
          refl,
      v',
      spared,
    )

-- `start_timer` without a buffer, when another entry is inactive, the wheel spans the interval and
-- `malloc` answers: entry `i` leaves the queue, is filled in and has its item in front of its slot, and
-- the number returned is made of its new generation and `i`.
pub start_timer-IsPool :
    (host : Host) (st : Timers) (buf : ℕ) (es : List TimerwheelEntry) (i j : ℕ) (is : List ℕ)
    (interval kind callback int : ℕ) (uuid : Option (List ℕ)) (e : TimerwheelEntry) (a : ℕ)
    (junk : Listitem) (xs : Cells)
    → IsPool st buf es i (j ∷ is)
    → peek es i ≡ some e
    → ticks_of interval < timer_wheel_size
    → IsList st.heap (st.timerwheel (slot interval st)) xs
    → host.malloc st.heap ≡ some (a, junk)
    → st.heap a ≡ none
    → a ≢ 0
    → (st' : Timers) × (es' : List TimerwheelEntry) × (start_timer host interval kind callback int
          uuid 0 st
        ≡ some (timer_number (u8 (e.generation + 1)) i, st'))
      × IsPool st' buf es' j is
      × (peek es' i
          ≡ some (placed a (slot interval st) (filled interval kind callback int uuid 0 e)))
      × IsList st'.heap (st'.timerwheel (slot interval st)) ((a, i) ∷ xs)
unfolding start_timer start_grabbed lock_param filled with_wheel
start_timer-IsPool host st buf es i j is interval kind callback int uuid e a junk xs v at short
      wheel answered unused nonnull =
    let w = slot interval st in
    let (grabbed, v1) = grab-IsPool host st buf es i j is v in
    let st1 = with_first j st in
    let e1 = filled interval kind callback int uuid 0 e in
    let es1 = set es i e1 in
    let st2 = with_entries buf es1 st1 in
    let at1 = peek-set_here es i e e1 at in
    let (h, ran, list, spared) =
      enqueue-run host st2 buf es1 i interval e1 a junk xs refl at1 short wheel answered unused
        nonnull in
    let es2 = set es1 i (placed a w e1) in
    let st3 = with_entries buf es2 (with_wheel w (some a) h st2) in
    let at2 = peek-set_here es1 i e1 (placed a w e1) at1 in
    let here : (w == w) ≡ true = ground arith in
    let other = v.queue.2 in
    (
      st3,
      es2,
      rw
          (
            grabbed,
            not_null i v.queue.1,
            update-run (filled interval kind callback int uuid 0) st1 buf es i e v.held at,
            ran,
            entry_at-run st3 buf es2 i refl,
            at2,
          )
          refl,
      record {
        held = refl;
        first = refl;
        last = v1.last;
        queue =
            Queue-set es1 0 i (placed a w e1) (j ∷ is) other
              (Queue-set es 0 i e1 (j ∷ is) other v1.queue);
      },
      at2,
      rw here list,
    )

-- `init_timers` leaves a queue of the entries 1 to 4.
pub init_timers-IsPool :
    (buf : ℕ) (st : Timers)
    → (st' : Timers) × (es : List TimerwheelEntry) × (init_timers (some buf) st ≡ some (1, st'))
      × IsPool st' buf es 1 (2 ∷ 3 ∷ 4 ∷ [])
unfolding init_timers set_next update chain_from
init_timers-IsPool buf st = (
  _,
  _,
  refl,
  record {
    held = refl;
    first = refl;
    last = refl;
    queue = (
      (_, refl, refl, refl),
      omega arith,
      ((omega arith), ((omega arith), ((omega arith), tt))),
      (
        (_, refl, refl, refl),
        omega arith,
        ((omega arith), ((omega arith), tt)),
        (
          (_, refl, refl, refl),
          omega arith,
          ((omega arith), tt),
          ((_, refl, refl, refl), omega arith, tt, tt),
        ),
      ),
    );
  },
)
