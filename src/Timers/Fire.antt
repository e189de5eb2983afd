-- ===== src/Timers/Fire.antt =====
-- `fire_timer` and `timer_tick_processor` of supp_src/lib_timers.c.
pub mod Endless
use cosimus.Base.{
  ℕ, zero, suc, ◌+◌, ◌*◌, ◌/◌, ◌%◌, ◌<◌, ◌≡◌, ◌≢◌, refl, sym, ap, subst, ◌∙◌, ◌⊎◌, inl, inr, Bool,
  true, false, ◌||◌, Option, none, some, List, [], ◌∷◌, ◌++◌, peek, set, u32, ltb, leb, lt→ltb,
  ◌==◌, if◌then◌else◌, ◌>>=◌, arith,
}
use cosimus.LinkedList.{Listitem, Heap, lpop}
use cosimus.LinkedList.Seg.{Cells, IsList}
use cosimus.LinkedList.Push.{not_null}
use cosimus.LinkedList.Pop.{lpop_lem}
use cosimus.Timers.{
  TimerwheelEntry, Timers, Host, entry_at, update, wheel_at, with_wheel, ticks_of, timer_wheel_size,
  timer_number,
}
use cosimus.Timers.Tick.{
  entry_through, call_timer, after_fire, fire_active, fire_in, fire_timer, tick_rounds,
  timer_tick_processor,
}
use cosimus.Timers.Pool.{peek-set_here}
use cosimus.Timers.Deactivate.{with_entries, update-run, entry_at-run}
use cosimus.Timers.Start.{placed, slot, enqueue-run}

-- `fire_timer` of a timer that runs.
pub fire_timer-run :
    (host : Host) (st : Timers) (buf : ℕ) (es : List TimerwheelEntry) (k : ℕ) (e : TimerwheelEntry)
    → st.timers_list ≡ some (buf, es)
    → peek es k ≡ some e
    → (e.state ≡ 1) ⊎ (e.state ≡ 2)
    → fire_timer host k st
      ≡ fire_active host buf k e (with_entries buf (set es k (placed 0 0 e)) st)
unfolding fire_timer fire_in
fire_timer-run host st buf es k e held at runs =
    let active : ((e.state == 1) || (e.state == 2)) ≡ true = elim runs [
      | inl one ↦ rw one refl
      | inr two ↦ rw two refl
    ] in
    ap (λ l. l >>= fire_in host k st) held
    ∙ rw (at, update-run (placed 0 0) st buf es k e held at, active) refl
