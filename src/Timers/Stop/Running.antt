-- ===== src/Timers/Stop/Running.antt =====
-- `stop_timer` of supp_src/lib_timers.c on a timer that runs.
use cosimus.Base.{
  ℕ, ◌<◌, ◌≡◌, ◌≢◌, refl, ◌∙◌, ◌⊎◌, inl, inr, true, ◌||◌, some, List, [], ◌∷◌, ◌++◌, peek, set,
  ◌==◌, arith,
}
use cosimus.LinkedList.Seg.{Cells, IsList, first_or}
use cosimus.LinkedList.Push.{not_null}
use cosimus.Timers.{TimerwheelEntry, Timers, Host, with_wheel, timer_number, forget}
use cosimus.Timers.Control.{stop_active, stop_entry, stop_timer}
use cosimus.Timers.Pool.{Other, IsPool, peek-set_here, Queue-set, point_to}
use cosimus.Timers.Deactivate.{with_entries, deactivate-Queued}
use cosimus.Timers.Start.{placed}
use cosimus.Timers.Stop.{
  stop_timer-run, middle_used, has_null, IsOnWheel, delete-run, first_slot-IsList,
}

-- `stop_timer` with the number of a timer that runs, holds no buffer and has its item in its slot
-- returns 1, takes the item from the slot and puts the entry at the end of the queue; a second call
-- with the number returns 0 and changes nothing.
pub stop_timer-IsPool :
    (host : Host) (st : Timers) (buf : ℕ) (es : List TimerwheelEntry) (i : ℕ) (is : List ℕ) (k : ℕ)
    (e : TimerwheelEntry) (ys : Cells) (g : ℕ) (zs : Cells)
    → IsPool st buf es i is
    → peek es k ≡ some e
    → k ≢ 0
    → k < 16777216
    → e.generation < 256
    → Other k (i ∷ is)
    → e.param_dbuf ≡ 0
    → (e.state ≡ 1) ⊎ (e.state ≡ 2)
    → IsOnWheel host st e ys g zs
    → (st' : Timers) × (es' : List TimerwheelEntry) × (stop_timer host
          (timer_number e.generation k)
          st
        ≡ some (1, st'))
      × IsPool st' buf es' i (is ++ k ∷ [])
      × IsList st'.heap (st'.timerwheel e.wheel_idx) (ys ++ zs)
      × (stop_timer host (timer_number e.generation k) st' ≡ some (0, st'))
unfolding stop_entry stop_active forget with_wheel
stop_timer-IsPool host st buf es i is k e ys g zs v at nonnull hk hg other free runs on =
    let (used, marked) = middle_used ys e.wheel_li g zs on.wheel.linked in
    let (h, deleted, list, spared) = delete-run host st buf es k e ys g zs v.held at on in
    let (xs, list0, short) = first_slot-IsList host st e ys g zs h on list spared in
    let es1 = set es k (placed 0 0 e) in
    let st1 = with_entries buf es1 (with_wheel e.wheel_idx (some (first_or 0 (ys ++ zs))) h st) in
    let v1 : IsPool st1 buf es1 i is = record {
      held = refl;
      first = v.first;
      last = v.last;
      queue = Queue-set es 0 k (placed 0 0 e) (i ∷ is) other v.queue;
    } in
    let (es', ran, v', at') =
      deactivate-Queued host st1 buf es1 i is k (placed 0 0 e) xs v1
        (peek-set_here es k e (placed 0 0 e) at) nonnull other free (omega arith) list0
        (has_null xs list0.linked) (inl refl) short in
    let st' = record st1 { timers_list = some (buf, es'); timer_last_inactive = k } in
    let g_same : (e.generation == e.generation) ≡ true = ground arith in
    let active : ((e.state == 2) || (e.state == 1)) ≡ true = elim runs [
      | inl one ↦ rw one refl
      | inr two ↦ rw two refl
    ] in
    let here : (e.wheel_idx == e.wheel_idx) ≡ true = ground arith in
    (
      st',
      es',
      stop_timer-run host st buf es e.generation k e v.held at nonnull hg hk
          ∙ rw (g_same, active, not_null e.wheel_li used, deleted, ran) refl,
      v',
      rw here list,
      stop_timer-run host st' buf es' e.generation k (point_to 0 (forget (placed 0 0 e))) refl at'
            nonnull hg hk
          ∙ rw g_same refl,
    )
