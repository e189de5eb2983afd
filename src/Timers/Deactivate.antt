-- ===== src/Timers/Deactivate.antt =====
-- `timer_deactivate_internal` of supp_src/lib_timers.c gives an entry back to the queue.
use cosimus.Base.{
  ℕ, ◌<◌, ◌≡◌, ◌≢◌, refl, sym, ap, ◌∙◌, true, false, Option, some, List, [], ◌∷◌, ◌++◌, length,
  peek, set, lt→ltb, ◌==◌,
}
use cosimus.LinkedList.Seg.{Cells, IsList}
use cosimus.LinkedList.Find.{has, Marked, lbelongs-has}
use cosimus.Timers.{
  TimerwheelEntry, Timers, Host, entry_at, update, wheel_at, timer_wheel_size, forget,
  queue_inactive, unlock_param, timer_deactivate_internal,
}
use cosimus.Timers.Pool.{
  end_or, Other, IsPool, peek-set_here, peek-set_there, Queue-set, Queue-snoc, Queue-end, point_to,
  end-Other, Queue-point_to,
}

-- The same variables with another array.
abbrev pub with_entries : ℕ → List TimerwheelEntry → Timers → Timers
with_entries buf es st = record st { timers_list = some (buf, es) }

pub update-run :
    (f : TimerwheelEntry → TimerwheelEntry) (st : Timers) (buf : ℕ) (es : List TimerwheelEntry)
    (i : ℕ) (e : TimerwheelEntry)
    → st.timers_list ≡ some (buf, es)
    → peek es i ≡ some e
    → update f i st ≡ some (with_entries buf (set es i (f e)) st)
unfolding update
update-run f st buf es i e held at = rw (held, at) refl

pub entry_at-run :
    (st : Timers) (buf : ℕ) (es : List TimerwheelEntry) (i : ℕ)
    → st.timers_list ≡ some (buf, es)
    → entry_at st i ≡ peek es i
unfolding entry_at
entry_at-run st buf es i held = rw held refl

-- `r` is the state in which entry `k` is at the end of the queue, inactive and forgotten.
abbrev pub Queued : Option Timers → Timers → ℕ → ℕ → List ℕ → ℕ → TimerwheelEntry → Type 0
Queued r st buf i is k e =
    (es' : List TimerwheelEntry) × (r
      ≡ some (record st { timers_list = some (buf, es'); timer_last_inactive = k }))
    × IsPool (record st { timers_list = some (buf, es'); timer_last_inactive = k }) buf es' i
        (is ++ k ∷ [])
    × (peek es' k ≡ some (point_to 0 (forget e)))

end_or_snoc : (i k : ℕ) (is : List ℕ) → end_or i (is ++ k ∷ []) ≡ k
end_or_snoc i k [] = refl
end_or_snoc i k (j ∷ is) = end_or_snoc j k is

-- The three arrays after the three writes.
queue_inactive-run :
    (st : Timers) (buf : ℕ) (es : List TimerwheelEntry) (k : ℕ) (e el : TimerwheelEntry)
    → st.timers_list ≡ some (buf, es)
    → peek es k ≡ some e
    → peek (set es k (forget e)) st.timer_last_inactive ≡ some el
    → el.state ≡ 0
    → peek (set (set es k (forget e)) st.timer_last_inactive (point_to k el)) k ≡ some (forget e)
    → queue_inactive k st
      ≡ some (record st {
        timers_list = some (
          buf,
          set
              (set (set es k (forget e)) st.timer_last_inactive (point_to k el))
              k
              (point_to 0 (forget e)),
        );
        timer_last_inactive = k;
      })
unfolding queue_inactive
queue_inactive-run st buf es k e el held at at_l off at2 =
    let l = st.timer_last_inactive in
    let es1 = set es k (forget e) in
    let es2 = set es1 l (point_to k el) in
    let st1 = with_entries buf es1 st in
    let st2 = with_entries buf es2 st in
    let idle : (el.state == 0) ≡ true = rw off refl in
    rw
      (
        update-run forget st buf es k e held at,
        entry_at-run st1 buf es1 l refl,
        at_l,
        idle,
        update-run (point_to k) st1 buf es1 l el refl at_l,
        update-run (point_to 0) (record st2 { timer_last_inactive = k }) buf es2 k (forget e) refl
            at2,
      )
      refl

pub queue_inactive-Queued :
    (st : Timers) (buf : ℕ) (es : List TimerwheelEntry) (i : ℕ) (is : List ℕ) (k : ℕ)
    (e : TimerwheelEntry)
    → IsPool st buf es i is
    → peek es k ≡ some e
    → k ≢ 0
    → Other k (i ∷ is)
    → Queued (queue_inactive k st) st buf i is k e
unfolding forget
queue_inactive-Queued st buf es i is k e v at nonnull other =
    let l = end_or i is in
    let es1 = set es k (forget e) in
    let q1 = Queue-set es 0 k (forget e) (i ∷ is) other v.queue in
    let (el, at_l, off, next) = Queue-end es1 0 i is q1 in
    let es2 = set es1 l (point_to k el) in
    let es3 = set es2 k (point_to 0 (forget e)) in
    let kl = end-Other k i is other in
    let at1 : peek es1 k ≡ some (forget e) = peek-set_here es k e (forget e) at in
    let at2 : peek es2 k ≡ some (forget e) = peek-set_there es1 l k (point_to k el) kl ∙ at1 in
    let at3 : peek es3 k ≡ some (point_to 0 (forget e)) =
      peek-set_here es2 k (forget e) (point_to 0 (forget e)) at2 in
    let q2 = Queue-point_to es1 0 k i is el q1 at_l off in
    let q3 = Queue-set es2 k k (point_to 0 (forget e)) (i ∷ is) other q2 in
    let at_l' : peek es1 st.timer_last_inactive ≡ some el = ap (peek es1) v.last ∙ at_l in
    let at2' : peek (set es1 st.timer_last_inactive (point_to k el)) k ≡ some (forget e) =
      ap (λ m. peek (set es1 m (point_to k el)) k) v.last ∙ at2 in
    (
      es3,
      queue_inactive-run st buf es k e el v.held at at_l' off at2'
          ∙ ap
              (λ m. some (record st {
                timers_list = some (buf, set (set es1 m (point_to k el)) k (point_to 0 (forget e)));
                timer_last_inactive = k;
              }))
              v.last,
      record {
        held = refl;
        first = v.first;
        last = sym (end_or_snoc i k is);
        queue = Queue-snoc es3 0 k (i ∷ is) q3 (_, at3, refl, refl) nonnull other;
      },
      at3,
    )

-- `timer_deactivate_internal` of an entry that is neither in the queue nor on the wheel, and holds no
-- buffer, puts it at the end of the queue.
pub deactivate-Queued :
    (host : Host) (st : Timers) (buf : ℕ) (es : List TimerwheelEntry) (i : ℕ) (is : List ℕ) (k : ℕ)
    (e : TimerwheelEntry) (xs : Cells)
    → IsPool st buf es i is
    → peek es k ≡ some e
    → k ≢ 0
    → Other k (i ∷ is)
    → e.param_dbuf ≡ 0
    → e.wheel_idx < timer_wheel_size
    → IsList st.heap (st.timerwheel e.wheel_idx) xs
    → has e.wheel_li xs ≡ false
    → Marked e.wheel_li st.heap
    → length xs < host.rounds
    → Queued (timer_deactivate_internal host k st) st buf i is k e
unfolding timer_deactivate_internal wheel_at unlock_param
deactivate-Queued host st buf es i is k e xs v at nonnull other free inside wheel out marked
      enough =
    let (es', ran, v', at') = queue_inactive-Queued st buf es i is k e v at nonnull other in
    (
      es',
      rw
          (
            entry_at-run st buf es k v.held,
            at,
            lt→ltb e.wheel_idx timer_wheel_size inside,
            lbelongs-has host.rounds xs e.wheel_li wheel enough marked,
            out,
            free,
            ran,
          )
          refl,
      v',
      at',
    )
