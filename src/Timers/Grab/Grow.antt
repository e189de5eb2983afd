-- ===== src/Timers/Grab/Grow.antt =====
-- `grab_timer_index` of supp_src/lib_timers.c at the last inactive entry: the array grows.
use cosimus.Base.{
  ℕ, suc, ◌+◌, ◌-◌, ◌≡◌, refl, sym, ap, subst, ◌∙◌, true, none, some, List, [], ◌∷◌, ◌++◌, length,
  peek, set, ◌==◌, if◌then◌else◌, ◌>>=◌, arith,
}
use cosimus.Timers.{TimerwheelEntry, Timers, Host}
use cosimus.Timers.Array.{
  chain_from, expand_with, expand_answer, expand_old, expand_timer_list, take_first, grab_from,
  grab_in, grab_timer_index,
}
use cosimus.Timers.Pool.{IsPool, point_to}
use cosimus.Timers.Grab.{
  with_first, take_first-run, count_from, end-count_from, joined, grown_state, expand_with-run,
  joined-Queue,
}

same : (i j k : ℕ) → i ≡ k → j ≡ k → (i == j) ≡ true
same i j k p q = ground arith

-- When the last entry of the queue is wanted, growth is tried.
grab_last :
    (host : Host) (st : Timers) (buf : ℕ) (es : List TimerwheelEntry) (i : ℕ)
    → IsPool st buf es i []
    → grab_timer_index host st ≡ (
        expand_old host st (buf, es) >>= λ (ok, st').
        if ok == 0 then some (0, st') else take_first st.timer_first_inactive st')
unfolding grab_timer_index grab_in grab_from expand_timer_list
grab_last host st buf es i v =
    let ((e, at, off, next), nonnull, out, q) = v.queue in
    let first_at : peek es st.timer_first_inactive ≡ some e = ap (peek es) v.first ∙ at in
    let done : (e.next_inactive_index == 0) ≡ true = rw next refl in
    let one = same st.timer_first_inactive st.timer_last_inactive i v.first v.last in
    ap (grab_in host st) v.held
    ∙ rw (first_at, done, one)
        (ap
          (λ l. l >>= expand_old host st >>= λ (ok, st').
            if ok == 0 then some (0, st') else take_first st.timer_first_inactive st')
          v.held)

-- At the last inactive entry `grab_timer_index` without memory returns 0 and changes nothing.
pub grab_refused :
    (host : Host) (st : Timers) (buf : ℕ) (es : List TimerwheelEntry) (i : ℕ)
    → IsPool st buf es i []
    → host.realloc st ≡ none
    → grab_timer_index host st ≡ some (0, st)
unfolding expand_old expand_answer
grab_refused host st buf es i v refused =
    grab_last host st buf es i v
    ∙ ap
        (λ r. expand_answer es st r >>= λ (ok, st').
          if ok == 0 then some (0, st') else take_first st.timer_first_inactive st')
        refused

-- At the last inactive entry `i`, when `realloc` moves the array to `buf'` with new entries behind the
-- old ones, `grab_timer_index` takes `i`, and the queue is made of the new entries in order.
pub grab-grown :
    (host : Host) (st : Timers) (buf buf' : ℕ) (old : List TimerwheelEntry) (i : ℕ)
    (e0 : TimerwheelEntry) (new : List TimerwheelEntry)
    → IsPool st buf old i []
    → host.realloc st ≡ some (buf', e0 ∷ new)
    → (st' : Timers) × (es : List TimerwheelEntry) × (grab_timer_index host st ≡ some (i, st'))
      × IsPool st' buf' es (length old) (count_from (suc (length old)) new)
unfolding expand_old expand_answer
grab-grown host st buf buf' old i e0 new v answered =
    let ((e, at, off, next), nonnull, out, q) = v.queue in
    let n = length old in
    let l = n + length (e0 ∷ new) - 1 in
    let (el, at_l, at_i, queue) = joined-Queue old e0 new i e at off nonnull in
    let es0 = old ++ chain_from n (e0 ∷ new) in
    let es = joined es0 l el i e n in
    let st1 = grown_state buf' es l st in
    let expanded : expand_with old buf' (e0 ∷ new) st ≡ some (1, st1) =
      expand_with-run st buf' old (e0 ∷ new) e el at_l
        (subst (λ k. peek (set es0 l (point_to 0 el)) k ≡ some e) (sym v.last) at_i)
      ∙ ap (λ k. some (1, grown_state buf' (joined es0 l el k e n) l st)) v.last in
    (
      with_first n st1,
      es,
      grab_last host st buf old i v
          ∙ rw (answered, expanded)
              (ap (λ k. take_first k st1) v.first ∙ take_first-run st1 buf' es i n refl queue.0),
      record { held = refl; first = refl; last = sym (end-count_from n n e0 new); queue = queue.3 },
    )
