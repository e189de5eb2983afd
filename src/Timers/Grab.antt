-- ===== src/Timers/Grab.antt =====
-- `init_timers`, `grab_timer_index` and `expand_timer_list` of supp_src/lib_timers.c keep the queue.
pub mod Grow
use cosimus.Base.{
  ℕ, zero, suc, ◌+◌, ◌-◌, ◌<◌, ◌≤◌, ◌≡◌, ◌≢◌, refl, sym, ap, subst, ◌∙◌, Bool, true, false, Option,
  none, some, List, [], ◌∷◌, ◌++◌, append_assoc, append-nil, length, length-append, peek, set, ◌==◌,
  if◌then◌else◌, ◌>>=◌, arith,
}
use cosimus.LinkedList.Push.{not_null}
use cosimus.Timers.{TimerwheelEntry, Timers, Host, entry_at, update}
use cosimus.Timers.Array.{
  set_next, chain_from, expand_with, expand_timer_list, take_first, grab_from, grab_in,
  grab_timer_index, init_timers,
}
use cosimus.Timers.Pool.{
  Idle, end_or, head_or, Other, Queue, IsPool, peek-set_here, peek-set_there, Queue-set, Queue-snoc,
  Queue-end, point_to, end-Other, Queue-point_to,
}
use cosimus.Timers.Deactivate.{with_entries, update-run, entry_at-run}

-- The state after `i` was taken and `j` comes next.
abbrev pub with_first : ℕ → Timers → Timers
with_first j st = record st { timer_first_inactive = j }

pub take_first-run :
    (st : Timers) (buf : ℕ) (es : List TimerwheelEntry) (i j : ℕ)
    → st.timers_list ≡ some (buf, es)
    → Idle es i j
    → take_first i st ≡ some (i, with_first j st)
unfolding take_first
take_first-run st buf es i j held (e, at, off, next) =
    let idle : (e.state == 0) ≡ true = rw off refl in
    rw (entry_at-run st buf es i held, at, idle) (ap (λ n. some (i, with_first n st)) next)

-- When another entry is in the queue after the first one, `grab_timer_index` takes the first one.
pub grab-IsPool :
    (host : Host) (st : Timers) (buf : ℕ) (es : List TimerwheelEntry) (i j : ℕ) (is : List ℕ)
    → IsPool st buf es i (j ∷ is)
    → (grab_timer_index host st ≡ some (i, with_first j st)) × IsPool (with_first j st) buf es j is
unfolding grab_timer_index grab_in grab_from
grab-IsPool host st buf es i j is v =
    let ((e, at, off, next), nonnull, out, q) = v.queue in
    let more : (e.next_inactive_index == 0) ≡ false = rw next (not_null j q.1) in
    let first_at : peek es st.timer_first_inactive ≡ some e = ap (peek es) v.first ∙ at in
    let taken = take_first-run st buf es i j v.held (e, at, off, next) in
    (
      ap (grab_in host st) v.held ∙ rw (first_at, more) (ap (λ m. take_first m st) v.first ∙ taken),
      record { held = v.held; first = refl; last = v.last; queue = q },
    )

-- The numbers from `i` on.
abbrev pub count_from : ℕ → List TimerwheelEntry → List ℕ
count_from i [] = []
count_from i (e ∷ es) = i ∷ count_from (suc i) es

Other-count_from : (k i : ℕ) (es : List TimerwheelEntry) → k < i → Other k (count_from i es)
Other-count_from k i [] h = tt
Other-count_from k i (e ∷ es) h = ((λ p. omega arith), Other-count_from k (suc i) es (omega arith))

peek-append :
    (es fs : List TimerwheelEntry) (e : TimerwheelEntry) → peek (es ++ e ∷ fs) (length es) ≡ some e
peek-append [] fs e = refl
peek-append (x ∷ es) fs e = peek-append es fs e

head-count_from :
    (t i : ℕ) (es : List TimerwheelEntry) → t ≡ i + length es → head_or t (count_from i es) ≡ i
head-count_from t i [] h = omega arith
head-count_from t i (e ∷ es) h = refl

-- New entries behind the old ones are a queue.
Queue-chain_from :
    (old new : List TimerwheelEntry) (i t : ℕ)
    → i ≡ length old
    → 0 < i
    → t ≡ i + length new
    → Queue (old ++ chain_from i new) t (count_from i new)
unfolding chain_from
Queue-chain_from old [] i t here pos end = tt
Queue-chain_from old (e ∷ new) i t here pos end =
    let e' = record e { state = 0; generation = 0; next_inactive_index = suc i } in
    let es = old ++ e' ∷ chain_from (suc i) new in
    let at : peek es i ≡ some e' =
      ap (peek es) here ∙ peek-append old (chain_from (suc i) new) e' in
    let rest =
      Queue-chain_from (old ++ e' ∷ []) new (suc i) t
        (omega (arith, here, length-append old (e' ∷ []))) (omega arith) (omega arith) in
    (
      (e', at, refl, sym (head-count_from t (suc i) new (omega arith))),
      (λ p. omega arith),
      Other-count_from i (suc i) new (omega arith),
      subst (λ l. Queue l t (count_from (suc i) new))
          (append_assoc old (e' ∷ []) (chain_from (suc i) new)) rest,
    )

pub end-count_from :
    (t i : ℕ) (e : TimerwheelEntry) (es : List TimerwheelEntry)
    → end_or t (count_from i (e ∷ es)) ≡ i + length (e ∷ es) - 1
end-count_from t i e [] = omega arith
end-count_from t i e (f ∷ es) = end-count_from i (suc i) f es ∙ omega arith

pub peek-below :
    (es : List TimerwheelEntry) (i : ℕ) (e : TimerwheelEntry) → peek es i ≡ some e → i < length es
peek-below [] i e h = cc
peek-below (x ∷ es) zero e h = omega arith
peek-below (x ∷ es) (suc i) e h = omega (arith, peek-below es i e h)

peek-append_left :
    (es fs : List TimerwheelEntry) (i : ℕ) → i < length es → peek (es ++ fs) i ≡ peek es i
peek-append_left [] fs i h = absurd (omega arith)
peek-append_left (x ∷ es) fs zero h = refl
peek-append_left (x ∷ es) fs (suc i) h = peek-append_left es fs i (omega arith)

-- The array that `es0` becomes when entry `l` is made the end of the queue and `i` points to `n`.
abbrev pub joined :
    List TimerwheelEntry → ℕ → TimerwheelEntry → ℕ → TimerwheelEntry → ℕ → List TimerwheelEntry
joined es0 l el i e n = set (set es0 l (point_to 0 el)) i (point_to n e)

abbrev pub grown_state : ℕ → List TimerwheelEntry → ℕ → Timers → Timers
grown_state buf es last st = record st { timers_list = some (buf, es); timer_last_inactive = last }

pub expand_with-run :
    (st : Timers) (buf : ℕ) (old new : List TimerwheelEntry) (e el : TimerwheelEntry)
    → peek (old ++ chain_from (length old) new) (length old + length new - 1) ≡ some el
    → peek
        (set (old ++ chain_from (length old) new) (length old + length new - 1) (point_to 0 el))
        st.timer_last_inactive
      ≡ some e
    → expand_with old buf new st
      ≡ some (
        1,
        grown_state buf
            (joined
              (old ++ chain_from (length old) new)
              (length old + length new - 1)
              el
              st.timer_last_inactive
              e
              (length old))
            (length old + length new - 1)
            st,
      )
unfolding expand_with set_next
expand_with-run st buf old new e el at_l at =
    let n = length old in
    let l = n + length new - 1 in
    let es0 = old ++ chain_from n new in
    let es1 = set es0 l (point_to 0 el) in
    rw
      (
        update-run (point_to 0) (with_entries buf es0 st) buf es0 l el refl at_l,
        update-run (point_to n) (with_entries buf es1 st) buf es1 st.timer_last_inactive e refl at,
      )
      refl

-- The queue after the growth.
pub joined-Queue :
    (old : List TimerwheelEntry) (e0 : TimerwheelEntry) (new : List TimerwheelEntry) (i : ℕ)
    (e : TimerwheelEntry)
    → peek old i ≡ some e
    → e.state ≡ 0
    → i ≢ 0
    → (el : TimerwheelEntry) × (peek
          (old ++ chain_from (length old) (e0 ∷ new))
          (length old + length (e0 ∷ new) - 1)
        ≡ some el)
      × (peek
            (set
              (old ++ chain_from (length old) (e0 ∷ new))
              (length old + length (e0 ∷ new) - 1)
              (point_to 0 el))
            i
          ≡ some e)
      × Queue
          (joined
            (old ++ chain_from (length old) (e0 ∷ new))
            (length old + length (e0 ∷ new) - 1)
            el
            i
            e
            (length old))
          0
          (i ∷ count_from (length old) (e0 ∷ new))
joined-Queue old e0 new i e at off nonnull =
    let n = length old in
    let t = n + length (e0 ∷ new) in
    let below = peek-below old i e at in
    let es0 = old ++ chain_from n (e0 ∷ new) in
    let is = count_from (suc n) new in
    let q = Queue-chain_from old (e0 ∷ new) n t refl (omega arith) refl in
    let end = end-count_from n n e0 new in
    let (el, at_l, off_l, next) = Queue-end es0 t n is q in
    let q1 = Queue-point_to es0 t 0 n is el q at_l off_l in
    let es1 = set es0 (t - 1) (point_to 0 el) in
    let q1' : Queue es1 0 (n ∷ is) =
      subst (λ l. Queue (set es0 l (point_to 0 el)) 0 (n ∷ is)) end q1 in
    let at1 : peek es1 i ≡ some e =
      peek-set_there es0 (t - 1) i (point_to 0 el) (λ p. omega arith)
      ∙ peek-append_left old (chain_from n (e0 ∷ new)) i below
      ∙ at in
    let es2 = set es1 i (point_to n e) in
    let other = Other-count_from i n (e0 ∷ new) below in
    (
      el,
      ap (peek es0) (sym end) ∙ at_l,
      at1,
      (
        (point_to n e, peek-set_here es1 i e (point_to n e) at1, off, refl),
        nonnull,
        other,
        Queue-set es1 0 i (point_to n e) (n ∷ is) other q1',
      ),
    )
