-- ===== src/Dbuf/Lock.antt =====
-- `dlock` and `dunlock` of supp_src/lib_dbuf.c: the reference count.
use cosimus.Base.{
  ℕ, zero, suc, ◌+◌, ◌≡◌, refl, sym, ap, subst, ◌∙◌, Bool, not, Option, none, some, ltb, ◌==◌,
  if◌then◌else◌, ◌>>=◌, arith, le→ltb, ◌<◌, ◌⊎◌, inl, inr, Bool-cases,
}
use cosimus.Dbuf.{Dbuf, dchecksig}
use cosimus.Dbuf.Grow.{IsDbuf, dchecksig-IsDbuf, int_limit}

-- `dlock(ptr)`
pub dlock : Option Dbuf → Option (Option Dbuf)
dlock none = some none
dlock (some d) = if dchecksig d then some (some (record d { lock = d.lock + 1 })) else none

-- What becomes of the buffer: nothing for NULL, a lower count, or the memory is given back, after
-- the destructor was called if there is one.
pub data Unlocked : Type 0 where
  nothing : Unlocked
  alive : Dbuf → Unlocked
  freed : Bool → Unlocked

-- `dunlock` after the check of the marks: the count must not fall below zero, nor the data exceed
-- the block.
drop_lock : ℕ → Dbuf → Option Unlocked
drop_lock zero d = none
drop_lock (suc n) d =
    if ltb d.size d.dsize
    then none
    else some (if n == 0 then freed (not (d.destructor == 0)) else alive (record d { lock = n }))

-- `dunlock(ptr)`
pub dunlock : Option Dbuf → Option Unlocked
unfolding drop_lock
dunlock none = some nothing
dunlock (some d) = if dchecksig d then drop_lock d.lock d else none

-- `n` calls of `dunlock` on one buffer. A call on freed memory is a fault.
pub unlock_times : ℕ → Unlocked → Option Unlocked
unlock_times zero u = some u
unlock_times (suc n) nothing = some nothing
unlock_times (suc n) (alive d) = dunlock (some d) >>= unlock_times n
unlock_times (suc n) (freed called) = none

-- `n` calls of `dlock`.
pub lock_times : ℕ → Option Dbuf → Option (Option Dbuf)
lock_times zero p = some p
lock_times (suc n) p = dlock p >>= lock_times n

-- The same buffer under another count.
abbrev pub with_lock : Dbuf → ℕ → Dbuf
with_lock d n = record d { lock = n }

pub with_lock-IsDbuf : {d : Dbuf} (n : ℕ) → IsDbuf d → IsDbuf (with_lock d n)
with_lock-IsDbuf n v = record {
  signed = v.signed;
  saved = v.saved;
  sized = v.sized;
  fits = v.fits;
  grows = v.grows;
}

dunlock_step :
    {d : Dbuf} (n : ℕ)
    → IsDbuf d
    → dunlock (some (with_lock d (suc (suc n)))) ≡ some (alive (with_lock d (suc n)))
unfolding dunlock drop_lock
dunlock_step {d} n v =
    rw (dchecksig-IsDbuf (with_lock-IsDbuf (suc (suc n)) v), le→ltb _ _ v.fits) (ground arith)

dunlock_last :
    {d : Dbuf} → IsDbuf d → dunlock (some (with_lock d 1)) ≡ some (freed (not (d.destructor == 0)))
unfolding dunlock drop_lock
dunlock_last {d} v = rw (dchecksig-IsDbuf (with_lock-IsDbuf 1 v), le→ltb _ _ v.fits)

unlock_times_freed :
    {d : Dbuf} (n : ℕ)
    → IsDbuf d
    → unlock_times (suc n) (alive (with_lock d (suc n))) ≡ some (freed (not (d.destructor == 0)))
unfolding unlock_times
unlock_times_freed zero v = rw (dunlock_last v)
unlock_times_freed (suc n) v = rw (dunlock_step n v) (unlock_times_freed n v)

unlock_times_alive :
    {d : Dbuf} (n : ℕ)
    → IsDbuf d
    → unlock_times n (alive (with_lock d (suc n))) ≡ some (alive (with_lock d 1))
unfolding unlock_times
unlock_times_alive zero v = refl
unlock_times_alive (suc n) v = rw (dunlock_step n v) (unlock_times_alive n v)

unlock_times_fault :
    {d : Dbuf} (n : ℕ) → IsDbuf d → unlock_times (suc (suc n)) (alive (with_lock d (suc n))) ≡ none
unfolding unlock_times
unlock_times_fault zero v = rw (dunlock_last v)
unlock_times_fault (suc n) v = rw (dunlock_step n v) (unlock_times_fault n v)

lock_times_up :
    {d : Dbuf} (k n : ℕ)
    → IsDbuf d
    → lock_times n (some (with_lock d k)) ≡ some (some (with_lock d (k + n)))
unfolding lock_times dlock
lock_times_up {d} k zero v = ap (λ t. some (some (with_lock d t))) (omega arith)
lock_times_up {d} k (suc n) v =
    rw (dchecksig-IsDbuf (with_lock-IsDbuf k v))
      (lock_times_up (k + 1) n v ∙ ap (λ t. some (some (with_lock d t))) (omega arith))

-- While the count is an `int`: a new buffer that is locked `n` more times is freed by the last of `n + 1` unlocks and by none
-- before it, its destructor called if it has one; one unlock more is a fault.
pub lock_count_balanced :
    {d : Dbuf} (n : ℕ)
    → IsDbuf d
    → d.lock ≡ 1
    → suc n < int_limit
    → ((with_lock d (suc n)).lock < int_limit)
      × (lock_times n (some d) ≡ some (some (with_lock d (suc n))))
      × (unlock_times n (alive (with_lock d (suc n))) ≡ some (alive d))
      × (unlock_times (suc n) (alive (with_lock d (suc n)))
          ≡ some (freed (not (d.destructor == 0))))
      × (unlock_times (suc (suc n)) (alive (with_lock d (suc n))) ≡ none)
lock_count_balanced {d} n v one small = (
  small,
  subst (λ e. lock_times n (some e) ≡ some (some (with_lock d (suc n)))) at_one
      (lock_times_up 1 n v ∙ ap (λ t. some (some (with_lock d t))) (omega arith)),
  unlock_times_alive n v ∙ ap (λ e. some (alive e)) at_one,
  unlock_times_freed n v,
  unlock_times_fault n v,
)
  where
    at_one : with_lock d 1 ≡ d
    at_one = λ i. record d { lock = sym one i }

positive : (k : ℕ) → 0 < k → (n : ℕ) × (k ≡ suc n)
positive zero h = absurd (omega arith)
positive (suc n) h = (n, refl)

drop_lock-cases :
    (n : ℕ) (d : Dbuf)
    → IsDbuf d
    → ((d' : Dbuf) × (drop_lock (suc n) d ≡ some (alive d')))
      ⊎ ((called : Bool) × (drop_lock (suc n) d ≡ some (freed called)))
unfolding drop_lock
drop_lock-cases n d v = elim (Bool-cases (n == 0)) [
  | inl last ↦ inr (not (d.destructor == 0), rw (le→ltb _ _ v.fits, last) refl)
  | inr more ↦ inl (with_lock d n, rw (le→ltb _ _ v.fits, more) refl)
]

-- `dunlock` of a locked buffer counts it down, or frees it.
pub dunlock-locked :
    {d : Dbuf}
    → IsDbuf d
    → 0 < d.lock
    → ((d' : Dbuf) × (dunlock (some d) ≡ some (alive d')))
      ⊎ ((called : Bool) × (dunlock (some d) ≡ some (freed called)))
unfolding dunlock
dunlock-locked {d} v locked =
    let (n, e) = positive d.lock locked in
    let opened : dunlock (some d) ≡ drop_lock (suc n) d =
      rw (dchecksig-IsDbuf v) (ap (λ k. drop_lock k d) e) in
    elim (drop_lock-cases n d v) [
      | inl (d', h) ↦ inl (d', opened ∙ h)
      | inr (called, h) ↦ inr (called, opened ∙ h)
    ]

pub dlock-some : {d : Dbuf} → IsDbuf d → dlock (some d) ≡ some (some (with_lock d (d.lock + 1)))
unfolding dlock
dlock-some v = rw (dchecksig-IsDbuf v) refl
