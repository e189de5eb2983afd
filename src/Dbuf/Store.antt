-- ===== src/Dbuf/Store.antt =====
-- Buffers of supp_src/lib_dbuf.c that several parts of the program point to, by their addresses.
use cosimus.Base.{
  ℕ, ◌+◌, ◌<◌, inl, inr, ◌≡◌, ◌≢◌, refl, false, Option, none, some, ◌==◌, if◌then◌else◌, ◌>>=◌,
  arith,
}
use cosimus.Dbuf.{Dbuf}
use cosimus.Dbuf.Lock.{
  dlock, dunlock, Unlocked, nothing, alive, freed, with_lock, dunlock-locked, dlock-some,
}
use cosimus.Dbuf.Grow.{IsDbuf}

abbrev pub Dbufs : Type 0
Dbufs = ℕ → Option Dbuf

unfoldable pub put : ℕ → Option Dbuf → Dbufs → Dbufs
put a c s x = if x == a then c else s x

-- `dlock(a)`. NULL is locked without effect.
unfoldable pub lock_at : ℕ → Dbufs → Option Dbufs
lock_at a s = if a == 0 then some s else (s a >>= λ d. dlock (some d) >>= λ p. some (put a p s))

unfoldable pub after_unlock : ℕ → Dbufs → Unlocked → Dbufs
after_unlock a s nothing = s
after_unlock a s (alive d) = put a (some d) s
after_unlock a s (freed called) = put a none s

-- `dunlock(a)`. What a destructor does to other buffers is not modelled.
unfoldable pub unlock_at : ℕ → Dbufs → Option Dbufs
unlock_at a s =
    if a == 0 then some s else (s a >>= λ d. dunlock (some d) >>= λ u. some (after_unlock a s u))

pub put_here : (a : ℕ) (c : Option Dbuf) (s : Dbufs) → put a c s a ≡ c
unfolding put
put_here a c s = ground arith

pub put_there : (a x : ℕ) (c : Option Dbuf) (s : Dbufs) → x ≢ a → put a c s x ≡ s x
unfolding put
put_there a x c s ne = ground arith

-- Locking a buffer counts it up.
pub lock_at-run :
    (a : ℕ) (s : Dbufs) (d : Dbuf)
    → a ≢ 0
    → s a ≡ some d
    → IsDbuf d
    → lock_at a s ≡ some (put a (some (with_lock d (d.lock + 1))) s)
unfolding lock_at
lock_at-run a s d nonnull at v =
    let there : (a == 0) ≡ false = ground arith in rw (there, at, dlock-some v) refl

-- Unlocking a buffer that is locked changes nothing but this buffer.
pub unlock_at-run :
    (a : ℕ) (s : Dbufs) (d : Dbuf)
    → a ≢ 0
    → s a ≡ some d
    → IsDbuf d
    → 0 < d.lock
    → (c : Option Dbuf) × (unlock_at a s ≡ some (put a c s))
unfolding unlock_at after_unlock
unlock_at-run a s d nonnull at v locked =
    let there : (a == 0) ≡ false = ground arith in
    elim (dunlock-locked v locked) [
      | inl (d', e) ↦ (some d', rw (there, at, e) refl)
      | inr (called, e) ↦ (none, rw (there, at, e) refl)
    ]
