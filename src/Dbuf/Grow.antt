-- ===== src/Dbuf/Grow.antt =====
-- `dresize` and `dgrow` of supp_src/lib_dbuf.c.
use cosimus.Base.{
  ℕ, ◌+◌, ◌≤◌, ◌<◌, ◌≡◌, refl, sym, subst, Bool, true, false, Option, none, some, List, length,
  take, take-prefix, ltb, if◌then◌else◌, arith,
}
use cosimus.Dbuf.{Block, Dbuf, dsetsig, dchecksig, dbuf_signature}

-- `dresize(d, size)`, where `mem` answers `realloc(d->buf, size)`. To shrink is a failed assertion.
unfoldable pub dresize : Option Block → Dbuf → ℕ → Option (Bool × Dbuf)
unfolding dsetsig dchecksig
dresize none d size = if dchecksig d then some (false, d) else none
dresize (some b) d size =
    if dchecksig d
    then (if ltb size d.size
        then none
        else some (true, dsetsig (record d { size = size; addr = b.addr; buf = b.bytes })))
    else none

-- `dgrow(d, delta)`
unfoldable pub dgrow : Option Block → Dbuf → ℕ → Option (Bool × Dbuf)
unfolding dresize
dgrow mem d delta = dresize mem d (d.size + delta)

-- What every operation keeps: the marks are in place, `size` is the block's size, the data fit it,
-- and the buffer can grow.
pub record IsDbuf (d : Dbuf) : Type 0 where
  pub signed : d.signature ≡ dbuf_signature
  pub saved : d.savebuf ≡ d.addr
  pub sized : d.size ≡ length d.buf
  pub fits : d.dsize ≤ d.size
  pub grows : 0 < d.growsize

-- The bytes that the buffer holds.
abbrev pub content : Dbuf → List ℕ
content d = take d.dsize d.buf

-- What `realloc` promises of a block that is not smaller.
pub record Reallocs (d : Dbuf) (size : ℕ) (b : Block) : Type 0 where
  pub sized : length b.bytes ≡ size
  pub kept : take (length d.buf) b.bytes ≡ d.buf

pub dchecksig-IsDbuf : {d : Dbuf} → IsDbuf d → dchecksig d ≡ true
unfolding dchecksig
dchecksig-IsDbuf v = ground arith

-- A grown buffer: valid, with the same data, `delta` bytes larger.
pub record Grown (d : Dbuf) (delta : ℕ) (d' : Dbuf) : Type 0 where
  pub valid : IsDbuf d'
  pub same : content d' ≡ content d
  pub larger : d'.size ≡ d.size + delta
  pub dsize : d'.dsize ≡ d.dsize
  pub lock : d'.lock ≡ d.lock

pub dgrow-none : {d : Dbuf} → IsDbuf d → (delta : ℕ) → dgrow none d delta ≡ some (false, d)
unfolding dgrow
dgrow-none v delta = rw (dchecksig-IsDbuf v)

-- `dgrow` on unbounded numbers.
pub dgrow-Grown :
    {d : Dbuf} (b : Block) (delta : ℕ)
    → IsDbuf d
    → Reallocs d (d.size + delta) b
    → ((d' : Dbuf) × (dgrow (some b) d delta ≡ some (true, d')) × Grown d delta d')
      × (dgrow none d delta ≡ some (false, d))
unfolding dgrow
dgrow-Grown {d} b delta v r =
    let e = dchecksig-IsDbuf v in
    (
      (
        dsetsig (record d { size = d.size + delta; addr = b.addr; buf = b.bytes }),
        rw e (ground arith),
        record {
          valid = record {
            signed = refl;
            saved = refl;
            sized = sym r.sized;
            fits = omega (arith, v.fits);
            grows = v.grows;
          };
          same = take-prefix d.dsize d.buf b.bytes (rw (← v.sized) v.fits) r.kept;
          larger = refl;
          dsize = refl;
          lock = refl;
        },
      ),
      rw e,
    )

-- The first number that a C `int` cannot hold.
abbrev pub int_limit : ℕ
int_limit = 2147483648

-- While the new size is an `int`: when `realloc` gives a block, `dgrow` succeeds: the buffer stays
-- valid and keeps its data and its lock count, and its size grows by `delta` and is still an `int`.
-- When it gives none, `dgrow` says so and changes nothing.
pub dgrow_in_range :
    {d : Dbuf} (b : Block) (delta : ℕ)
    → IsDbuf d
    → Reallocs d (d.size + delta) b
    → d.size + delta < int_limit
    → ((d' : Dbuf) × (dgrow (some b) d delta ≡ some (true, d'))
        × Grown d delta d'
        × (d'.size < int_limit))
      × (dgrow none d delta ≡ some (false, d))
dgrow_in_range b delta v r small =
    let ((d', ran, g), refused) = dgrow-Grown b delta v r in
    ((d', ran, g, subst (λ k. k < int_limit) (sym g.larger) small), refused)
