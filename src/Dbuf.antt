-- ===== src/Dbuf.antt =====
-- supp_src/lib_dbuf.c: reference-counted data buffers.
-- A C pointer to a buffer's bytes is an address (`addr`), which the code compares, together with
-- the bytes of the block (`buf`, [] for NULL). What the allocator answers to a request is an
-- argument of the operation that makes it, `none` for NULL. `none` as a result of a whole
-- operation is a failed assertion, or an access outside a block.
pub mod Grow
pub mod Append
pub mod Scan
pub mod Lock
pub mod Store
use cosimus.Base.{
  ℕ, zero, suc, ◌+◌, ◌-◌, ◌≤◌, ◌<◌, ◌≡◌, refl, arith, Bool, true, false, ◌&&◌, Option, none, some,
  List, [], length, replicate, ltb, ◌==◌, if◌then◌else◌, ◌>>=◌, poke_all, ◌++◌, ◌∷◌,
}

-- A block of memory: where it lies and its bytes. 0 is no address.
pub record Block : Type 0 where
  pub addr : ℕ
  pub bytes : List ℕ

abbrev pub dbuf_signature : ℕ
dbuf_signature = 0xDB0F_510A

abbrev pub dmemcat_chunk_increment : ℕ
dmemcat_chunk_increment = 1024

-- `dbuf_t`, but for the backtraces and the list entry. A destructor is known by its address, and
-- so is `uptype_sig`; 0 is NULL.
pub record Dbuf : Type 0 where
  pub addr : ℕ
  pub buf : List ℕ
  pub uptype_sig : ℕ
  pub lock : ℕ
  pub size : ℕ
  pub dsize : ℕ
  pub bitpos : ℕ
  pub elsize : ℕ
  pub growsize : ℕ
  pub destructor : ℕ
  pub savebuf : ℕ
  pub signature : ℕ

-- `dsetsig`
unfoldable pub dsetsig : Dbuf → Dbuf
dsetsig d = record d { signature = dbuf_signature; savebuf = d.addr }

-- `dchecksig`: true when both assertions hold.
unfoldable pub dchecksig : Dbuf → Bool
dchecksig d = d.signature == dbuf_signature && d.savebuf == d.addr

-- The buffer that `dalloc` fills in for a block of `size` bytes.
unfoldable pub new_dbuf : Block → ℕ → Dbuf
unfolding dsetsig
new_dbuf b size = dsetsig (record {
  addr = b.addr;
  buf = b.bytes;
  uptype_sig = 0;
  lock = 1;
  size = size;
  dsize = 0;
  bitpos = 0;
  elsize = 1;
  growsize = dmemcat_chunk_increment;
  destructor = 0;
  savebuf = 0;
  signature = 0;
})

-- `dalloc(size)`. `mem` answers `malloc(size)` and `header` says whether the `malloc` of the
-- structure succeeds: the structure is zeroed before it is compared with NULL, so if it does not,
-- this is a write through NULL.
unfoldable pub dalloc : Option Block → Bool → ℕ → Option (Option Dbuf)
unfolding new_dbuf
dalloc mem header zero =
    if header then some (some (new_dbuf (record { addr = 0; bytes = [] }) 0)) else none
dalloc none header (suc n) = some none
dalloc (some b) header (suc n) = if header then some (some (new_dbuf b (suc n))) else none

pub dalloc-some :
    (b : Block) (size : ℕ) → 0 < size → dalloc (some b) true size ≡ some (some (new_dbuf b size))
unfolding dalloc
dalloc-some b zero h = absurd (omega arith)
dalloc-some b (suc n) h = refl

-- `if(d) { d->dsize = d->size; bzero(d->buf, d->size); }`
unfoldable pub zero_fill : Option Dbuf → Option (Option Dbuf)
zero_fill none = some none
zero_fill (some d) = poke_all d.buf 0 (replicate d.size 0) >>= λ m.
    some (some (record d { dsize = d.size; buf = m }))

-- `dalloczf(size)`: zeros, all of which count as data.
unfoldable pub dalloczf : Option Block → Bool → ℕ → Option (Option Dbuf)
unfolding dalloc zero_fill
dalloczf mem header size = dalloc mem header size >>= zero_fill

-- `dsetusig(d, sig)` and `dcheckusig(d, sig)`, on a buffer or NULL.
unfoldable pub dsetusig : Option Dbuf → ℕ → Option Dbuf
dsetusig none sig = none
dsetusig (some d) sig = if sig == 0 then some d else some (record d { uptype_sig = sig })

unfoldable pub dcheckusig : Option Dbuf → ℕ → Bool
dcheckusig none sig = true
dcheckusig (some d) sig = d.uptype_sig == sig

-- `ddestructor(d, destr)`
unfoldable pub ddestructor : Dbuf → ℕ → Dbuf
ddestructor d destr = record d { destructor = destr }
