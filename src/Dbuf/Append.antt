-- ===== src/Dbuf/Append.antt =====
-- The operations of supp_src/lib_dbuf.c that copy bytes into a buffer.
pub mod Laws
pub mod Copies
use cosimus.Base.{
  ℕ, zero, suc, ◌+◌, ◌-◌, ◌*◌, ◌/◌, ◌%◌, ◌^◌, Bool, true, false, ◌&&◌, Option, none, some, List, [],
  ◌∷◌, ◌++◌, replicate, peek, poke, poke_all, peek_all, ltb, leb, ◌==◌, if◌then◌else◌, ◌>>=◌, ℤ,
  pos, negsuc,
}
use cosimus.Dbuf.{Block, Dbuf, dchecksig, new_dbuf, dalloc}
use cosimus.Dbuf.Grow.{dgrow, dresize}

-- `strlen(str)`: reads up to the first zero, past the end if there is none.
unfoldable pub strlen : List ℕ → Option ℕ
strlen [] = none
strlen (zero ∷ s) = some 0
strlen (suc c ∷ s) = strlen s >>= λ n. some (suc n)

-- `memcpy(&d->buf[d->dsize], str, total); d->dsize += total`
unfoldable pub append_bytes : Dbuf → List ℕ → ℕ → Option Dbuf
append_bytes d str total = do
  bytes ← peek_all str 0 total
  m ← poke_all d.buf d.dsize bytes
  some (record d { buf = m; dsize = d.dsize + total })

-- By how much `dmemcat` grows: whole steps of `growsize`, one of them to spare.
abbrev pub cat_delta : Dbuf → ℕ → ℕ
cat_delta d total = (1 + (1 + total) / d.growsize) * d.growsize

-- `if((d->size - d->dsize) < total + 1)`, and the growth under it. A `growsize` of 0 is a division
-- by zero.
unfoldable pub make_room : Option Block → Dbuf → ℕ → Option (Bool × Dbuf)
make_room mem d total =
    if ltb d.size (d.dsize + total + 1)
    then (if d.growsize == 0 then none else dgrow mem d (cat_delta d total))
    else some (true, d)

-- The rest of `dmemcat` for a length that is not negative.
unfoldable pub memcat_sized : Option Block → Dbuf → List ℕ → ℕ → Option (Bool × Dbuf)
memcat_sized mem d str total = do
  (grown, d1) ← make_room mem d total
  if grown then (append_bytes d1 str total >>= λ d2. some (true, d2)) else some (false, d1)

-- `dmemcat(d, str, total)`: -1 means a string; `memcpy` of another negative length is an access out
-- of bounds. `mem` answers `realloc`, if it is called.
unfoldable pub dmemcat : Option Block → Dbuf → List ℕ → ℤ → Option (Bool × Dbuf)
dmemcat mem d str (pos n) = if dchecksig d then memcat_sized mem d str n else none
dmemcat mem d str (negsuc zero) =
    if dchecksig d then (strlen str >>= λ n. memcat_sized mem d str n) else none
dmemcat mem d str (negsuc (suc k)) = none

-- `dstrcat(d, str, total)`: what `dmemcat` answers is not looked at. `spare` answers the second
-- `realloc`. It always returns 1.
unfoldable pub dstrcat : Option Block → Option Block → Dbuf → List ℕ → ℤ → Option (Bool × Dbuf)
dstrcat mem spare d str total = do
  (catted, d1) ← dmemcat mem d str total
  (grown, d2) ← if leb d1.size d1.dsize then dgrow spare d1 10 else some (true, d1)
  m ← poke d2.buf d2.dsize 0
  some (true, record d2 { buf = m })

-- After the growth: the copy of `len` bytes of the source from `start` on, or `return 0`.
unfoldable pub xcat_copy : Dbuf → ℕ → ℕ → Bool × Dbuf → Option (Bool × Dbuf)
xcat_copy source start len (false, t) = some (false, t)
xcat_copy source start len (true, t) = do
  bytes ← peek_all source.buf start len
  m ← poke_all t.buf t.dsize bytes
  some (true, record t { buf = m; dsize = t.dsize + len })

-- `dxcat` with a length that is not negative.
unfoldable pub xcat_sized : Option Block → Dbuf → Dbuf → ℕ → ℕ → Option (Bool × Dbuf)
xcat_sized mem target source start len =
    if ltb source.dsize (start + len)
    then some (false, target)
    else (dgrow mem target len >>= xcat_copy source start len)

-- `dxcat` with the length -(k + 1): the growth by it wraps around in `size_t`, and a `memcpy` of it
-- is an access out of bounds.
unfoldable pub xcat_negative : Option Block → Dbuf → Dbuf → ℕ → ℕ → Option (Bool × Dbuf)
xcat_negative mem target source start k =
    if ltb (source.dsize + k + 1) start then some (false, target) else do
      (grown, t) ← dresize mem target ((target.size + 2 ^ 64 - (k + 1)) % 2 ^ 64)
      if grown then none else some (false, t)

-- `if(len == -1) { len = source->dsize - start; }`, which may be negative, and the rest.
unfoldable pub xcat_length : Option Block → Dbuf → Dbuf → ℕ → ℤ → Option (Bool × Dbuf)
xcat_length mem target source start (pos n) = xcat_sized mem target source start n
xcat_length mem target source start (negsuc zero) =
    if leb start source.dsize
    then xcat_sized mem target source start (source.dsize - start)
    else xcat_negative mem target source start (start - source.dsize - 1)
xcat_length mem target source start (negsuc (suc k)) = xcat_negative mem target source start (suc k)

-- `dxcat(target, source, start, len)`, for two buffers that are not one object.
unfoldable pub dxcat : Option Block → Dbuf → Dbuf → ℕ → ℤ → Option (Bool × Dbuf)
dxcat mem target source start len =
    if dchecksig target && dchecksig source then xcat_length mem target source start len else none

-- `dconcat(target, source)`
unfoldable pub dconcat : Option Block → Dbuf → Dbuf → Option (Bool × Dbuf)
dconcat mem target source = dxcat mem target source 0 (negsuc 0)

-- After the growth of `dappendfill`.
unfoldable pub fill_copy : ℕ → ℕ → Bool × Dbuf → Option (ℕ × Dbuf)
fill_copy c count (false, t) = some (0, t)
fill_copy c count (true, t) = do
  m ← poke_all t.buf t.dsize (replicate count c)
  some (count, record t { buf = m; dsize = t.dsize + count })

-- `dappendfill(target, c, count)`: returns how often `c` was appended.
unfoldable pub dappendfill : Option Block → Dbuf → ℕ → ℕ → Option (ℕ × Dbuf)
dappendfill mem target c count =
    if count == 0 then some (0, target) else (dgrow mem target count >>= fill_copy c count)

-- The rest of `dstrcpy` once the buffer is there.
unfoldable pub strcpy_into : List ℕ → ℕ → Option Dbuf → Option (Option Dbuf)
strcpy_into str n none = some none
strcpy_into str n (some d) = do
  bytes ← peek_all str 0 (n + 1)
  m ← poke_all d.buf 0 bytes
  some (some (record d { buf = m; dsize = d.size - 1 }))

-- `dstrcpy(str)`
unfoldable pub dstrcpy : Option Block → Bool → List ℕ → Option (Option Dbuf)
dstrcpy mem header str = do n ← strlen str; temp ← dalloc mem header (n + 1); strcpy_into str n temp

-- The rest of `dsubstrcpy`: the copy goes through the new buffer unchecked, and sets no `dsize`.
unfoldable pub substr_into : Dbuf → ℕ → ℕ → Option Dbuf → Option (Option Dbuf)
substr_into d start howmany none = none
substr_into d start howmany (some temp) = do
  bytes ← peek_all d.buf start howmany
  m ← poke_all temp.buf 0 bytes
  some (some (record temp { buf = m }))

-- `dsubstrcpy(d, start, howmany)`
unfoldable pub dsubstrcpy : Option Block → Bool → Dbuf → ℕ → ℕ → Option (Option Dbuf)
dsubstrcpy mem header d start howmany =
    if ltb start d.dsize && leb (start + howmany) d.dsize
    then (dalloc mem header howmany >>= substr_into d start howmany)
    else some none
