-- ===== src/BitPack.antt =====
-- pktsmv_src/pktsmv.c: bits packed into a buffer, the highest bit first.
-- `realloc` answers the growth of a buffer. `none` is an access outside the block or a failed
-- assertion.
pub mod Stream
pub mod Write
use cosimus.Base.{
  ℕ, zero, suc, ◌+◌, ◌-◌, ◌/◌, ◌%◌, ◌^◌, bit_and, bit_or, Bool, true, false, not, Option, none,
  some, List, [], ◌∷◌, peek, poke, u8, ◌>>>◌, ltb, leb, ◌==◌, if◌then◌else◌, ◌>>=◌,
}
use cosimus.Dbuf.{Block, Dbuf}
use cosimus.Dbuf.Grow.{dgrow}

-- The byte with the bit `pos`, counted from the highest one, set or cleared.
unfoldable pub put_bit : ℕ → ℕ → Bool → ℕ
put_bit byte pos true = bit_or byte (0x80 >>> pos)
put_bit byte pos false = bit_and byte (u8 (0xff7f >>> pos))

-- The end of `dpack_bit`, once a byte is full: what `dgrow` returns is not looked at.
unfoldable pub next_byte : (Dbuf → Option Block) → Dbuf → Option Dbuf
next_byte realloc d = do
  d1 ← (if leb d.size d.dsize then (dgrow (realloc d) d 100 >>= λ (ok, d'). some d') else some d)
  m ← poke d1.buf d1.dsize 0
  some (record d1 { buf = m })

-- `dpack_bit(dbuf, bit)`
unfoldable pub dpack_bit : (Dbuf → Option Block) → Dbuf → Bool → Option Dbuf
dpack_bit realloc d bit = peek d.buf d.dsize >>= λ byte.
    poke d.buf d.dsize (put_bit byte d.bitpos bit) >>= λ m.
    if ltb 7 (d.bitpos + 1)
    then next_byte realloc (record d { buf = m; bitpos = 0; dsize = d.dsize + 1 })
    else some (record d { buf = m; bitpos = d.bitpos + 1 })

-- The `for` loop of `dpack_Nbit`: the lowest `n` bits of `val`.
unfoldable pub dpack_bits : (Dbuf → Option Block) → ℕ → ℕ → Dbuf → Option Dbuf
dpack_bits realloc zero val d = some d
dpack_bits realloc (suc n) val d =
    dpack_bit realloc d (not (val / 2 ^ n % 2 == 0)) >>= dpack_bits realloc n val

-- `dpack_Nbit(dbuf, val, nbit)`: the `while` loop, for so many rounds at most, and the `for` loop.
unfoldable pub dpack_rounds : ℕ → (Dbuf → Option Block) → ℕ → ℕ → Dbuf → Option Dbuf
dpack_rounds zero realloc val nbit d = none
dpack_rounds (suc left) realloc val nbit d =
    let rest =
      dpack_bits realloc 8 (val % 256) d >>= dpack_rounds left realloc (val / 256) (nbit - 8) in
    if ltb 8 nbit then rest else dpack_bits realloc nbit val d

-- There are fewer than `nbit` rounds, and one more for the end.
unfoldable pub dpack_n_bit : (Dbuf → Option Block) → ℕ → ℕ → Dbuf → Option Dbuf
dpack_n_bit realloc val nbit d = dpack_rounds (suc nbit) realloc val nbit d

-- `dpack_8bit(dbuf, byte)`
unfoldable pub dpack_8bit : (Dbuf → Option Block) → ℕ → Dbuf → Option Dbuf
dpack_8bit realloc byte d = dpack_n_bit realloc byte 8 d

-- `dpack_bit_array(dbuf, arr, len)`, with the bytes that are left.
unfoldable pub dpack_bit_array : (Dbuf → Option Block) → List ℕ → ℕ → Dbuf → Option Dbuf
dpack_bit_array realloc arr zero d = some d
dpack_bit_array realloc [] (suc len) d = none
dpack_bit_array realloc (b ∷ arr) (suc len) d =
    dpack_8bit realloc b d >>= dpack_bit_array realloc arr len
