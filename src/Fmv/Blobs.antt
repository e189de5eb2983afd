-- ===== src/Fmv/Blobs.antt =====
-- The fields of bytes of fmv_src/sta_fmv.c: Fixed, Variable1 and Variable2. `val` is the block that
-- the pointer leads to; a size is not negative, and the length of a variable field may be.
pub mod RoundTrip
use cosimus.Base.{
  ℕ, zero, suc, ◌+◌, ◌*◌, ◌/◌, ◌%◌, Bool, true, false, Option, none, some, List, [], ◌∷◌, u8, ℤ,
  pos, negsuc, peek, peek_all, ltb, leb, if◌then◌else◌, ◌>>=◌,
}
use cosimus.Fmv.Cursor.{Cursor, Writer, Reader, fetch, refuse, put_bytes, advance}

-- `Fixed_UDP(val, size, data, &i, datasz)`
unfoldable pub fixed_udp : ℕ → Writer (List ℕ)
fixed_udp size val c datasz =
    if ltb (c.pos + size) datasz then (peek_all val 0 size >>= put_bytes c) else refuse c

-- `UDP_Fixed(val, size, data, &i, datasz)`
unfoldable pub udp_fixed : ℕ → Reader (List ℕ)
udp_fixed size present c = fetch present (peek_all c.mem c.pos size) c size

-- The length of a field, and the bytes behind it.
unfoldable pub put_counted : Cursor → List ℕ → List ℕ → ℕ → Option (ℤ × Cursor)
put_counted c header val n = put_bytes c header >>= λ (rc, c'). peek_all val 0 n >>= put_bytes c'

-- `Variable2_UDP(val, length, data, &i, datasz)`
unfoldable pub variable2_udp : ℤ → Writer (List ℕ)
variable2_udp (pos n) val c datasz =
    if leb datasz (c.pos + n + 2)
    then refuse c
    else (if leb n 65535 then put_counted c (u8 (n % 256) ∷ u8 (n / 256) ∷ []) val n else none)
variable2_udp (negsuc k) val c datasz = if leb (datasz + suc k) (c.pos + 2) then refuse c else none

-- `Variable1_UDP(val, length, data, &i, datasz)`
unfoldable pub variable1_udp : ℤ → Writer (List ℕ)
variable1_udp (pos n) val c datasz =
    if leb datasz (c.pos + n + 1)
    then refuse c
    else (if leb n 255 then put_counted c (u8 n ∷ []) val n else none)
variable1_udp (negsuc k) val c datasz = if leb (datasz + suc k) (c.pos + 1) then refuse c else none

-- How many bytes are copied; for a room of 0 this is -1, which `memcpy` takes for a huge size.
unfoldable pub copy_length : ℕ → ℕ → Option ℕ
copy_length zero length = none
copy_length (suc m) length = some (if ltb m length then m else length)

-- What stands in `val`, up to the zero byte that is put behind it.
unfoldable pub get_counted : Bool → ℕ → Cursor → ℕ → ℕ → Option (ℕ × Option (List ℕ) × Cursor)
get_counted false maxlen c header length = some (length, none, c)
get_counted true maxlen c header length = copy_length maxlen length >>= λ k.
    peek_all c.mem (c.pos + header) k >>= λ bs. some (length, some bs, advance c (header + length))

-- `UDP_Variable2(val, maxlen, data, &i, datasz)`: the length, what is stored in `val`, and the
-- position, which does not move if `val` is NULL.
unfoldable pub udp_variable2 : Bool → ℕ → Cursor → Option (ℕ × Option (List ℕ) × Cursor)
udp_variable2 present maxlen c = peek c.mem (c.pos + 0) >>= λ b0.
    peek c.mem (c.pos + 1) >>= λ b1. get_counted present maxlen c 2 (b0 + b1 * 256)

-- `UDP_Variable1(val, maxlen, data, &i, datasz)`
unfoldable pub udp_variable1 : Bool → ℕ → Cursor → Option (ℕ × Option (List ℕ) × Cursor)
udp_variable1 present maxlen c = peek c.mem c.pos >>= λ b. get_counted present maxlen c 1 b
