-- ===== src/Fmv/Unsigned.antt =====
-- The unsigned fields of fmv_src/sta_fmv.c: U8, U16, U32, U64, the network address and port, and
-- the two kinds of Boolean.
pub mod Laws
use cosimus.Base.{
  ℕ, zero, suc, ◌+◌, ◌%◌, ◌≡◌, Bool, true, Option, none, some, List, [], ◌∷◌, u8, u16, u32, u64,
  ◌<<<◌, ◌>>>◌, ltb, ◌==◌, if◌then◌else◌, peek, ◌>>=◌, ℤ, pos, negsuc,
}
use cosimus.Fmv.Cursor.{Cursor, Writer, Reader, fetch, refuse, put_bytes}

pub u8_udp : Writer ℕ
u8_udp val c datasz = if ltb c.pos datasz then put_bytes c (u8 val ∷ []) else refuse c

pub udp_u8 : Reader ℕ
udp_u8 present c = fetch present (peek c.mem c.pos) c 1

pub u16_udp : Writer ℕ
u16_udp val c datasz =
    if ltb (c.pos + 2) datasz
    then put_bytes c (u8 (val % 256) ∷ u8 (val >>> 8 % 256) ∷ [])
    else refuse c

-- `(u16t) (data[i + 0] + (data[i + 1] << 8))`
u16_at : List ℕ → ℕ → Option ℕ
u16_at m i = do b0 ← peek m (i + 0); b1 ← peek m (i + 1); some (u16 (b0 + b1 <<< 8))

pub udp_u16 : Reader ℕ
unfolding u16_at
udp_u16 present c = fetch present (u16_at c.mem c.pos) c 2

pub u32_udp : Writer ℕ
u32_udp val c datasz =
    if ltb (c.pos + 4) datasz
    then put_bytes c
        (u8 (val % 256) ∷ u8 (val >>> 8 % 256) ∷ u8 (val >>> 16 % 256) ∷ u8 (val >>> 24 % 256) ∷ [])
    else refuse c

u32_at : List ℕ → ℕ → Option ℕ
u32_at m i = do
  b0 ← peek m (i + 0)
  b1 ← peek m (i + 1)
  b2 ← peek m (i + 2)
  b3 ← peek m (i + 3)
  some (u32 (b0 + b1 <<< 8 + b2 <<< 16 + b3 <<< 24))

pub udp_u32 : Reader ℕ
unfolding u32_at
udp_u32 present c = fetch present (u32_at c.mem c.pos) c 4

pub u64_udp : Writer ℕ
u64_udp val c datasz =
    if ltb (c.pos + 8) datasz
    then put_bytes c (
        u8 (val % 256)
        ∷ u8 (val >>> 8 % 256)
        ∷ u8 (val >>> 16 % 256)
        ∷ u8 (val >>> 24 % 256)
        ∷ u8 (val >>> 32 % 256)
        ∷ u8 (val >>> 40 % 256)
        ∷ u8 (val >>> 48 % 256)
        ∷ u8 (val >>> 56 % 256)
        ∷ [])
    else refuse c

u64_at : List ℕ → ℕ → Option ℕ
u64_at m i = do
  b0 ← peek m (i + 0)
  b1 ← peek m (i + 1)
  b2 ← peek m (i + 2)
  b3 ← peek m (i + 3)
  b4 ← peek m (i + 4)
  b5 ← peek m (i + 5)
  b6 ← peek m (i + 6)
  b7 ← peek m (i + 7)
  some (u64 (b0 + b1 <<< 8 + b2 <<< 16 + b3 <<< 24 + b4 <<< 32 + b5 <<< 40 + b6 <<< 48 + b7 <<< 56))

pub udp_u64 : Reader ℕ
unfolding u64_at
udp_u64 present c = fetch present (u64_at c.mem c.pos) c 8

-- A port goes in network order, the high byte first.
pub ipport_udp : Writer ℕ
ipport_udp val c datasz =
    if ltb (c.pos + 2) datasz
    then put_bytes c (u8 (val >>> 8 % 256) ∷ u8 (val % 256) ∷ [])
    else refuse c

port_at : List ℕ → ℕ → Option ℕ
port_at m i = do b0 ← peek m (i + 0); b1 ← peek m (i + 1); some (u16 (b0 <<< 8 + b1))

pub udp_ipport : Reader ℕ
unfolding port_at
udp_ipport present c = fetch present (port_at c.mem c.pos) c 2

pub ipaddr_udp : Writer ℕ
unfolding u32_udp
ipaddr_udp val c datasz = u32_udp val c datasz

pub udp_ipaddr : Reader ℕ
unfolding udp_u32
udp_ipaddr present c = udp_u32 present c

-- `val ? 1 : 0`
abbrev pub truth : ℤ → ℕ
truth (pos zero) = 0
truth _ = 1

-- `val == 1`
abbrev pub is_one : ℤ → ℕ
is_one (pos n) = if n == 1 then 1 else 0
is_one (negsuc n) = 0

pub bool_udp : Writer ℤ
bool_udp val c datasz = if ltb c.pos datasz then put_bytes c (u8 (truth val) ∷ []) else refuse c

pub udp_bool : Reader ℤ
udp_bool present c =
    fetch present (peek c.mem c.pos >>= λ b. some (if b == 0 then pos 0 else pos 1)) c 1

-- `BOOL_UDP` and `UDP_BOOL`, which go through the byte; the reader writes `*val` unchecked.
pub big_bool_udp : Writer ℤ
unfolding u8_udp
big_bool_udp val c datasz = u8_udp (is_one val) c datasz

pub udp_big_bool : Reader ℤ
unfolding udp_u8
udp_big_bool present c =
    udp_u8 true c >>= λ (b, c'). if present then (b >>= λ n. some (some (pos n), c')) else none
