-- ===== src/Fmv/Uuid.antt =====
-- The field LLUUID of fmv_src/sta_fmv.c: an identifier, most significant bytes first.
pub mod RoundTrip
use cosimus.Base.{
  ℕ, ◌+◌, Option, none, some, List, [], ◌∷◌, ◌++◌, u8, u16, u32, ◌<<<◌, ◌>>>◌, ℤ, peek, peek_all,
  leb, if◌then◌else◌, ◌>>=◌,
}
use cosimus.Fmv.Cursor.{Cursor, Writer, refuse, put_bytes, advance}

-- `uuid_t`; `node` has six bytes.
pub record Uuid : Type 0 where
  pub time_low : ℕ
  pub time_mid : ℕ
  pub time_hi_and_version : ℕ
  pub clock_seq_hi_and_reserved : ℕ
  pub clock_seq_low : ℕ
  pub node : List ℕ

-- The bytes in the order of their addresses; the code stores them in another order.
unfoldable pub uuid_bytes : Uuid → List ℕ
uuid_bytes uu =
    u8 (uu.time_low >>> 24)
    ∷ u8 (uu.time_low >>> 16)
    ∷ u8 (uu.time_low >>> 8)
    ∷ u8 uu.time_low
    ∷ u8 (uu.time_mid >>> 8)
    ∷ u8 uu.time_mid
    ∷ u8 (uu.time_hi_and_version >>> 8)
    ∷ u8 uu.time_hi_and_version
    ∷ u8 uu.clock_seq_hi_and_reserved
    ∷ u8 uu.clock_seq_low
    ∷ uu.node

-- `LLUUID_UDP(uu, data, &i, datasz)`
unfoldable pub lluuid_udp : Writer Uuid
lluuid_udp uu c datasz = if leb datasz (c.pos + 16) then refuse c else put_bytes c (uuid_bytes uu)

-- `UDP_LLUUID(&uu, data, &i, datasz)`; `uu` is not compared with NULL.
unfoldable pub udp_lluuid : Cursor → Option (Uuid × Cursor)
udp_lluuid c = do
  b0 ← peek c.mem (c.pos + 0)
  b1 ← peek c.mem (c.pos + 1)
  b2 ← peek c.mem (c.pos + 2)
  b3 ← peek c.mem (c.pos + 3)
  b4 ← peek c.mem (c.pos + 4)
  b5 ← peek c.mem (c.pos + 5)
  b6 ← peek c.mem (c.pos + 6)
  b7 ← peek c.mem (c.pos + 7)
  b8 ← peek c.mem (c.pos + 8)
  b9 ← peek c.mem (c.pos + 9)
  node ← peek_all c.mem (c.pos + 10) 6
  some (
    record {
      time_low = u32 (((b0 <<< 8 + b1) <<< 8 + b2) <<< 8 + b3);
      time_mid = u16 (b4 <<< 8 + b5);
      time_hi_and_version = u16 (b6 <<< 8 + b7);
      clock_seq_hi_and_reserved = b8;
      clock_seq_low = b9;
      node = node;
    },
    advance c 16,
  )
