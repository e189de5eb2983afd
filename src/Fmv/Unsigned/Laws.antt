-- ===== src/Fmv/Unsigned/Laws.antt =====
-- The unsigned writers put the value's bytes, least significant first (ports: most significant
-- first), or refuse and change nothing; the readers give the value back.
use cosimus.Base.{
  ℕ, ◌+◌, ◌≤◌, ◌<◌, ◌^◌, ◌≡◌, refl, some, [], ◌∷◌, ltb, if◌then◌else◌, le_bytes, arith, ℤ, pos,
  negsuc, length, reverse, ap, lt→ltb, zero, suc, u8, ◌==◌,
}
use cosimus.Fmv.Cursor.{Cursor, written}
use cosimus.Fmv.Cursor.{
  Puts, guarded_put, Reads, byte_at, Transfers, Puts-fits, guarded_byte, first_byte,
}
use cosimus.Fmv.Unsigned.{
  u8_udp, udp_u8, u16_udp, udp_u16, u32_udp, udp_u32, u64_udp, udp_u64, ipport_udp, udp_ipport,
  ipaddr_udp, udp_ipaddr, bool_udp, udp_bool, big_bool_udp, udp_big_bool, truth, is_one,
}

module _ (val : ℕ) (c : Cursor) (datasz : ℕ) (h : datasz ≤ length c.mem) where
  u8_udp-Puts : Puts (u8_udp val c datasz) (ltb c.pos datasz) c (le_bytes 1 val)
  unfolding u8_udp le_bytes
  u8_udp-Puts = guarded_byte c datasz h (omega arith)

  u16_udp-Puts : Puts (u16_udp val c datasz) (ltb (c.pos + 2) datasz) c (le_bytes 2 val)
  unfolding u16_udp le_bytes
  u16_udp-Puts = guarded_put c _ _ 2 datasz h (omega arith) (ground arith)

  u32_udp-Puts : Puts (u32_udp val c datasz) (ltb (c.pos + 4) datasz) c (le_bytes 4 val)
  unfolding u32_udp le_bytes
  u32_udp-Puts = guarded_put c _ _ 4 datasz h (omega arith) (ground arith)

  u64_udp-Puts : Puts (u64_udp val c datasz) (ltb (c.pos + 8) datasz) c (le_bytes 8 val)
  unfolding u64_udp le_bytes
  u64_udp-Puts = guarded_put c _ _ 8 datasz h (omega arith) (ground arith)

  ipport_udp-Puts :
      Puts (ipport_udp val c datasz) (ltb (c.pos + 2) datasz) c (reverse (le_bytes 2 val))
  unfolding ipport_udp le_bytes
  ipport_udp-Puts = guarded_put c _ _ 2 datasz h (omega arith) (ground arith)

-- What a reader finds behind the bytes that were written.
module _ (c : Cursor) where
  u16_read :
      (val : ℕ) → val < 2 ^ 16 → c.pos + 2 ≤ length c.mem → Reads udp_u16 c (le_bytes 2 val) val
  unfolding udp_u16 le_bytes
  u16_read val b h =
      rw
        (byte_at c (le_bytes 2 val) h 0 (omega arith), byte_at c (le_bytes 2 val) h 1 (omega arith))
        (ground arith)

  port_read :
      (val : ℕ)
      → val < 2 ^ 16
      → c.pos + 2 ≤ length c.mem
      → Reads udp_ipport c (reverse (le_bytes 2 val)) val
  unfolding udp_ipport le_bytes
  port_read val b h =
      let bs = reverse (le_bytes 2 val) in
      rw (byte_at c bs h 0 (omega arith), byte_at c bs h 1 (omega arith)) (ground arith)

  u32_read :
      (val : ℕ) → val < 2 ^ 32 → c.pos + 4 ≤ length c.mem → Reads udp_u32 c (le_bytes 4 val) val
  unfolding udp_u32 le_bytes
  u32_read val b h =
      let at = byte_at c (le_bytes 4 val) h in
      rw (at 0 (omega arith), at 1 (omega arith), at 2 (omega arith), at 3 (omega arith))
        (ground arith)

  u64_read :
      (val : ℕ) → val < 2 ^ 64 → c.pos + 8 ≤ length c.mem → Reads udp_u64 c (le_bytes 8 val) val
  unfolding udp_u64 le_bytes
  u64_read val b h =
      let at = byte_at c (le_bytes 8 val) h in
      rw
        (
          at 0 (omega arith),
          at 1 (omega arith),
          at 2 (omega arith),
          at 3 (omega arith),
          at 4 (omega arith),
          at 5 (omega arith),
          at 6 (omega arith),
          at 7 (omega arith),
        )
        (ground arith)

  u8_read : (val : ℕ) → val < 2 ^ 8 → c.pos + 1 ≤ length c.mem → Reads udp_u8 c (le_bytes 1 val) val
  unfolding udp_u8 le_bytes
  u8_read val b h = rw (first_byte c (le_bytes 1 val) h (omega arith)) (ground arith)

-- Each unsigned writer, when `datasz` is no more than the room there is: if the value ends before
-- `datasz` the writer returns 0, puts its bytes in place, least significant first (for a port most
-- significant first), changes no other byte and moves behind them; if not it returns -1 and changes nothing.
-- A single byte may also end at `datasz`.
pub unsigned_writers :
    (val : ℕ) (c : Cursor) (datasz : ℕ)
    → datasz ≤ length c.mem
    → Puts (u8_udp val c datasz) (ltb c.pos datasz) c (le_bytes 1 val)
      × Puts (u16_udp val c datasz) (ltb (c.pos + 2) datasz) c (le_bytes 2 val)
      × Puts (u32_udp val c datasz) (ltb (c.pos + 4) datasz) c (le_bytes 4 val)
      × Puts (u64_udp val c datasz) (ltb (c.pos + 8) datasz) c (le_bytes 8 val)
      × Puts (ipport_udp val c datasz) (ltb (c.pos + 2) datasz) c (reverse (le_bytes 2 val))
      × Puts (ipaddr_udp val c datasz) (ltb (c.pos + 4) datasz) c (le_bytes 4 val)
unfolding ipaddr_udp
unsigned_writers val c datasz h = (
  u8_udp-Puts val c datasz h,
  u16_udp-Puts val c datasz h,
  u32_udp-Puts val c datasz h,
  u64_udp-Puts val c datasz h,
  ipport_udp-Puts val c datasz h,
  u32_udp-Puts val c datasz h,
)

module _ (val : ℕ) (c : Cursor) (datasz : ℕ) (room : datasz ≤ length c.mem) where
  -- Where a byte fits, `UDP_U8` reads back what `U8_UDP` wrote.
  pub u8_round_trip :
      val < 2 ^ 8 → c.pos < datasz → Transfers u8_udp udp_u8 c datasz val (le_bytes 1 val)
  u8_round_trip b fits = (
    Puts-fits c _ (u8_udp-Puts val c datasz room) (lt→ltb _ _ fits),
    u8_read c val b (omega arith),
  )

  -- Where two bytes and one more fit, `UDP_U16` reads back what `U16_UDP` wrote, and `UDP_IPPORT`
  -- what `IPPORT_UDP` wrote; the two bytes of a port stand in the other order.
  pub u16_round_trip :
      val < 2 ^ 16
      → c.pos + 2 < datasz
      → Transfers u16_udp udp_u16 c datasz val (le_bytes 2 val)
        × Transfers ipport_udp udp_ipport c datasz val (reverse (le_bytes 2 val))
  u16_round_trip b fits = (
    (
      Puts-fits c _ (u16_udp-Puts val c datasz room) (lt→ltb _ _ fits),
      u16_read c val b (omega arith),
    ),
    (
      Puts-fits c _ (ipport_udp-Puts val c datasz room) (lt→ltb _ _ fits),
      port_read c val b (omega arith),
    ),
  )

  -- Where four bytes and one more fit, `UDP_U32` reads back what `U32_UDP` wrote, and `UDP_IPADDR`
  -- what `IPADDR_UDP` wrote.
  pub u32_round_trip :
      val < 2 ^ 32
      → c.pos + 4 < datasz
      → Transfers u32_udp udp_u32 c datasz val (le_bytes 4 val)
        × Transfers ipaddr_udp udp_ipaddr c datasz val (le_bytes 4 val)
  unfolding ipaddr_udp udp_ipaddr
  u32_round_trip b fits =
      let wrote = Puts-fits c _ (u32_udp-Puts val c datasz room) (lt→ltb _ _ fits) in
      let found = u32_read c val b (omega arith) in ((wrote, found), (wrote, found))

  -- Where eight bytes and one more fit, `UDP_U64` reads back what `U64_UDP` wrote.
  pub u64_round_trip :
      val < 2 ^ 64 → c.pos + 8 < datasz → Transfers u64_udp udp_u64 c datasz val (le_bytes 8 val)
  u64_round_trip b fits = (
    Puts-fits c _ (u64_udp-Puts val c datasz room) (lt→ltb _ _ fits),
    u64_read c val b (omega arith),
  )

u8-truth : (val : ℤ) → u8 (truth val) ≡ truth val
u8-truth (pos zero) = refl
u8-truth (pos (suc n)) = refl
u8-truth (negsuc n) = refl

u8-is_one : (val : ℤ) → u8 (is_one val) ≡ is_one val
u8-is_one val = ground arith

truth_read : (val : ℤ) → (if truth val == 0 then pos 0 else pos 1) ≡ pos (truth val)
truth_read (pos zero) = refl
truth_read (pos (suc n)) = refl
truth_read (negsuc n) = refl

module _ (val : ℤ) (c : Cursor) (datasz : ℕ) (room : datasz ≤ length c.mem) where
  -- Where a byte fits, `Bool_UDP` writes 1 for every value but 0 and `UDP_Bool` gives that 1 or 0
  -- back, while `BOOL_UDP` writes 1 for the value 1 alone, and `UDP_BOOL` gives that back.
  pub bool_round_trip :
      c.pos < datasz
      → (bool_udp val c datasz ≡ some (pos 0, written c (truth val ∷ [])))
        × Reads udp_bool c (truth val ∷ []) (pos (truth val))
        × (big_bool_udp val c datasz ≡ some (pos 0, written c (is_one val ∷ [])))
        × Reads udp_big_bool c (is_one val ∷ []) (pos (is_one val))
  unfolding bool_udp udp_bool big_bool_udp udp_big_bool
  bool_round_trip fits = (
    Puts-fits c _ (guarded_byte c datasz room (u8-truth val)) (lt→ltb _ _ fits),
    rw (first_byte c (truth val ∷ []) (omega arith) (omega arith))
        (ap (λ v. some (some v, written c (truth val ∷ []))) (truth_read val)),
    Puts-fits c _ (guarded_byte c datasz room (u8-is_one val)) (lt→ltb _ _ fits),
    rw (first_byte c (is_one val ∷ []) (omega arith) (omega arith)),
  )
