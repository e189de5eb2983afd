-- ===== src/Fmv/Signed/Laws.antt =====
-- A signed field carries the two's complement pattern of its value, in the same order of bytes as
-- the unsigned field of its width.
use cosimus.Base.{
  ℕ, ◌+◌, ◌-◌, ◌*◌, ◌/◌, ◌%◌, ◌≤◌, ◌<◌, ◌≡◌, ap, [], ◌∷◌, arith, ℤ, pos, negsuc, rem_256, ◌>>ℤ◌,
  ℤ_to_u8, signed, IsSigned, length, lt→ltb, le_bytes, some,
}
use native.Mathlib.Nat.{mod-eq_of_lt}
use cosimus.Fmv.Cursor.{
  Cursor, guarded_put, guarded_byte, Reads, byte_at, first_byte, Transfers, Puts-fits, written,
}
use cosimus.Fmv.Signed.{s8_udp, udp_s8, s16_udp, udp_s16, s32_udp, udp_s32}

-- The two's complement pattern of a value in -h … h - 1, out of 2 * h patterns.
abbrev pub pattern_of : ℕ → ℤ → ℕ
pattern_of h (pos n) = n
pattern_of h (negsuc n) = 2 * h - 1 - n

low_byte : (n : ℕ) → ℤ_to_u8 (rem_256 (negsuc n)) ≡ 255 - n % 256
low_byte n = ground arith

s8_byte : (val : ℤ) → IsSigned 128 val → ℤ_to_u8 val ≡ pattern_of 128 val % 256
s8_byte (pos n) b = omega arith
s8_byte (negsuc n) b = omega arith

s16_bytes :
    (val : ℤ)
    → IsSigned 32768 val
    → (ℤ_to_u8 (rem_256 val) ∷ ℤ_to_u8 (rem_256 (val >>ℤ 8)) ∷ [])
      ≡ le_bytes 2 (pattern_of 32768 val)
unfolding le_bytes
s16_bytes (pos n) b = ground arith
s16_bytes (negsuc n) b = ground (arith, low_byte n, low_byte (n / 256))

s32_bytes :
    (val : ℤ)
    → IsSigned 2147483648 val
    → (ℤ_to_u8 (rem_256 val)
        ∷ ℤ_to_u8 (rem_256 (val >>ℤ 8))
        ∷ ℤ_to_u8 (rem_256 (val >>ℤ 16))
        ∷ ℤ_to_u8 (rem_256 (val >>ℤ 24))
        ∷ [])
      ≡ le_bytes 4 (pattern_of 2147483648 val)
unfolding le_bytes
s32_bytes (pos n) b = ground arith
s32_bytes (negsuc n) b =
    ground (arith, low_byte n, low_byte (n / 256), low_byte (n / 65536), low_byte (n / 16777216))

signed-pattern_of : (h : ℕ) (val : ℤ) → IsSigned h val → signed h (pattern_of h val) ≡ val
signed-pattern_of h (pos n) b = ground (arith, mod-eq_of_lt {n = n} {m = 2 * h} (omega arith))
signed-pattern_of h (negsuc n) b =
    ground (arith, mod-eq_of_lt {n = 2 * h - 1 - n} {m = 2 * h} (omega arith))

pattern-lt : (h : ℕ) (val : ℤ) → 0 < h → IsSigned h val → pattern_of h val < 2 * h
pattern-lt h (pos n) p b = omega arith
pattern-lt h (negsuc n) p b = omega arith

module _ (c : Cursor) (n : ℕ) where
  s8_read : n < 256 → c.pos + 1 ≤ length c.mem → Reads udp_s8 c (le_bytes 1 n) (signed 128 n)
  unfolding udp_s8 le_bytes
  s8_read b h =
      rw (first_byte c (le_bytes 1 n) h (omega arith))
        (ap (λ v. some (some (signed 128 v), written c (le_bytes 1 n))) (omega arith))

  s16_read : n < 65536 → c.pos + 2 ≤ length c.mem → Reads udp_s16 c (le_bytes 2 n) (signed 32768 n)
  unfolding udp_s16 le_bytes
  s16_read b h =
      let at = byte_at c (le_bytes 2 n) h in
      rw (at 0 (omega arith), at 1 (omega arith))
        (ap (λ v. some (some (signed 32768 v), written c (le_bytes 2 n))) (omega arith))

  s32_read :
      n < 4294967296
      → c.pos + 4 ≤ length c.mem
      → Reads udp_s32 c (le_bytes 4 n) (signed 2147483648 n)
  unfolding udp_s32 le_bytes
  s32_read b h =
      let at = byte_at c (le_bytes 4 n) h in
      rw (at 0 (omega arith), at 1 (omega arith), at 2 (omega arith), at 3 (omega arith))
        (ap (λ v. some (some (signed 2147483648 v), written c (le_bytes 4 n))) (omega arith))

module _ (val : ℤ) (c : Cursor) (datasz : ℕ) (room : datasz ≤ length c.mem) where
  -- Where it fits, `S8_UDP` writes the two's complement pattern of a value in -128 … 127, and
  -- `UDP_S8` reads the value back.
  pub s8_round_trip :
      IsSigned 128 val
      → c.pos < datasz
      → Transfers s8_udp udp_s8 c datasz val (le_bytes 1 (pattern_of 128 val))
  unfolding s8_udp le_bytes
  s8_round_trip b fits = (
    Puts-fits c _ (guarded_byte c datasz room (s8_byte val b)) (lt→ltb _ _ fits),
    rw (signed-pattern_of 128 val b) at
        (s8_read c (pattern_of 128 val) (pattern-lt 128 val (omega arith) b) (omega arith)),
  )

  -- Where it fits, `S16_UDP` writes the two's complement pattern of a value in -2^15 … 2^15 - 1,
  -- low byte first, and `UDP_S16` reads the value back.
  pub s16_round_trip :
      IsSigned 32768 val
      → c.pos + 2 < datasz
      → Transfers s16_udp udp_s16 c datasz val (le_bytes 2 (pattern_of 32768 val))
  unfolding s16_udp
  s16_round_trip b fits = (
    Puts-fits c _ (guarded_put c _ _ 2 datasz room (omega arith) (s16_bytes val b))
        (lt→ltb _ _ fits),
    rw (signed-pattern_of 32768 val b) at
        (s16_read c (pattern_of 32768 val) (pattern-lt 32768 val (omega arith) b) (omega arith)),
  )

  -- Where it fits, `S32_UDP` writes the two's complement pattern of a value in -2^31 … 2^31 - 1,
  -- low byte first, and `UDP_S32` reads the value back.
  pub s32_round_trip :
      IsSigned 2147483648 val
      → c.pos + 4 < datasz
      → Transfers s32_udp udp_s32 c datasz val (le_bytes 4 (pattern_of 2147483648 val))
  unfolding s32_udp
  s32_round_trip b fits = (
    Puts-fits c _ (guarded_put c _ _ 4 datasz room (omega arith) (s32_bytes val b))
        (lt→ltb _ _ fits),
    rw (signed-pattern_of 2147483648 val b) at (
        s32_read c (pattern_of 2147483648 val) (pattern-lt 2147483648 val (omega arith) b)
          (omega arith)),
  )
