-- ===== src/Fmv/Floats/Laws.antt =====
-- A float field carries the bit pattern of the float, least significant byte first, whatever the
-- order of bytes on the machines at both ends.
use cosimus.Base.{
  ℕ, ◌+◌, ◌≤◌, ◌<◌, ◌≡◌, refl, Bool, true, false, some, [], ◌∷◌, List, arith, pos, length, ltb,
  lt→ltb, if◌then◌else◌,
}
use cosimus.Fmv.Cursor.{
  Cursor, Puts, guarded_put, Reads, byte_at, Puts-fits, written, put_bytes-written,
}
use cosimus.Fmv.Floats.{F32, F64, f32_udp, udp_f32, f64_udp, udp_f64}

-- The bytes of a float from the least to the most significant, on a machine of either order.
abbrev pub f32_bits : Bool → F32 → List ℕ
f32_bits bigendian (v0, v1, v2, v3) =
    if bigendian then v3 ∷ v2 ∷ v1 ∷ v0 ∷ [] else v0 ∷ v1 ∷ v2 ∷ v3 ∷ []

abbrev pub f64_bits : Bool → F64 → List ℕ
f64_bits bigendian (v0, v1, v2, v3, v4, v5, v6, v7) =
    if bigendian
    then v7 ∷ v6 ∷ v5 ∷ v4 ∷ v3 ∷ v2 ∷ v1 ∷ v0 ∷ []
    else v0 ∷ v1 ∷ v2 ∷ v3 ∷ v4 ∷ v5 ∷ v6 ∷ v7 ∷ []

-- The float with the same bits on the machine of the other order.
abbrev pub f32_swap : F32 → F32
f32_swap (v0, v1, v2, v3) = (v3, v2, v1, v0)

abbrev pub f64_swap : F64 → F64
f64_swap (v0, v1, v2, v3, v4, v5, v6, v7) = (v7, v6, v5, v4, v3, v2, v1, v0)

-- A float of the machine `a`, as the machine `b` keeps it.
abbrev pub f32_moved : Bool → Bool → F32 → F32
f32_moved true true v = v
f32_moved false false v = v
f32_moved _ _ v = f32_swap v

abbrev pub f64_moved : Bool → Bool → F64 → F64
f64_moved true true v = v
f64_moved false false v = v
f64_moved _ _ v = f64_swap v

pub f32_udp-Puts :
    (be : Bool) (v : F32) (c : Cursor) (datasz : ℕ)
    → datasz ≤ length c.mem
    → Puts (f32_udp be v c datasz) (ltb (c.pos + 4) datasz) c (f32_bits be v)
unfolding f32_udp
f32_udp-Puts true v c datasz h = ground (arith, put_bytes-written c (f32_bits true v))
f32_udp-Puts false v c datasz h = ground (arith, put_bytes-written c (f32_bits false v))

pub f64_udp-Puts :
    (be : Bool) (v : F64) (c : Cursor) (datasz : ℕ)
    → datasz ≤ length c.mem
    → Puts (f64_udp be v c datasz) (ltb (c.pos + 8) datasz) c (f64_bits be v)
unfolding f64_udp
f64_udp-Puts true v c datasz h = guarded_put c _ _ 8 datasz h (omega arith) refl
f64_udp-Puts false v c datasz h = guarded_put c _ _ 8 datasz h (omega arith) refl

-- Reading four bytes, or eight, behind a write of them.
module _ (be : Bool) (c : Cursor) where
  four_read :
      (b0 b1 b2 b3 : ℕ)
      → c.pos + 4 ≤ length c.mem
      → Reads
          (udp_f32 be)
          c
          (b0 ∷ b1 ∷ b2 ∷ b3 ∷ [])
          (if be then (b3, b2, b1, b0) else (b0, b1, b2, b3))
  unfolding udp_f32
  four_read b0 b1 b2 b3 h =
      let at = byte_at c (b0 ∷ b1 ∷ b2 ∷ b3 ∷ []) h in
      rw (at 0 (omega arith), at 1 (omega arith), at 2 (omega arith), at 3 (omega arith))

  eight_read :
      (b0 b1 b2 b3 b4 b5 b6 b7 : ℕ)
      → c.pos + 8 ≤ length c.mem
      → Reads
          (udp_f64 be)
          c
          (b0 ∷ b1 ∷ b2 ∷ b3 ∷ b4 ∷ b5 ∷ b6 ∷ b7 ∷ [])
          (if be then (b7, b6, b5, b4, b3, b2, b1, b0) else (b0, b1, b2, b3, b4, b5, b6, b7))
  unfolding udp_f64
  eight_read b0 b1 b2 b3 b4 b5 b6 b7 h =
      let at = byte_at c (b0 ∷ b1 ∷ b2 ∷ b3 ∷ b4 ∷ b5 ∷ b6 ∷ b7 ∷ []) h in
      rw (
        at 0 (omega arith),
        at 1 (omega arith),
        at 2 (omega arith),
        at 3 (omega arith),
        at 4 (omega arith),
        at 5 (omega arith),
        at 6 (omega arith),
        at 7 (omega arith),
      )

pub f32_read :
    (a b : Bool) (v : F32) (c : Cursor)
    → c.pos + 4 ≤ length c.mem
    → Reads (udp_f32 b) c (f32_bits a v) (f32_moved a b v)
f32_read true true (v0, v1, v2, v3) c h = four_read true c v3 v2 v1 v0 h
f32_read true false (v0, v1, v2, v3) c h = four_read false c v3 v2 v1 v0 h
f32_read false true (v0, v1, v2, v3) c h = four_read true c v0 v1 v2 v3 h
f32_read false false (v0, v1, v2, v3) c h = four_read false c v0 v1 v2 v3 h

pub f64_read :
    (a b : Bool) (v : F64) (c : Cursor)
    → c.pos + 8 ≤ length c.mem
    → Reads (udp_f64 b) c (f64_bits a v) (f64_moved a b v)
f64_read true true (v0, v1, v2, v3, v4, v5, v6, v7) c h =
    eight_read true c v7 v6 v5 v4 v3 v2 v1 v0 h
f64_read true false (v0, v1, v2, v3, v4, v5, v6, v7) c h =
    eight_read false c v7 v6 v5 v4 v3 v2 v1 v0 h
f64_read false true (v0, v1, v2, v3, v4, v5, v6, v7) c h =
    eight_read true c v0 v1 v2 v3 v4 v5 v6 v7 h
f64_read false false (v0, v1, v2, v3, v4, v5, v6, v7) c h =
    eight_read false c v0 v1 v2 v3 v4 v5 v6 v7 h

-- Where they fit, `F32_UDP` and `F64_UDP` put the bits of a float least significant byte first,
-- whatever the order of bytes on the writing machine, and `UDP_F32` and `UDP_F64` on a machine
-- of either order read a float with the same bits.
pub float_round_trip :
    (a b : Bool) (v : F32) (w : F64) (c : Cursor) (datasz : ℕ)
    → datasz ≤ length c.mem
    → c.pos + 8 < datasz
    → (f32_udp a v c datasz ≡ some (pos 0, written c (f32_bits a v)))
      × Reads (udp_f32 b) c (f32_bits a v) (f32_moved a b v)
      × (f32_bits b (f32_moved a b v) ≡ f32_bits a v)
      × (f64_udp a w c datasz ≡ some (pos 0, written c (f64_bits a w)))
      × Reads (udp_f64 b) c (f64_bits a w) (f64_moved a b w)
      × (f64_bits b (f64_moved a b w) ≡ f64_bits a w)
float_round_trip a b v w c datasz room fits = (
  Puts-fits c _ (f32_udp-Puts a v c datasz room) (lt→ltb _ _ (omega arith)),
  f32_read a b v c (omega arith),
  ground arith,
  Puts-fits c _ (f64_udp-Puts a w c datasz room) (lt→ltb _ _ fits),
  f64_read a b w c (omega arith),
  ground arith,
)
