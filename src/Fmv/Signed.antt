-- ===== src/Fmv/Signed.antt =====
-- The signed fields of fmv_src/sta_fmv.c: S8, S16 and S32.
pub mod Laws
use cosimus.Base.{
  ℕ, ◌+◌, Option, none, some, List, [], ◌∷◌, ◌<<<◌, ltb, if◌then◌else◌, peek, ◌>>=◌, ℤ, rem_256,
  ◌>>ℤ◌, ℤ_to_u8, signed,
}
use cosimus.Fmv.Cursor.{Writer, Reader, fetch, refuse, put_bytes}

pub s8_udp : Writer ℤ
s8_udp val c datasz = if ltb c.pos datasz then put_bytes c (ℤ_to_u8 val ∷ []) else refuse c

pub udp_s8 : Reader ℤ
udp_s8 present c = fetch present (peek c.mem c.pos >>= λ b. some (signed 128 b)) c 1

pub s16_udp : Writer ℤ
s16_udp val c datasz =
    if ltb (c.pos + 2) datasz
    then put_bytes c (ℤ_to_u8 (rem_256 val) ∷ ℤ_to_u8 (rem_256 (val >>ℤ 8)) ∷ [])
    else refuse c

s16_at : List ℕ → ℕ → Option ℤ
s16_at m i = do b0 ← peek m (i + 0); b1 ← peek m (i + 1); some (signed 32768 (b0 + b1 <<< 8))

pub udp_s16 : Reader ℤ
unfolding s16_at
udp_s16 present c = fetch present (s16_at c.mem c.pos) c 2

pub s32_udp : Writer ℤ
s32_udp val c datasz =
    if ltb (c.pos + 4) datasz
    then put_bytes c (
        ℤ_to_u8 (rem_256 val)
        ∷ ℤ_to_u8 (rem_256 (val >>ℤ 8))
        ∷ ℤ_to_u8 (rem_256 (val >>ℤ 16))
        ∷ ℤ_to_u8 (rem_256 (val >>ℤ 24))
        ∷ [])
    else refuse c

s32_at : List ℕ → ℕ → Option ℤ
s32_at m i = do
  b0 ← peek m (i + 0)
  b1 ← peek m (i + 1)
  b2 ← peek m (i + 2)
  b3 ← peek m (i + 3)
  some (signed 2147483648 (b0 + b1 <<< 8 + b2 <<< 16 + b3 <<< 24))

pub udp_s32 : Reader ℤ
unfolding s32_at
udp_s32 present c = fetch present (s32_at c.mem c.pos) c 4
