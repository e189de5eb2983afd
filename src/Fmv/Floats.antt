-- ===== src/Fmv/Floats.antt =====
-- The float fields of fmv_src/sta_fmv.c, F32 and F64.
-- A float is the bytes that it occupies in memory, lowest address first: the code never looks at
-- its value. `bigendian` is what `is_bigendian()` answers on the machine.
pub mod Laws
pub mod Held
use cosimus.Base.{
  ℕ, zero, suc, ◌+◌, Bool, true, false, Option, none, some, List, [], ◌∷◌, ltb, leb, if◌then◌else◌,
  peek, ◌>>=◌, ℤ, pos, negsuc,
}
use cosimus.Fmv.Cursor.{Cursor, Writer, Reader, fetch, refuse, put_bytes}

abbrev pub F32 : Type 0
F32 = ℕ × ℕ × ℕ × ℕ

abbrev pub F64 : Type 0
F64 = ℕ × ℕ × ℕ × ℕ × ℕ × ℕ × ℕ × ℕ

pub f32_udp : Bool → Writer F32
f32_udp bigendian (v0, v1, v2, v3) c datasz =
    if leb datasz (c.pos + 4)
    then refuse c
    else put_bytes c (if bigendian then v3 ∷ v2 ∷ v1 ∷ v0 ∷ [] else v0 ∷ v1 ∷ v2 ∷ v3 ∷ [])

f32_at : Bool → List ℕ → ℕ → Option F32
f32_at bigendian m i = do
  b0 ← peek m (i + 0)
  b1 ← peek m (i + 1)
  b2 ← peek m (i + 2)
  b3 ← peek m (i + 3)
  some (if bigendian then (b3, b2, b1, b0) else (b0, b1, b2, b3))

pub udp_f32 : Bool → Reader F32
unfolding f32_at
udp_f32 bigendian present c = fetch present (f32_at bigendian c.mem c.pos) c 4

pub f64_udp : Bool → Writer F64
f64_udp bigendian (v0, v1, v2, v3, v4, v5, v6, v7) c datasz =
    if ltb (c.pos + 8) datasz
    then put_bytes c (
        if bigendian
        then v7 ∷ v6 ∷ v5 ∷ v4 ∷ v3 ∷ v2 ∷ v1 ∷ v0 ∷ []
        else v0 ∷ v1 ∷ v2 ∷ v3 ∷ v4 ∷ v5 ∷ v6 ∷ v7 ∷ [])
    else refuse c

f64_at : Bool → List ℕ → ℕ → Option F64
f64_at bigendian m i = do
  b0 ← peek m (i + 0)
  b1 ← peek m (i + 1)
  b2 ← peek m (i + 2)
  b3 ← peek m (i + 3)
  b4 ← peek m (i + 4)
  b5 ← peek m (i + 5)
  b6 ← peek m (i + 6)
  b7 ← peek m (i + 7)
  some (if bigendian then (b7, b6, b5, b4, b3, b2, b1, b0) else (b0, b1, b2, b3, b4, b5, b6, b7))

pub udp_f64 : Bool → Reader F64
unfolding f64_at
udp_f64 bigendian present c = fetch present (f64_at bigendian c.mem c.pos) c 8
