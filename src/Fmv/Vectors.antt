-- ===== src/Fmv/Vectors.antt =====
-- The vector fields of fmv_src/sta_fmv.c: LLVector3, LLVector4 and LLVector3d.
pub mod Laws
use cosimus.Base.{
  ℕ, zero, suc, Bool, true, false, Option, none, some, List, [], ◌∷◌, ℤ, pos, negsuc, if◌then◌else◌,
  ◌>>=◌,
}
use cosimus.Fmv.Cursor.{Cursor, Writer, Reader}
use cosimus.Fmv.Floats.{F32, F64, f32_udp, udp_f32, f64_udp, udp_f64}

-- An `int` as a truth value.
abbrev pub is_true : ℤ → Bool
is_true (pos zero) = false
is_true _ = true

-- `out = out || X_UDP(v, data, i, datasz);` for one component after the other: when a component was
-- refused the others are not written.
unfoldable pub or_puts :
    {V : Type 0} → Writer V → ℕ → List V → Bool × Cursor → Option (Bool × Cursor)
or_puts write datasz [] state = some state
or_puts write datasz (v ∷ vs) (true, c) = or_puts write datasz vs (true, c)
or_puts write datasz (v ∷ vs) (false, c) =
    write v c datasz >>= λ (rc, c'). or_puts write datasz vs (is_true rc, c')

-- `int out = 0; …; return out;`
unfoldable pub put_vector : {V : Type 0} → Writer V → List V → Cursor → ℕ → Option (ℤ × Cursor)
put_vector write vs c datasz =
    or_puts write datasz vs (false, c) >>= λ (out, c'). some (if out then pos 1 else pos 0, c')

-- The components one after the other, each with whether its pointer is not NULL.
unfoldable pub get_vector :
    {V : Type 0} → Reader V → List Bool → Cursor → Option (List (Option V) × Cursor)
get_vector read [] c = some ([], c)
get_vector read (present ∷ ps) c =
    read present c >>= λ (v, c'). get_vector read ps c' >>= λ (vs, c''). some (v ∷ vs, c'')

unfoldable pub ll_vector3_udp : Bool → Writer (F32 × F32 × F32)
ll_vector3_udp be (x, y, z) c datasz = put_vector (f32_udp be) (x ∷ y ∷ z ∷ []) c datasz

unfoldable pub udp_ll_vector3 :
    Bool → Bool × Bool × Bool → Cursor → Option (List (Option F32) × Cursor)
udp_ll_vector3 be (x, y, z) c = get_vector (udp_f32 be) (x ∷ y ∷ z ∷ []) c

unfoldable pub ll_vector4_udp : Bool → Writer (F32 × F32 × F32 × F32)
ll_vector4_udp be (x, y, z, s) c datasz = put_vector (f32_udp be) (x ∷ y ∷ z ∷ s ∷ []) c datasz

unfoldable pub udp_ll_vector4 :
    Bool → Bool × Bool × Bool × Bool → Cursor → Option (List (Option F32) × Cursor)
udp_ll_vector4 be (x, y, z, s) c = get_vector (udp_f32 be) (x ∷ y ∷ z ∷ s ∷ []) c

unfoldable pub ll_vector3d_udp : Bool → Writer (F64 × F64 × F64)
ll_vector3d_udp be (x, y, z) c datasz = put_vector (f64_udp be) (x ∷ y ∷ z ∷ []) c datasz

unfoldable pub udp_ll_vector3d :
    Bool → Bool × Bool × Bool → Cursor → Option (List (Option F64) × Cursor)
udp_ll_vector3d be (x, y, z) c = get_vector (udp_f64 be) (x ∷ y ∷ z ∷ []) c
