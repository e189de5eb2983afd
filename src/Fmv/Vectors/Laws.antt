-- ===== src/Fmv/Vectors/Laws.antt =====
-- What the vector fields of fmv_src/sta_fmv.c write, when they fit and when they do not, and that they
-- are read back.
use native.Mathlib.Nat.{mul-suc}
use cosimus.Base.{
  ℕ, ◌+◌, ◌*◌, ◌≤◌, ◌≡◌, refl, sym, ap, ap₂, ◌∙◌, Bool, true, false, some, List, [], ◌∷◌, ◌++◌, pos,
  ltb, if◌then◌else◌, length, length-append, length-overwrite, overwrite-nil, overwrite-overwrite,
  Bool-cases, inl, inr, arith, map, subst,
}
use cosimus.Fmv.Cursor.{Cursor, Writer, Reader, written, back_to, Puts, byte_at}
use cosimus.Fmv.Floats.{F32, F64, f32_udp, udp_f32, f64_udp, udp_f64}
use cosimus.Fmv.Floats.Laws.{f32_bits, f64_bits, f32_moved, f64_moved, f32_udp-Puts, f64_udp-Puts}
use cosimus.Fmv.Floats.Held.{Holds, Holds-first, Holds-rest, f32_held, f64_held}
use cosimus.Fmv.Vectors.{
  or_puts, put_vector, get_vector, ll_vector3_udp, udp_ll_vector3, ll_vector4_udp, udp_ll_vector4,
  ll_vector3d_udp, udp_ll_vector3d,
}

module _ {V : Type 0} (bits : V → List ℕ) (w datasz : ℕ) where
  -- Whether components of `w` bytes fit from `p` on, and the bytes of those that do.
  abbrev pub all_fit : ℕ → List V → Bool
  all_fit p [] = true
  all_fit p (v ∷ vs) = if ltb (p + w) datasz then all_fit (p + w) vs else false

  abbrev pub fitting : ℕ → List V → List ℕ
  fitting p [] = []
  fitting p (v ∷ vs) = if ltb (p + w) datasz then bits v ++ fitting (p + w) vs else []

written-written : (c : Cursor) (us vs : List ℕ) → written (written c us) vs ≡ written c (us ++ vs)
written-written c us vs =
    ap₂ (λ m p. record { mem = m; pos = p }) (overwrite-overwrite c.mem c.pos us vs)
      (omega (arith, length-append us vs))

written-nil : (c : Cursor) → written c [] ≡ c
written-nil c = ap₂ (λ m p. record { mem = m; pos = p }) (overwrite-nil c.mem c.pos) (omega arith)

or_puts-refused :
    {V : Type 0} (write : Writer V) (datasz : ℕ) (vs : List V) (c : Cursor)
    → or_puts write datasz vs (true, c) ≡ some (true, c)
unfolding or_puts
or_puts-refused write datasz [] c = refl
or_puts-refused write datasz (v ∷ vs) c = or_puts-refused write datasz vs c

-- A writer of `w` bytes that is guarded.
abbrev pub Guarded : {V : Type 0} → Writer V → (V → List ℕ) → ℕ → ℕ → Type 0
Guarded {V} write bits w datasz =
    (v : V) (c : Cursor)
    → datasz ≤ length c.mem
    → Puts (write v c datasz) (ltb (c.pos + w) datasz) c (bits v)

module _ {V : Type 0} (write : Writer V) (bits : V → List ℕ) (w datasz : ℕ)
    (guarded : Guarded write bits w datasz) (width : (v : V) → length (bits v) ≡ w) where
  or_puts-fitting :
      (vs : List V) (c : Cursor)
      → datasz ≤ length c.mem
      → or_puts write datasz vs (false, c)
        ≡ some (
          if all_fit bits w datasz c.pos vs then false else true,
          written c (fitting bits w datasz c.pos vs),
        )
  unfolding or_puts
  or_puts-fitting [] c room = ap (λ t. some (false, t)) (sym (written-nil c))
  or_puts-fitting (v ∷ vs) c room = elim (Bool-cases (ltb (c.pos + w) datasz)) [
    | inl fits ↦
        rw (guarded v c room, fits)
          (or_puts-fitting vs (written c (bits v)) (rw length-overwrite room)
            ∙ ap
                (λ k. some (
                  if all_fit bits w datasz (c.pos + k) vs then false else true,
                  written (written c (bits v)) (fitting bits w datasz (c.pos + k) vs),
                ))
                (width v)
            ∙ ap (λ t. some (if all_fit bits w datasz (c.pos + w) vs then false else true, t))
                (written-written c (bits v) (fitting bits w datasz (c.pos + w) vs)))
    | inr full ↦
        rw (guarded v c room, full)
          (or_puts-refused write datasz vs c ∙ ap (λ t. some (true, t)) (sym (written-nil c)))
  ]

  put_vector-fitting :
      (vs : List V) (c : Cursor)
      → datasz ≤ length c.mem
      → put_vector write vs c datasz
        ≡ some (
          if all_fit bits w datasz c.pos vs then pos 0 else pos 1,
          written c (fitting bits w datasz c.pos vs),
        )
  unfolding put_vector
  put_vector-fitting vs c room =
      rw (or_puts-fitting vs c room) (elim (Bool-cases (all_fit bits w datasz c.pos vs)) [
        | inl every ↦ rw every refl
        | inr some_not ↦ rw some_not refl
      ])

-- The bytes of all components.
abbrev pub all_bits : {V : Type 0} → (V → List ℕ) → List V → List ℕ
all_bits bits [] = []
all_bits bits (v ∷ vs) = bits v ++ all_bits bits vs

abbrev pub trues : {V : Type 0} → List V → List Bool
trues [] = []
trues (v ∷ vs) = true ∷ trues vs

get_vector-all :
    {V : Type 0} (read : Reader V) (bits : V → List ℕ) (w : ℕ) (moved : V → V) (m : List ℕ)
    → ((v : V) (p : ℕ)
        → Holds m p (bits v)
        → read true (record { mem = m; pos = p })
          ≡ some (some (moved v), record { mem = m; pos = p + w }))
    → ((v : V) → length (bits v) ≡ w)
    → (vs : List V) (p : ℕ) → Holds m p (all_bits bits vs)
    → get_vector read (trues vs) (record { mem = m; pos = p })
      ≡ some (map (λ v. some (moved v)) vs, record { mem = m; pos = p + length (all_bits bits vs) })
unfolding get_vector
get_vector-all read bits w moved m reads width [] p held =
    ap (λ k. some ([], record { mem = m; pos = k })) (omega arith)
get_vector-all read bits w moved m reads width (v ∷ vs) p held =
    let len = width v in
    let rest = Holds-rest m p (bits v) (all_bits bits vs) held in
    let next : p + length (bits v) ≡ p + w = omega (arith, len) in
    rw
      (
        reads v p (Holds-first m p (bits v) (all_bits bits vs) held),
        get_vector-all read bits w moved m reads width vs (p + w)
            (subst (λ k. Holds m k (all_bits bits vs)) next rest),
      )
      (ap (λ k. some (some (moved v) ∷ map (λ t. some (moved t)) vs, record { mem = m; pos = k }))
        (omega (arith, len, length-append (bits v) (all_bits bits vs))))

length-all_bits :
    {V : Type 0} (bits : V → List ℕ) (w : ℕ)
    → ((v : V) → length (bits v) ≡ w)
    → (vs : List V) → length (all_bits bits vs) ≡ w * length vs
length-all_bits bits w width [] = omega arith
length-all_bits bits w width (v ∷ vs) =
    length-append (bits v) (all_bits bits vs)
    ∙ rw (width v, length-all_bits bits w width vs) (omega (arith, mul-suc w (length vs)))

f32_width : (be : Bool) (v : F32) → length (f32_bits be v) ≡ 4
f32_width true v = refl
f32_width false v = refl

f64_width : (be : Bool) (v : F64) → length (f64_bits be v) ≡ 8
f64_width true v = refl
f64_width false v = refl

-- `LLVector3_UDP`, `LLVector4_UDP` and `LLVector3d_UDP` write the components that fit, up to the first
-- one that does not, and move behind them; they return 0 if all fit and otherwise 1, where the fields
-- of one number return -1.
pub vector_writers :
    (be : Bool) (x y z s : F32) (u v w : F64) (c : Cursor) (datasz : ℕ)
    → datasz ≤ length c.mem
    → (ll_vector3_udp be (x, y, z) c datasz
        ≡ some (
          if all_fit (f32_bits be) 4 datasz c.pos (x ∷ y ∷ z ∷ []) then pos 0 else pos 1,
          written c (fitting (f32_bits be) 4 datasz c.pos (x ∷ y ∷ z ∷ [])),
        ))
      × (ll_vector4_udp be (x, y, z, s) c datasz
          ≡ some (
            if all_fit (f32_bits be) 4 datasz c.pos (x ∷ y ∷ z ∷ s ∷ []) then pos 0 else pos 1,
            written c (fitting (f32_bits be) 4 datasz c.pos (x ∷ y ∷ z ∷ s ∷ [])),
          ))
      × (ll_vector3d_udp be (u, v, w) c datasz
          ≡ some (
            if all_fit (f64_bits be) 8 datasz c.pos (u ∷ v ∷ w ∷ []) then pos 0 else pos 1,
            written c (fitting (f64_bits be) 8 datasz c.pos (u ∷ v ∷ w ∷ [])),
          ))
unfolding ll_vector3_udp ll_vector4_udp ll_vector3d_udp
vector_writers be x y z s u v w c datasz room =
    let four = λ (vs : List F32).
      put_vector-fitting (f32_udp be) (f32_bits be) 4 datasz (λ t k r. f32_udp-Puts be t k datasz r)
        (f32_width be) vs c room in
    (
      four (x ∷ y ∷ z ∷ []),
      four (x ∷ y ∷ z ∷ s ∷ []),
      put_vector-fitting (f64_udp be) (f64_bits be) 8 datasz (λ t k r. f64_udp-Puts be t k datasz r)
          (f64_width be) (u ∷ v ∷ w ∷ []) c room,
    )

-- Where the bytes of a vector's components stand, written on a machine of either order, `UDP_LLVector3`,
-- `UDP_LLVector4` and `UDP_LLVector3d` on a machine of either order read the components with the same
-- bits, and stop behind them.
pub vector_readers :
    (a b : Bool) (x y z s : F32) (u v w : F64) (c : Cursor)
    → c.pos + 24 ≤ length c.mem
    → (udp_ll_vector3 b
          (true, true, true)
          (back_to c (written c (all_bits (f32_bits a) (x ∷ y ∷ z ∷ []))))
        ≡ some (
          map (λ t. some (f32_moved a b t)) (x ∷ y ∷ z ∷ []),
          written c (all_bits (f32_bits a) (x ∷ y ∷ z ∷ [])),
        ))
      × (udp_ll_vector4 b
            (true, true, true, true)
            (back_to c (written c (all_bits (f32_bits a) (x ∷ y ∷ z ∷ s ∷ []))))
          ≡ some (
            map (λ t. some (f32_moved a b t)) (x ∷ y ∷ z ∷ s ∷ []),
            written c (all_bits (f32_bits a) (x ∷ y ∷ z ∷ s ∷ [])),
          ))
      × (udp_ll_vector3d b
            (true, true, true)
            (back_to c (written c (all_bits (f64_bits a) (u ∷ v ∷ w ∷ []))))
          ≡ some (
            map (λ t. some (f64_moved a b t)) (u ∷ v ∷ w ∷ []),
            written c (all_bits (f64_bits a) (u ∷ v ∷ w ∷ [])),
          ))
unfolding udp_ll_vector3 udp_ll_vector4 udp_ll_vector3d
vector_readers a b x y z s u v w c room = (
  four (x ∷ y ∷ z ∷ []) (omega arith),
  four (x ∷ y ∷ z ∷ s ∷ []) (omega arith),
  eight (u ∷ v ∷ w ∷ []) (omega arith),
)
  where
    four :
        (vs : List F32)
        → length vs ≤ 4
        → get_vector (udp_f32 b) (trues vs) (back_to c (written c (all_bits (f32_bits a) vs)))
          ≡ some (map (λ t. some (f32_moved a b t)) vs, written c (all_bits (f32_bits a) vs))
    four vs few =
        get_vector-all (udp_f32 b) (f32_bits a) 4 (f32_moved a b) _
          (λ t p held. f32_held a b t _ p held) (f32_width a) vs c.pos
          (byte_at c (all_bits (f32_bits a) vs)
            (omega (arith, length-all_bits (f32_bits a) 4 (f32_width a) vs)))

    eight :
        (vs : List F64)
        → length vs ≤ 3
        → get_vector (udp_f64 b) (trues vs) (back_to c (written c (all_bits (f64_bits a) vs)))
          ≡ some (map (λ t. some (f64_moved a b t)) vs, written c (all_bits (f64_bits a) vs))
    eight vs few =
        get_vector-all (udp_f64 b) (f64_bits a) 8 (f64_moved a b) _
          (λ t p held. f64_held a b t _ p held) (f64_width a) vs c.pos
          (byte_at c (all_bits (f64_bits a) vs)
            (omega (arith, length-all_bits (f64_bits a) 8 (f64_width a) vs)))
