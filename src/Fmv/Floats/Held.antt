-- ===== src/Fmv/Floats/Held.antt =====
-- Floats of fmv_src/sta_fmv.c read from wherever their bytes stand.
use cosimus.Base.{
  ℕ, ◌+◌, ◌<◌, ◌≡◌, refl, ap, ◌∙◌, Bool, true, false, some, List, [], ◌∷◌, ◌++◌, length,
  length-append, get_elem?, get_elem?-append, get_elem?-append_right, arith, if◌then◌else◌,
}
use cosimus.Fmv.Floats.{F32, F64, udp_f32, udp_f64}
use cosimus.Fmv.Floats.Laws.{f32_bits, f64_bits, f32_moved, f64_moved}

-- The bytes `bs` stand at `p`.
abbrev pub Holds : List ℕ → ℕ → List ℕ → Type 0
Holds m p bs = (j : ℕ) → j < length bs → get_elem? m (p + j) ≡ get_elem? bs j

pub Holds-first : (m : List ℕ) (p : ℕ) (us vs : List ℕ) → Holds m p (us ++ vs) → Holds m p us
Holds-first m p us vs held j h =
    held j (omega (arith, length-append us vs)) ∙ get_elem?-append us vs j h

pub Holds-rest :
    (m : List ℕ) (p : ℕ) (us vs : List ℕ) → Holds m p (us ++ vs) → Holds m (p + length us) vs
Holds-rest m p us vs held j h =
    ap (get_elem? m) (omega arith)
    ∙ held (length us + j) (omega (arith, length-append us vs))
    ∙ get_elem?-append_right us vs j

module _ (be : Bool) (m : List ℕ) (p : ℕ) where
  four_held :
      (b0 b1 b2 b3 : ℕ)
      → Holds m p (b0 ∷ b1 ∷ b2 ∷ b3 ∷ [])
      → udp_f32 be true (record { mem = m; pos = p })
        ≡ some (
          some (if be then (b3, b2, b1, b0) else (b0, b1, b2, b3)),
          record { mem = m; pos = p + 4 },
        )
  unfolding udp_f32
  four_held b0 b1 b2 b3 h =
      rw (h 0 (omega arith), h 1 (omega arith), h 2 (omega arith), h 3 (omega arith)) refl

  eight_held :
      (b0 b1 b2 b3 b4 b5 b6 b7 : ℕ)
      → Holds m p (b0 ∷ b1 ∷ b2 ∷ b3 ∷ b4 ∷ b5 ∷ b6 ∷ b7 ∷ [])
      → udp_f64 be true (record { mem = m; pos = p })
        ≡ some (
          some (if be then (b7, b6, b5, b4, b3, b2, b1, b0) else (b0, b1, b2, b3, b4, b5, b6, b7)),
          record { mem = m; pos = p + 8 },
        )
  unfolding udp_f64
  eight_held b0 b1 b2 b3 b4 b5 b6 b7 h =
      rw
        (
          h 0 (omega arith),
          h 1 (omega arith),
          h 2 (omega arith),
          h 3 (omega arith),
          h 4 (omega arith),
          h 5 (omega arith),
          h 6 (omega arith),
          h 7 (omega arith),
        )
        refl

pub f32_held :
    (a b : Bool) (v : F32) (m : List ℕ) (p : ℕ)
    → Holds m p (f32_bits a v)
    → udp_f32 b true (record { mem = m; pos = p })
      ≡ some (some (f32_moved a b v), record { mem = m; pos = p + 4 })
f32_held true true (v0, v1, v2, v3) m p h = four_held true m p v3 v2 v1 v0 h
f32_held true false (v0, v1, v2, v3) m p h = four_held false m p v3 v2 v1 v0 h
f32_held false true (v0, v1, v2, v3) m p h = four_held true m p v0 v1 v2 v3 h
f32_held false false (v0, v1, v2, v3) m p h = four_held false m p v0 v1 v2 v3 h

pub f64_held :
    (a b : Bool) (v : F64) (m : List ℕ) (p : ℕ)
    → Holds m p (f64_bits a v)
    → udp_f64 b true (record { mem = m; pos = p })
      ≡ some (some (f64_moved a b v), record { mem = m; pos = p + 8 })
f64_held true true (v0, v1, v2, v3, v4, v5, v6, v7) m p h =
    eight_held true m p v7 v6 v5 v4 v3 v2 v1 v0 h
f64_held true false (v0, v1, v2, v3, v4, v5, v6, v7) m p h =
    eight_held false m p v7 v6 v5 v4 v3 v2 v1 v0 h
f64_held false true (v0, v1, v2, v3, v4, v5, v6, v7) m p h =
    eight_held true m p v0 v1 v2 v3 v4 v5 v6 v7 h
f64_held false false (v0, v1, v2, v3, v4, v5, v6, v7) m p h =
    eight_held false m p v0 v1 v2 v3 v4 v5 v6 v7 h
