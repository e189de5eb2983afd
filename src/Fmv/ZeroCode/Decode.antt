-- ===== src/Fmv/ZeroCode/Decode.antt =====
-- `ZeroDecodePacket` of fmv_src/sta_fmv.c writes what the code stands for, as long as its block
-- stays where it is.
use cosimus.Base.{
  ℕ, zero, suc, ◌≡◌, refl, ◌∙◌, Bool, true, false, Option, none, some, List, [], ◌∷◌, ◌++◌, length,
  replicate, drop, get_elem?_of_drop, drop-suc, ◌==◌, ◌>>=◌, arith, >>=_ext, >>=_assoc,
}
use cosimus.Fmv.ZeroCode.{Realloc, Unpacked, put, put_zeros, decode_byte, decode_loop}
use cosimus.Fmv.ZeroCode.RunLength.{decoded, is_code}

-- The bytes `bs` put one after the other.
unfoldable pub put_all : Realloc → ℕ → List ℕ → Unpacked → Option Unpacked
put_all realloc dest [] u = some u
put_all realloc dest (b ∷ bs) u = put realloc dest b u >>= put_all realloc dest bs

pub put_zeros-put_all :
    (realloc : Realloc) (dest n : ℕ) (xs : List ℕ) (u : Unpacked)
    → (put_zeros realloc dest n u >>= put_all realloc dest xs)
      ≡ put_all realloc dest (replicate n 0 ++ xs) u
unfolding put_zeros put_all
put_zeros-put_all realloc dest zero xs u = refl
put_zeros-put_all realloc dest (suc n) xs u =
    >>=_assoc (put realloc dest 0 u) (put_zeros realloc dest n) (put_all realloc dest xs)
    ∙ >>=_ext (put realloc dest 0 u) _ _ (put_zeros-put_all realloc dest n xs)

then_loop :
    (m : Option Unpacked) (skip : Bool) (loop : Bool × Unpacked → Option Unpacked)
    (g : Unpacked → Option Unpacked)
    → ((u : Unpacked) → loop (skip, u) ≡ g u)
    → ((m >>= λ u. some (skip, u)) >>= loop) ≡ (m >>= g)
then_loop none skip loop g h = refl
then_loop (some u) skip loop g h = h u

-- The loop puts what the code stands for.
pub decode_loop-put_all :
    (realloc : Realloc) (dest : ℕ) (xs tail src : List ℕ) (i : ℕ) (u : Unpacked)
    → drop i src ≡ xs ++ tail
    → is_code xs ≡ true
    → decode_loop realloc dest src (length xs) i (false, u) ≡ put_all realloc dest (decoded xs) u
unfolding decode_loop decode_byte put_all decoded is_code
decode_loop-put_all realloc dest [] tail src i u e c = refl
decode_loop-put_all realloc dest (zero ∷ []) tail src i u e c = cc
decode_loop-put_all realloc dest (zero ∷ n ∷ xs) tail src i u e c =
    let e' = drop-suc src i e in
    rw (get_elem?_of_drop src i e, get_elem?_of_drop src (suc i) e')
      (then_loop (put_zeros realloc dest n u) true _ (put_all realloc dest (decoded xs)) (λ u'.
          decode_loop-put_all realloc dest xs tail src (suc (suc i)) u' (drop-suc src (suc i) e') c)
        ∙ put_zeros-put_all realloc dest n (decoded xs) u)
decode_loop-put_all realloc dest (suc x ∷ xs) tail src i u e c =
    rw (get_elem?_of_drop src i e, other)
      (then_loop (put realloc dest (suc x) u) false _ (put_all realloc dest (decoded xs))
        (λ u'. decode_loop-put_all realloc dest xs tail src (suc i) u' (drop-suc src i e) c))
  where
    other : (suc x == 0) ≡ false
    other = ground arith
