-- ===== src/Fmv/ZeroCode/RunLength.antt =====
-- Zero coding as functions on lists of bytes: the coding, its inverse, and that it is one.
use cosimus.Base.{
  ℕ, zero, suc, ◌≡◌, refl, ap, ◌∙◌, Bool, List, [], ◌∷◌, ◌++◌, replicate, ◌==◌, if◌then◌else◌,
  Bool-cases, ==_iff, true, false, inl, inr, sym,
}

-- A pending run of zeros.
abbrev pub run : ℕ → List ℕ
run zero = []
run (suc n) = 0 ∷ suc n ∷ []

-- The code of `xs` behind `z` pending zeros; a run of 255 is full.
unfoldable pub coded : ℕ → List ℕ → List ℕ
coded z [] = run z
coded z (zero ∷ xs) = if z == 255 then 0 ∷ 255 ∷ coded 1 xs else coded (suc z) xs
coded z (suc b ∷ xs) = run z ++ (suc b ∷ coded 0 xs)

-- Each zero stands for as many zeros as the byte behind it says.
unfoldable pub decoded : List ℕ → List ℕ
decoded [] = []
decoded (zero ∷ []) = []
decoded (zero ∷ n ∷ xs) = replicate n 0 ++ decoded xs
decoded (suc b ∷ xs) = suc b ∷ decoded xs

replicate-snoc : (n : ℕ) (xs : List ℕ) → replicate n 0 ++ (0 ∷ xs) ≡ 0 ∷ (replicate n 0 ++ xs)
replicate-snoc zero xs = refl
replicate-snoc (suc n) xs = ap (λ t. 0 ∷ t) (replicate-snoc n xs)

decoded-run : (z : ℕ) (xs : List ℕ) → decoded (run z ++ xs) ≡ replicate z 0 ++ decoded xs
unfolding decoded
decoded-run zero xs = refl
decoded-run (suc z) xs = refl

-- Decoding undoes coding.
pub decoded-coded : (z : ℕ) (xs : List ℕ) → decoded (coded z xs) ≡ replicate z 0 ++ xs
unfolding coded decoded
decoded-coded zero [] = refl
decoded-coded (suc z) [] = refl
decoded-coded z (zero ∷ xs) = elim (Bool-cases (z == 255)) [
  | inl full ↦
      rw (full, (==_iff z 255).0 full) (ap (λ t. replicate 255 0 ++ t) (decoded-coded 1 xs))
  | inr more ↦ rw more (decoded-coded (suc z) xs ∙ sym (replicate-snoc z xs))
]
decoded-coded z (suc b ∷ xs) =
    decoded-run z (suc b ∷ coded 0 xs) ∙ ap (λ t. replicate z 0 ++ (suc b ∷ t)) (decoded-coded 0 xs)

-- A code: no zero stands last without the length of its run.
unfoldable pub is_code : List ℕ → Bool
is_code [] = true
is_code (zero ∷ []) = false
is_code (zero ∷ n ∷ xs) = is_code xs
is_code (suc b ∷ xs) = is_code xs

is_code-run : (z : ℕ) (xs : List ℕ) → is_code (run z ++ xs) ≡ is_code xs
unfolding is_code
is_code-run zero xs = refl
is_code-run (suc z) xs = refl

pub is_code-coded : (z : ℕ) (xs : List ℕ) → is_code (coded z xs) ≡ true
unfolding coded is_code
is_code-coded zero [] = refl
is_code-coded (suc z) [] = refl
is_code-coded z (zero ∷ xs) = elim (Bool-cases (z == 255)) [
  | inl full ↦ rw full (is_code-coded 1 xs)
  | inr more ↦ rw more (is_code-coded (suc z) xs)
]
is_code-coded z (suc b ∷ xs) = is_code-run z (suc b ∷ coded 0 xs) ∙ is_code-coded 0 xs
