-- ===== src/Base/Memory.antt =====
-- A C array as a list: reads and writes that fault out of bounds, and runs of consecutive writes.
use Prim.Native.Nat.add
use mathlib.Core.Logic.{◌⊎◌}
use Prim.Native.Nat.{ℕ, zero, suc, ◌+◌, ◌≤◌, ◌<◌}
use mathlib.Core.Path.{◌≡◌, refl, sym, ap, ◌∙◌}
use mathlib.Core.List.{List, [], ◌∷◌, ◌++◌}
use mathlib.Core.Option.{Option, none, some}
use native.Mathlib.Omega.{arith}
use cosimus.Base.Tests.{ltb, lt→ltb, if◌then◌else◌, ◌>>=◌}
use cosimus.Base.Lists.{take-append_le, length, get_elem?, set, take, drop, length-set}

module _ {ℓ} {A : Type ℓ} where
  -- `m[i]`
  abbrev pub peek : List A → ℕ → Option A
  peek m i = get_elem? m i

  -- `m[i] = v`
  abbrev pub poke : List A → ℕ → A → Option (List A)
  poke m i v = if ltb i (length m) then some (set m i v) else none

  -- `m[i + 0] = v0; m[i + 1] = v1; …`
  unfoldable pub poke_all : List A → ℕ → List A → Option (List A)
  poke_all m i [] = some m
  poke_all m i (v ∷ vs) = poke m i v >>= λ m'. poke_all m' (suc i) vs

  -- The `n` values that stand from `i` on, as `memcpy` reads them.
  unfoldable pub peek_all : List A → ℕ → ℕ → Option (List A)
  peek_all m i zero = some []
  peek_all m i (suc n) = peek m i >>= λ v. peek_all m (suc i) n >>= λ vs. some (v ∷ vs)

  -- The array after the values `vs` were written from `i` on.
  unfoldable pub overwrite : List A → ℕ → List A → List A
  overwrite [] i vs = []
  overwrite (x ∷ xs) zero [] = x ∷ xs
  overwrite (x ∷ xs) zero (v ∷ vs) = v ∷ overwrite xs zero vs
  overwrite (x ∷ xs) (suc i) vs = x ∷ overwrite xs i vs

module _ {ℓ} {A : Type ℓ} where
  pub length-overwrite : (m : List A) (i : ℕ) (vs : List A) → length (overwrite m i vs) ≡ length m
  unfolding overwrite
  length-overwrite [] i vs = refl
  length-overwrite (x ∷ xs) zero [] = refl
  length-overwrite (x ∷ xs) zero (v ∷ vs) = ap suc (length-overwrite xs zero vs)
  length-overwrite (x ∷ xs) (suc i) vs = ap suc (length-overwrite xs i vs)

  pub overwrite-nil : (m : List A) (i : ℕ) → overwrite m i [] ≡ m
  unfolding overwrite
  overwrite-nil [] i = refl
  overwrite-nil (x ∷ xs) zero = refl
  overwrite-nil (x ∷ xs) (suc i) = ap (λ t. x ∷ t) (overwrite-nil xs i)

  overwrite-set :
      (m : List A) (i : ℕ) (v : A) (vs : List A)
      → overwrite (set m i v) (suc i) vs ≡ overwrite m i (v ∷ vs)
  unfolding overwrite
  overwrite-set [] i v vs = refl
  overwrite-set (x ∷ xs) zero v vs = refl
  overwrite-set (x ∷ xs) (suc i) v vs = ap (λ t. x ∷ t) (overwrite-set xs i v vs)

  -- A run of writes inside the array succeeds, and replaces just that stretch.
  pub poke_all-overwrite :
      (m : List A) (i : ℕ) (vs : List A)
      → i + length vs ≤ length m
      → poke_all m i vs ≡ some (overwrite m i vs)
  unfolding poke_all
  poke_all-overwrite m i [] h = ap some (sym (overwrite-nil m i))
  poke_all-overwrite m i (v ∷ vs) h = rw (lt→ltb i (length m) (omega arith)) (
      poke_all-overwrite (set m i v) (suc i) vs (rw length-set (omega arith))
      ∙ ap some (overwrite-set m i v vs))

  -- A read inside the stretch that was written.
  pub peek-overwrite :
      (m : List A) (i : ℕ) (vs : List A) (k : ℕ)
      → k < length vs
      → i + length vs ≤ length m
      → get_elem? (overwrite m i vs) (i + k) ≡ get_elem? vs k
  unfolding overwrite
  peek-overwrite [] i vs k h g = absurd (omega arith)
  peek-overwrite (x ∷ xs) zero [] k h g = absurd (omega arith)
  peek-overwrite (x ∷ xs) zero (v ∷ vs) zero h g = refl
  peek-overwrite (x ∷ xs) zero (v ∷ vs) (suc k) h g =
      rw add.zero (rw add.zero at (peek-overwrite xs zero vs k (omega arith) (omega arith)))
  peek-overwrite (x ∷ xs) (suc i) vs k h g = rw add.suc (peek-overwrite xs i vs k h (omega arith))

  peek_all-suc : (x : A) (m : List A) (i n : ℕ) → peek_all (x ∷ m) (suc i) n ≡ peek_all m i n
  unfolding peek_all
  peek_all-suc x m i zero = refl
  peek_all-suc x m i (suc n) = rw (peek_all-suc x m (suc i) n)

  pub peek_all-overwrite :
      (m : List A) (i : ℕ) (vs : List A)
      → i + length vs ≤ length m
      → peek_all (overwrite m i vs) i (length vs) ≡ some vs
  unfolding overwrite peek_all
  peek_all-overwrite m i [] h = refl
  peek_all-overwrite [] i (v ∷ vs) h = absurd (omega arith)
  peek_all-overwrite (x ∷ xs) zero (v ∷ vs) h = rw (
    peek_all-suc v (overwrite xs zero vs) zero (length vs),
    peek_all-overwrite xs zero vs (omega arith),
  )
  peek_all-overwrite (x ∷ xs) (suc i) (v ∷ vs) h =
      peek_all-suc x (overwrite xs i (v ∷ vs)) i (suc (length vs))
      ∙ peek_all-overwrite xs i (v ∷ vs) (omega arith)

  -- Writes elsewhere are not seen.
  pub peek-overwrite_outside :
      (m : List A) (i : ℕ) (vs : List A) (j : ℕ)
      → (j < i) ⊎ (i + length vs ≤ j)
      → get_elem? (overwrite m i vs) j ≡ get_elem? m j
  unfolding overwrite
  peek-overwrite_outside [] i vs j h = refl
  peek-overwrite_outside (x ∷ xs) zero [] j h = refl
  peek-overwrite_outside (x ∷ xs) zero (v ∷ vs) zero h = absurd (omega arith)
  peek-overwrite_outside (x ∷ xs) zero (v ∷ vs) (suc j) h =
      peek-overwrite_outside xs zero vs j (omega arith)
  peek-overwrite_outside (x ∷ xs) (suc i) vs zero h = refl
  peek-overwrite_outside (x ∷ xs) (suc i) vs (suc j) h =
      peek-overwrite_outside xs i vs j (omega arith)

  -- Appending at the writing position: the stretch in front grows by what is written.
  pub take-overwrite :
      (m : List A) (i : ℕ) (vs : List A)
      → i + length vs ≤ length m
      → take (i + length vs) (overwrite m i vs) ≡ take i m ++ vs
  unfolding overwrite
  take-overwrite [] zero [] h = refl
  take-overwrite [] (suc i) vs h = absurd (omega arith)
  take-overwrite [] zero (v ∷ vs) h = absurd (omega arith)
  take-overwrite (x ∷ xs) zero [] h = refl
  take-overwrite (x ∷ xs) zero (v ∷ vs) h =
      rw add.zero (ap (λ t. v ∷ t) (rw add.zero at (take-overwrite xs zero vs (omega arith))))
  take-overwrite (x ∷ xs) (suc i) vs h =
      rw add.suc (ap (λ t. x ∷ t) (take-overwrite xs i vs (omega arith)))

  pub take-set :
      (m : List A) (i : ℕ) (v : A) → i < length m → take (suc i) (set m i v) ≡ take i m ++ v ∷ []
  take-set [] i v h = absurd (omega arith)
  take-set (x ∷ xs) zero v h = refl
  take-set (x ∷ xs) (suc i) v h = ap (λ t. x ∷ t) (take-set xs i v (omega arith))

  -- `memcpy` from the front of an array.
  pub peek_all-take : (m : List A) (n : ℕ) → n ≤ length m → peek_all m 0 n ≡ some (take n m)
  unfolding peek_all
  peek_all-take m zero h = refl
  peek_all-take [] (suc n) h = absurd (omega arith)
  peek_all-take (x ∷ xs) (suc n) h = rw (peek_all-suc x xs zero n, peek_all-take xs n (omega arith))

  -- … and from further on.
  pub peek_all-drop :
      (m : List A) (i n : ℕ) → i + n ≤ length m → peek_all m i n ≡ some (take n (drop i m))
  peek_all-drop m zero n h = peek_all-take m n (omega arith)
  peek_all-drop [] (suc i) zero h = unfold peek_all in refl
  peek_all-drop [] (suc i) (suc n) h = absurd (omega arith)
  peek_all-drop (x ∷ xs) (suc i) n h = peek_all-suc x xs i n ∙ peek_all-drop xs i n (omega arith)

  pub overwrite-all : (m vs : List A) → length m ≡ length vs → overwrite m 0 vs ≡ vs
  unfolding overwrite
  overwrite-all [] [] h = refl
  overwrite-all [] (v ∷ vs) h = absurd (omega arith)
  overwrite-all (x ∷ xs) [] h = absurd (omega arith)
  overwrite-all (x ∷ xs) (v ∷ vs) h = ap (λ t. v ∷ t) (overwrite-all xs vs (omega arith))

  pub overwrite-front :
      (m vs : List A) → length vs ≤ length m → overwrite m 0 vs ≡ vs ++ drop (length vs) m
  unfolding overwrite
  overwrite-front [] [] h = refl
  overwrite-front [] (v ∷ vs) h = absurd (omega arith)
  overwrite-front (x ∷ xs) [] h = refl
  overwrite-front (x ∷ xs) (v ∷ vs) h = ap (λ t. v ∷ t) (overwrite-front xs vs (omega arith))

  pub poke_head : (x v : A) (xs : List A) → poke (x ∷ xs) 0 v ≡ some (v ∷ xs)
  poke_head x v xs = rw (lt→ltb 0 (length (x ∷ xs)) (omega arith))

  -- Two runs of writes one behind the other.
  pub overwrite-overwrite :
      (m : List A) (i : ℕ) (us vs : List A)
      → overwrite (overwrite m i us) (i + length us) vs ≡ overwrite m i (us ++ vs)
  unfolding overwrite
  overwrite-overwrite [] i us vs = refl
  overwrite-overwrite (x ∷ xs) zero [] vs = refl
  overwrite-overwrite (x ∷ xs) zero (u ∷ us) vs =
      rw add.zero (ap (λ t. u ∷ t) (rw add.zero at (overwrite-overwrite xs zero us vs)))
  overwrite-overwrite (x ∷ xs) (suc i) us vs =
      rw add.suc (ap (λ t. x ∷ t) (overwrite-overwrite xs i us vs))

  pub drop-overwrite :
      (m : List A) (i : ℕ) (vs : List A)
      → i + length vs ≤ length m
      → drop i (overwrite m i vs) ≡ vs ++ drop (length vs) (drop i m)
  unfolding overwrite
  drop-overwrite m zero vs h = overwrite-front m vs (omega arith)
  drop-overwrite [] (suc i) vs h = absurd (omega arith)
  drop-overwrite (x ∷ xs) (suc i) vs h = drop-overwrite xs i vs (omega arith)

  -- `memcpy` of the first `k` of the values that were written.
  pub peek_all-overwrite_part :
      (m : List A) (i k : ℕ) (vs : List A)
      → i + length vs ≤ length m
      → k ≤ length vs
      → peek_all (overwrite m i vs) i k ≡ some (take k vs)
  peek_all-overwrite_part m i k vs h l =
      peek_all-drop (overwrite m i vs) i k (rw length-overwrite (omega arith))
      ∙ ap (λ t. some (take k t)) (drop-overwrite m i vs h)
      ∙ ap some (take-append_le k vs (drop (length vs) (drop i m)) l)
