-- ===== src/Http/Parse/Words.antt =====
-- Looking for words in a request of supp_src/lib_httpd.c: `strstr` and `strcpy` stay before its zero.
use cosimus.Base.{
  ℕ, zero, suc, ◌+◌, ◌-◌, ◌≤◌, ◌<◌, ◌≡◌, ◌≢◌, refl, sym, ap, ◌∙◌, inl, inr, Bool, true, false, some,
  List, [], ◌∷◌, length, take, peek, peek_all-take, poke_all-overwrite, overwrite-all,
  length-take_le, All, Bool-cases, ◌==◌, ==_iff, arith,
}
use mathlib.Core.Option.{some_inj}
use cosimus.Dbuf.Append.{strlen}
use cosimus.Http.{begins_with, has_text}
use cosimus.Http.Parse.{copied}

-- A word that matches ends before the zero.
pub begins_with-run :
    (m : List ℕ) (k : ℕ) (s : List ℕ) (z : ℕ)
    → k ≤ z
    → peek m z ≡ some 0
    → All (λ c. c ≢ 0) s
    → (b : Bool) × (begins_with m k s ≡ some b) × (b ≡ true → k + length s ≤ z)
unfolding begins_with
begins_with-run m k [] z h end word = (true, refl, λ e. omega arith)
begins_with-run m k (c ∷ s) z h end (ne, word) = elim (Bool-cases (k == z)) [
  | inl here ↦
      let at : peek m k ≡ some 0 = ap (peek m) ((==_iff k z).0 here) ∙ end in
      let other : (0 == c) ≡ false = ground arith in (false, rw (at, other) refl, λ e. absurd cc)
  | inr before ↦
      let (b, at) = peek_before m k z h end in
      let (rest, run, fits) = begins_with-run m (suc k) s z (ground arith) end word in
      elim (Bool-cases (b == c)) [
        | inl same ↦ (rest, rw (at, same) run, λ e. omega (arith, fits e))
        | inr other ↦ (false, rw (at, other) refl, λ e. absurd cc)
      ]
]
  where
    peek_before : (m : List ℕ) (k z : ℕ) → k ≤ z → peek m z ≡ some 0 → (b : ℕ) × (peek m k ≡ some b)
    peek_before [] k z h end = absurd cc
    peek_before (x ∷ m) zero z h end = (x, refl)
    peek_before (x ∷ m) (suc k) zero h end = absurd (omega arith)
    peek_before (x ∷ m) (suc k) (suc z) h end = peek_before m k z (omega arith) end

-- A word that is found has room before the zero.
pub has_text-run :
    (m s : List ℕ) (z : ℕ)
    → peek m z ≡ some 0
    → All (λ c. c ≢ 0) s
    → (b : Bool) × (has_text m s ≡ some b) × (b ≡ true → length s ≤ z)
unfolding has_text
has_text-run [] s z end word = absurd cc
has_text-run (c ∷ m) s z end word =
    let (here, run, fits) = begins_with-run (c ∷ m) 0 s z (omega arith) end word in
    elim (Bool-cases here) [
      | inl found ↦ (true, rw (run, found) refl, λ e. omega (arith, fits found))
      | inr not_here ↦ elim (Bool-cases (c == 0)) [
        | inl over ↦ (false, rw (run, not_here, over) refl, λ e. absurd cc)
        | inr goes_on ↦
            let (rest, ran, room) = has_text-run m s (z - 1) (tail z end goes_on) word in
            (rest, rw (run, not_here, goes_on) ran, λ e. omega (arith, room e))
      ]
    ]
  where
    tail : (z : ℕ) → peek (c ∷ m) z ≡ some 0 → (c == 0) ≡ false → peek m (z - 1) ≡ some 0
    tail zero e ne = absurd (differs (some_inj.0 e) ne)
      where
        differs : {x : ℕ} → x ≡ 0 → (x == 0) ≡ false → ⊥
        differs p q = ground arith
    tail (suc z) e ne = ap (peek m) (omega arith) ∙ e

-- A string without a zero in it, up to the zero at its end.
strlen-exact :
    (m : List ℕ) (z : ℕ) → All (λ c. c ≢ 0) (take z m) → peek m z ≡ some 0 → strlen m ≡ some z
unfolding strlen
strlen-exact [] z word end = absurd cc
strlen-exact (zero ∷ m) zero word end = refl
strlen-exact (suc c ∷ m) zero word end = absurd (omega (arith, some_inj.0 end))
strlen-exact (zero ∷ m) (suc z) (ne, word) end = absurd (ne refl)
strlen-exact (suc c ∷ m) (suc z) (ne, word) end = rw (strlen-exact m z word end) refl

-- `strcpy` of such a string into as much memory gives the string and its zero.
pub copied-run :
    (m stack : List ℕ) (z : ℕ)
    → All (λ c. c ≢ 0) (take z m)
    → peek m z ≡ some 0
    → z < length m
    → length stack ≡ z + 1
    → copied m stack ≡ some (take (z + 1) m)
unfolding copied
copied-run m stack z word end h size =
    let bytes = take (z + 1) m in
    let long : length bytes ≡ z + 1 = length-take_le (z + 1) m (omega arith) in
    rw (strlen-exact m z word end, peek_all-take m (z + 1) (omega arith))
      (poke_all-overwrite stack 0 bytes (omega arith)
        ∙ ap some (overwrite-all stack bytes (size ∙ sym long)))
