-- ===== src/Fmv/Header/Flags.antt =====
-- The flags are independent bits of byte 0.
use cosimus.Base.{
  ℕ, ◌<◌, ◌≡◌, refl, ◌∙◌, ap, Bool, true, false, not, ◌&&◌, Option, some, List, ◌∷◌, u8, bit_and,
  bit_or, bit_xor, ◌==◌, ==_iff, if◌then◌else◌, check_below, check_below_sound, arith, poke_head,
}
use cosimus.Fmv.Header.{
  appended_acks, reliable, zerocoded, is_zero_coded, set_zero_coded, is_reliable, set_reliable,
  has_acks, set_has_acks, test_flag, set_flag,
}

-- The flags byte after `val` was set at `flag`.
abbrev pub flagged : ℕ → Bool → ℕ → ℕ
flagged flag val b = if val then bit_or b flag else bit_and b (bit_xor flag 0xFF)

-- Two truth values are the same.
abbrev same : Bool → Bool → Bool
same true y = y
same false y = not y

same_sound : (x y : Bool) → same x y ≡ true → x ≡ y
same_sound true true e = refl
same_sound true false e = cc
same_sound false true e = cc
same_sound false false e = refl

bit_of : ℕ → ℕ → Bool
bit_of flag b = not (bit_and b flag == 0)

-- After a flag is set to `val`: it reads `val`, another bit reads as before, and it is a byte.
checks : ℕ → ℕ → Bool → ℕ → Bool
unfolding bit_of
checks flag other val b =
    same (bit_of flag (flagged flag val b)) val
    && (same (bit_of other (flagged flag val b)) (bit_of other b)
        && (u8 (flagged flag val b) == flagged flag val b))

and_parts : (x y z : Bool) → (x && (y && z)) ≡ true → (x ≡ true) × (y ≡ true) × (z ≡ true)
and_parts x y z e = ground arith

module _ (flag other : ℕ) (val : Bool) (b : ℕ) (byte : b < 256)
    (table : check_below 256 (checks flag other val) ≡ true) where
  flag_facts :
      (bit_of flag (flagged flag val b) ≡ val)
      × (bit_of other (flagged flag val b) ≡ bit_of other b)
      × (u8 (flagged flag val b) ≡ flagged flag val b)
  unfolding checks
  flag_facts =
      let (set, kept, fits) =
        and_parts _ _ _ (check_below_sound 256 (checks flag other val) b table byte) in
      (same_sound _ _ set, same_sound _ _ kept, (==_iff _ _).0 fits)

-- Setting a flag to `val`: the flag reads `val`, the other two flags and all other bytes are as
-- they were.
abbrev pub SetsOnly :
    (List ℕ → Bool → Option (List ℕ))
    → (List ℕ → Option Bool)
    → (List ℕ → Option Bool)
    → (List ℕ → Option Bool)
    → ℕ
    → List ℕ
    → Bool
    → Type 0
SetsOnly put test other1 other2 b rest val =
    (b' : ℕ) × (put (b ∷ rest) val ≡ some (b' ∷ rest))
    × (test (b' ∷ rest) ≡ some val)
    × (other1 (b' ∷ rest) ≡ other1 (b ∷ rest))
    × (other2 (b' ∷ rest) ≡ other2 (b ∷ rest))

module _ (flag other1 other2 b : ℕ) (rest : List ℕ) (byte : b < 256) (val : Bool)
    (table1 : check_below 256 (checks flag other1 val) ≡ true)
    (table2 : check_below 256 (checks flag other2 val) ≡ true) where
  set_flag-SetsOnly :
      SetsOnly (set_flag flag) (test_flag flag) (test_flag other1) (test_flag other2) b rest val
  unfolding bit_of
  set_flag-SetsOnly =
      let (set, kept1, fits) = flag_facts flag other1 val b byte table1 in
      let (_, kept2, _) = flag_facts flag other2 val b byte table2 in
      (
        flagged flag val b,
        poke_head b _ rest ∙ ap (λ t. some (t ∷ rest)) fits,
        ap some set,
        ap some kept1,
        ap some kept2,
      )

-- `SetReliable`, `SetZeroCoded` and `SetHasAcks` on a packet whose first byte is `b`: each sets its
-- own flag to the value it is given, as its test reads it, and leaves the two other flags and every
-- other byte as they were.
pub flags_independent :
    (b : ℕ) (rest : List ℕ) (val : Bool)
    → b < 256
    → SetsOnly set_reliable is_reliable is_zero_coded has_acks b rest val
      × SetsOnly set_zero_coded is_zero_coded is_reliable has_acks b rest val
      × SetsOnly set_has_acks has_acks is_reliable is_zero_coded b rest val
unfolding set_reliable is_reliable is_zero_coded has_acks set_zero_coded set_has_acks checks
    check_below bit_of
flags_independent b rest true h = (
  set_flag-SetsOnly reliable zerocoded appended_acks b rest h true refl refl,
  set_flag-SetsOnly zerocoded reliable appended_acks b rest h true refl refl,
  set_flag-SetsOnly appended_acks reliable zerocoded b rest h true refl refl,
)
flags_independent b rest false h = (
  set_flag-SetsOnly reliable zerocoded appended_acks b rest h false refl refl,
  set_flag-SetsOnly zerocoded reliable appended_acks b rest h false refl refl,
  set_flag-SetsOnly appended_acks reliable zerocoded b rest h false refl refl,
)
