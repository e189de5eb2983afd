-- ===== src/BitPack/Stream.antt =====
-- The bits packed by pktsmv_src/pktsmv.c, as one number.
use native.Mathlib.Nat.{pow-succ'}
use cosimus.Base.{
  ℕ, zero, suc, ◌+◌, ◌-◌, ◌*◌, ◌/◌, ◌^◌, ◌<◌, ◌≡◌, refl, sym, ap, ◌∙◌, Bool, true, false, ◌&&◌,
  some, List, [], ◌∷◌, ◌++◌, length, length-set, peek, set, take, ltb, ltb→lt, ◌==◌, ==_iff,
  check_below, check_below_sound, arith,
}
use cosimus.Dbuf.{Dbuf}
use cosimus.BitPack.{put_bit}

abbrev pub bit_value : Bool → ℕ
bit_value true = 1
bit_value false = 0

-- The bits of the byte down to the one that is put, as a number; and the byte stays one.
checks : Bool → ℕ → ℕ → Bool
unfolding put_bit
checks x pos b =
    put_bit b pos x / 2 ^ (7 - pos) == 2 * (b / 2 ^ (8 - pos)) + bit_value x
    && ltb (put_bit b pos x) 256

table : (x : Bool) → check_below 8 (λ pos. check_below 256 (checks x pos)) ≡ true
unfolding checks check_below
table true = refl
table false = refl

and_parts : (a b : Bool) → (a && b) ≡ true → (a ≡ true) × (b ≡ true)
and_parts true true e = (refl, refl)
and_parts true false e = cc
and_parts false b e = cc

pub put_bit_facts :
    (x : Bool) (pos b : ℕ)
    → pos < 8
    → b < 256
    → (put_bit b pos x / 2 ^ (7 - pos) ≡ 2 * (b / 2 ^ (8 - pos)) + bit_value x)
      × (put_bit b pos x < 256)
unfolding checks
put_bit_facts x pos b hp hb =
    let row = check_below_sound 8 (λ p. check_below 256 (checks x p)) pos (table x) hp in
    let (e, l) = and_parts _ _ (check_below_sound 256 (checks x pos) b row hb) in
    ((==_iff _ _).0 e, ltb→lt _ _ l)

-- Bytes as one number, the first byte the highest, behind `v`.
abbrev pub number : ℕ → List ℕ → ℕ
number v [] = v
number v (b ∷ bs) = number (v * 256 + b) bs

pub number_snoc : (v : ℕ) (bs : List ℕ) (b : ℕ) → number v (bs ++ b ∷ []) ≡ number v bs * 256 + b
number_snoc v [] b = refl
number_snoc v (c ∷ bs) b = number_snoc (v * 256 + c) bs b

-- The buffer holds `n` bits, which are the number `v`.
pub record Packs (d : Dbuf) (n v : ℕ) : Type 0 where
  pub cur : ℕ
  pub at : peek d.buf d.dsize ≡ some cur
  pub byte : cur < 256
  pub pos : d.bitpos < 8
  pub sized : d.size ≡ length d.buf
  pub count : n ≡ 8 * d.dsize + d.bitpos
  pub value : v ≡ number 0 (take d.dsize d.buf) * 2 ^ d.bitpos + cur / 2 ^ (8 - d.bitpos)

pub take-set_same : (m : List ℕ) (i v : ℕ) → take i (set m i v) ≡ take i m
take-set_same [] i v = refl
take-set_same (x ∷ m) zero v = refl
take-set_same (x ∷ m) (suc i) v = ap (λ t. x ∷ t) (take-set_same m i v)

pub peek-below : (m : List ℕ) (i v : ℕ) → peek m i ≡ some v → i < length m
peek-below [] i v h = cc
peek-below (x ∷ m) zero v h = omega arith
peek-below (x ∷ m) (suc i) v h = omega (arith, peek-below m i v h)

pub peek-set : (m : List ℕ) (i v : ℕ) → i < length m → peek (set m i v) i ≡ some v
peek-set [] i v h = absurd (omega arith)
peek-set (x ∷ m) zero v h = refl
peek-set (x ∷ m) (suc i) v h = peek-set m i v (omega arith)

double : (a p c x : ℕ) → a * (2 * p) + (2 * c + x) ≡ 2 * (a * p + c) + x
double a p c x = grind arith

-- The number with one more bit.
more_bits :
    (a pos c b x : ℕ)
    → pos < 8
    → b / 2 ^ (7 - pos) ≡ 2 * (c / 2 ^ (8 - pos)) + x
    → a * 2 ^ (pos + 1) + b / 2 ^ (8 - (pos + 1)) ≡ 2 * (a * 2 ^ pos + c / 2 ^ (8 - pos)) + x
more_bits a pos c b x h e =
    let shift : 8 - (pos + 1) ≡ 7 - pos = omega arith in
    let power : 2 ^ (pos + 1) ≡ 2 * 2 ^ pos = ap (λ k. 2 ^ k) (omega arith) ∙ pow-succ' 2 pos in
    rw (shift, e, power) (double a (2 ^ pos) (c / 2 ^ (8 - pos)) x)

-- A bit within the byte.
pub inside_byte :
    (d : Dbuf) (n v b : ℕ) (x : Bool) (p : Packs d n v)
    → d.bitpos < 7
    → b / 2 ^ (7 - d.bitpos) ≡ 2 * (p.cur / 2 ^ (8 - d.bitpos)) + bit_value x
    → b < 256
    → Packs
        (record d { buf = set d.buf d.dsize b; bitpos = d.bitpos + 1 })
        (suc n)
        (2 * v + bit_value x)
inside_byte d n v b x p h e small = record {
  cur = b;
  at = peek-set d.buf d.dsize b (peek-below d.buf d.dsize p.cur p.at);
  byte = small;
  pos = omega arith;
  sized = p.sized ∙ sym (length-set d.buf d.dsize b);
  count = omega (arith, p.count);
  value =
      rw (take-set_same d.buf d.dsize b, p.value)
        (sym (
          more_bits (number 0 (take d.dsize d.buf)) d.bitpos p.cur b (bit_value x) (omega arith)
            e));
}
