-- ===== src/BitPack/Write.antt =====
-- What the writers of pktsmv_src/pktsmv.c add to the bits of a buffer.
use native.Mathlib.Nat.{mod-lt, pow-succ'}
use cosimus.Base.{
  ℕ, zero, suc, ◌+◌, ◌-◌, ◌*◌, ◌/◌, ◌%◌, ◌^◌, ◌<◌, ◌≡◌, refl, sym, ap, subst, ◌∙◌, inl, inr, Bool,
  true, false, not, Option, some, List, [], ◌∷◌, ◌++◌, length, length-set, set, take, take-set, ltb,
  leb, lt→ltb, ltb→lt, ltb→le, ◌==◌, ==_iff, Bool-cases, if◌then◌else◌, IsByte, All, arith,
}
use cosimus.Dbuf.{Block, Dbuf}
use cosimus.BitPack.{
  put_bit, next_byte, dpack_bit, dpack_bits, dpack_rounds, dpack_n_bit, dpack_8bit, dpack_bit_array,
}
use cosimus.BitPack.Stream.{
  bit_value, put_bit_facts, number, number_snoc, Packs, take-set_same, peek-below, peek-set,
  inside_byte,
}

-- The last bit of a byte, when another byte lies in the block.
full_byte :
    (realloc : Dbuf → Option Block) (d : Dbuf) (n v b : ℕ) (x : Bool) (p : Packs d n v)
    → d.bitpos ≡ 7
    → d.dsize + 1 < d.size
    → b / 2 ^ (7 - d.bitpos) ≡ 2 * (p.cur / 2 ^ (8 - d.bitpos)) + bit_value x
    → (d' : Dbuf) × (next_byte realloc
          (record d { buf = set d.buf d.dsize b; bitpos = 0; dsize = d.dsize + 1 })
        ≡ some d')
      × Packs d' (suc n) (2 * v + bit_value x)
      × (d'.size ≡ d.size)
unfolding next_byte
full_byte realloc d n v b x p last room e =
    let m = set d.buf d.dsize b in
    let len = length-set d.buf d.dsize b in
    let m' = set m (d.dsize + 1) 0 in
    let inside : ltb (d.dsize + 1) (length m) ≡ true =
      lt→ltb _ _ (omega (arith, p.sized, len, room)) in
    let fits : leb d.size (d.dsize + 1) ≡ false = ground arith in
    let next : d.dsize + 1 ≡ suc d.dsize = omega arith in
    let bytes : take (d.dsize + 1) m' ≡ take d.dsize d.buf ++ b ∷ [] =
      take-set_same m (d.dsize + 1) 0
      ∙ ap (λ k. take k m) next
      ∙ take-set d.buf d.dsize b (peek-below d.buf d.dsize p.cur p.at) in
    let whole = number 0 (take d.dsize d.buf) in
    let value' : v ≡ whole * 2 ^ 7 + p.cur / 2 ^ 1 =
      p.value ∙ ap (λ k. whole * 2 ^ k + p.cur / 2 ^ (8 - k)) last in
    let e' : b / 2 ^ 0 ≡ 2 * (p.cur / 2 ^ 1) + bit_value x =
      subst (λ k. b / 2 ^ (7 - k) ≡ 2 * (p.cur / 2 ^ (8 - k)) + bit_value x) last e in
    (
      record d { buf = m'; bitpos = 0; dsize = d.dsize + 1 },
      rw (fits, inside) refl,
      record {
        cur = 0;
        at = peek-set m (d.dsize + 1) 0 (omega (arith, p.sized, len, room));
        byte = omega arith;
        pos = omega arith;
        sized = p.sized ∙ sym len ∙ sym (length-set m (d.dsize + 1) 0);
        count = omega (arith, p.count, last);
        value = rw (bytes, number_snoc 0 (take d.dsize d.buf) b) (omega (arith, value', e'));
      },
      refl,
    )

-- `dpack_bit` adds a bit, while the bits fit the block.
pub dpack_bit-Packs :
    (realloc : Dbuf → Option Block) (d : Dbuf) (n v : ℕ) (x : Bool)
    → Packs d n v
    → n + 1 < 8 * d.size
    → (d' : Dbuf) × (dpack_bit realloc d x ≡ some d')
      × Packs d' (suc n) (2 * v + bit_value x)
      × (d'.size ≡ d.size)
unfolding dpack_bit
dpack_bit-Packs realloc d n v x p room =
    let (e, small) = put_bit_facts x d.bitpos p.cur p.pos p.byte in
    let b = put_bit p.cur d.bitpos x in
    let below = lt→ltb _ _ (peek-below d.buf d.dsize p.cur p.at) in
    elim (Bool-cases (ltb 7 (d.bitpos + 1))) [
      | inl full ↦
          let last : d.bitpos ≡ 7 = omega (arith, ltb→lt 7 (d.bitpos + 1) full, p.pos) in
          let (d', ran, p', same) =
            full_byte realloc d n v b x p last (omega (arith, p.count, last)) e in
          (d', rw (p.at, below, full) ran, p', same)
      | inr within ↦ (
        _,
        rw (p.at, below, within) refl,
        inside_byte d n v b x p (omega (arith, ltb→le 7 (d.bitpos + 1) within)) e small,
        refl,
      )
    ]

-- The lowest `k` bits of a number.
abbrev pub low : ℕ → ℕ → ℕ
low zero val = 0
low (suc k) val = 2 ^ k * (val / 2 ^ k % 2) + low k val

bit_value_of : (q : ℕ) → bit_value (not (q % 2 == 0)) ≡ q % 2
bit_value_of q = elim (Bool-cases (q % 2 == 0)) [
  | inl even ↦ rw even (sym ((==_iff (q % 2) 0).0 even))
  | inr odd ↦ let less : q % 2 < 2 = mod-lt q (omega arith) in rw odd (ground arith)
]

shift_in : (p v b l : ℕ) → p * (2 * v + b) + l ≡ 2 * p * v + (p * b + l)
shift_in p v b l = grind arith

-- The `for` loop of `dpack_Nbit` adds the lowest `k` bits, the highest of them first.
pub dpack_bits-Packs :
    (realloc : Dbuf → Option Block) (k val : ℕ) (d : Dbuf) (n v : ℕ)
    → Packs d n v
    → n + k < 8 * d.size
    → (d' : Dbuf) × (dpack_bits realloc k val d ≡ some d')
      × Packs d' (n + k) (2 ^ k * v + low k val)
      × (d'.size ≡ d.size)
unfolding dpack_bits
dpack_bits-Packs realloc zero val d n v p room =
    let same_n : n + 0 ≡ n = omega arith in
    let same_v : 2 ^ 0 * v + 0 ≡ v = omega arith in (d, refl, rw (same_n, same_v) p, refl)
dpack_bits-Packs realloc (suc k) val d n v p room =
    let x = not (val / 2 ^ k % 2 == 0) in
    let (d1, ran1, p1, size1) = dpack_bit-Packs realloc d n v x p (omega arith) in
    let (d', ran, p', size') =
      dpack_bits-Packs realloc k val d1 (suc n) (2 * v + bit_value x) p1
        (omega (arith, size1, room)) in
    let count : suc n + k ≡ n + suc k = omega arith in
    let value : 2 ^ k * (2 * v + bit_value x) + low k val ≡ 2 ^ suc k * v + low (suc k) val =
      ap (λ b. 2 ^ k * (2 * v + b) + low k val) (bit_value_of (val / 2 ^ k))
      ∙ shift_in (2 ^ k) v (val / 2 ^ k % 2) (low k val)
      ∙ ap (λ q. q * v + low (suc k) val) (sym (pow-succ' 2 k)) in
    (
      d',
      rw ran1 ran,
      subst (λ c. Packs d' c (2 ^ suc k * v + low (suc k) val)) count
          (subst (Packs d' (suc n + k)) value p'),
      size' ∙ size1,
    )

low-byte : (b : ℕ) → b < 256 → low 8 b ≡ b
low-byte b h = omega arith

-- The number after `v` and `nbit` bits of `val`: whole bytes, the lowest one first, then the rest.
abbrev pub behind : ℕ → ℕ → ℕ → ℕ → ℕ
behind zero v val nbit = v
behind (suc left) v val nbit =
    let rest = behind left (2 ^ 8 * v + low 8 (val % 256)) (val / 256) (nbit - 8) in
    if ltb 8 nbit then rest else 2 ^ nbit * v + low nbit val

rounds-Packs :
    (left : ℕ) (realloc : Dbuf → Option Block) (val nbit : ℕ) (d : Dbuf) (n v : ℕ)
    → nbit < left
    → Packs d n v
    → n + nbit < 8 * d.size
    → (d' : Dbuf) × (dpack_rounds left realloc val nbit d ≡ some d')
      × Packs d' (n + nbit) (behind left v val nbit)
      × (d'.size ≡ d.size)
unfolding dpack_rounds
rounds-Packs zero realloc val nbit d n v enough p room = absurd (omega arith)
rounds-Packs (suc left) realloc val nbit d n v enough p room = elim (Bool-cases (ltb 8 nbit)) [
  | inr few ↦
      let (d', ran, p', same) = dpack_bits-Packs realloc nbit val d n v p room in
      (d', rw few ran, rw few p', same)
  | inl many ↦
      let more = ltb→lt 8 nbit many in
      let (d1, ran1, p1, size1) = dpack_bits-Packs realloc 8 (val % 256) d n v p (omega arith) in
      let (d', ran, p', size') =
        rounds-Packs left realloc (val / 256) (nbit - 8) d1 (n + 8) (2 ^ 8 * v + low 8 (val % 256))
          (omega arith) p1 (omega (arith, size1, room)) in
      let count : n + 8 + (nbit - 8) ≡ n + nbit = omega arith in
      (
        d',
        rw (many, ran1) ran,
        rw many (
            subst
              (λ c. Packs d' c (behind left (2 ^ 8 * v + low 8 (val % 256)) (val / 256) (nbit - 8)))
              count p'),
        size' ∙ size1,
      )
]

-- `dpack_Nbit` ends, and adds `nbit` bits that fit the block: whole bytes of the value, the lowest one
-- first, and then what is left of its bits.
pub dpack_n_bit-Packs :
    (realloc : Dbuf → Option Block) (val nbit : ℕ) (d : Dbuf) (n v : ℕ)
    → Packs d n v
    → n + nbit < 8 * d.size
    → (d' : Dbuf) × (dpack_n_bit realloc val nbit d ≡ some d')
      × Packs d' (n + nbit) (behind (suc nbit) v val nbit)
      × (d'.size ≡ d.size)
unfolding dpack_n_bit
dpack_n_bit-Packs realloc val nbit d n v p room =
    rounds-Packs (suc nbit) realloc val nbit d n v (omega arith) p room

-- `dpack_bit_array` of bytes that fit a valid buffer, at whatever bit it stands, adds the bits of all
-- of them in order, each from its highest bit on, and does not change the block's size.
pub dpack_bit_array-Packs :
    (realloc : Dbuf → Option Block) (arr : List ℕ) (d : Dbuf) (n v : ℕ)
    → Packs d n v
    → All IsByte arr
    → n + 8 * length arr < 8 * d.size
    → (d' : Dbuf) × (dpack_bit_array realloc arr (length arr) d ≡ some d')
      × Packs d' (n + 8 * length arr) (number v arr)
      × (d'.size ≡ d.size)
unfolding dpack_bit_array dpack_8bit dpack_n_bit dpack_rounds
dpack_bit_array-Packs realloc [] d n v p bytes room =
    let same : n + 0 ≡ n = omega arith in (d, refl, rw same p, refl)
dpack_bit_array-Packs realloc (b ∷ arr) d n v p bytes room =
    let (d1, ran1, p1, size1) = dpack_bits-Packs realloc 8 b d n v p (omega arith) in
    let value : 2 ^ 8 * v + low 8 b ≡ v * 256 + b = omega (arith, low-byte b bytes.0) in
    let (d', ran, p', size') =
      dpack_bit_array-Packs realloc arr d1 (n + 8) (v * 256 + b) (subst (Packs d1 (n + 8)) value p1)
        bytes.1 (omega (arith, size1, room)) in
    let count : n + 8 + 8 * length arr ≡ n + 8 * suc (length arr) = omega arith in
    (d', rw ran1 ran, subst (λ c. Packs d' c (number (v * 256 + b) arr)) count p', size' ∙ size1)
