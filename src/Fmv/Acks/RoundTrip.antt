-- ===== src/Fmv/Acks/RoundTrip.antt =====
-- `GetAcks` of fmv_src/sta_fmv.c reads what `AppendAcks` wrote.
use mathlib.Core.Option.{some_inj}
use cosimus.Base.{
  ℕ, zero, suc, ◌+◌, ◌-◌, ◌*◌, ◌%◌, ◌≤◌, ◌<◌, ◌≡◌, refl, sym, ap, ◌∙◌, true, some, List, [], ◌∷◌,
  ◌++◌, u8, u32, ◌<<<◌, ◌>>>◌, peek, poke, poke_all, ltb, if◌then◌else◌, overwrite, length,
  length-append, length-overwrite, poke_all-overwrite, peek-overwrite, drop, take, get_elem?,
  get_elem?_of_drop, drop-suc, All, lt→ltb, le→ltb, arith, ap₂, overwrite-nil, overwrite-overwrite,
  get_elem?-append, get_elem?-append_right, get_elem?-some, take-suc, take-all, >>=_some,
  All-get_elem?, reverse,
}
use cosimus.Fmv.Acks.{ack_bytes, append_loop, append_acks, ack_at, get_loop, get_acks}
use mathlib.Core.List.{reverse-append}
use cosimus.Fmv.Header.{has_acks}
use cosimus.Fmv.Header.Flags.{flags_independent}

-- The bytes of several acknowledgements.
abbrev pub acks_bytes : List ℕ → List ℕ
acks_bytes [] = []
acks_bytes (x ∷ xs) = ack_bytes x ++ acks_bytes xs

length-acks_bytes : (xs : List ℕ) → length (acks_bytes xs) ≡ 4 * length xs
length-acks_bytes [] = refl
length-acks_bytes (x ∷ xs) = omega (arith, length-acks_bytes xs)

append_loop-overwrite :
    (xs acks msg : List ℕ) (j i : ℕ)
    → drop j acks ≡ xs
    → i + 4 * length xs ≤ length msg
    → append_loop (length xs) j acks msg i
      ≡ some (overwrite msg i (acks_bytes xs), i + 4 * length xs)
unfolding append_loop
append_loop-overwrite [] acks msg j i e room =
    ap some (ap₂ (λ m k. (m, k)) (sym (overwrite-nil msg i)) nothing)
  where
    nothing : i ≡ i + 4 * 0
    nothing = omega arith
append_loop-overwrite (x ∷ xs) acks msg j i e room =
    rw (get_elem?_of_drop acks j e, poke_all-overwrite msg i (ack_bytes x) (omega arith))
      (append_loop-overwrite xs acks (overwrite msg i (ack_bytes x)) (suc j) (i + 4)
          (drop-suc acks j e) (rw length-overwrite (omega arith))
        ∙ ap some (
            ap₂ (λ m k. (m, k)) (overwrite-overwrite msg i (ack_bytes x) (acks_bytes xs))
              four_more))
  where
    four_more : i + 4 + 4 * length xs ≡ i + 4 * suc (length xs)
    four_more = omega arith

-- The `j`-th byte of the `k`-th acknowledgement.
acks_byte :
    (xs rest : List ℕ) (k j : ℕ) {x : ℕ}
    → get_elem? xs k ≡ some x
    → j < 4
    → get_elem? (acks_bytes xs ++ rest) (4 * k + j) ≡ get_elem? (ack_bytes x) j
acks_byte [] rest k j e h = cc
acks_byte (y ∷ xs) rest zero j e h =
    ap (get_elem? (ack_bytes y ++ acks_bytes xs ++ rest)) start
    ∙ get_elem?-append (ack_bytes y) (acks_bytes xs ++ rest) j h
    ∙ ap (λ t. get_elem? (ack_bytes t) j) (some_inj.0 e)
  where
    start : 4 * 0 + j ≡ j
    start = omega arith
acks_byte (y ∷ xs) rest (suc k) j e h =
    ap (get_elem? (ack_bytes y ++ acks_bytes xs ++ rest)) later
    ∙ get_elem?-append_right (ack_bytes y) (acks_bytes xs ++ rest) (4 * k + j)
    ∙ acks_byte xs rest k j e h
  where
    later : 4 * suc k + j ≡ 4 + (4 * k + j)
    later = omega arith

ack_value :
    (x : ℕ)
    → x < 4294967296
    → u32 (
        u8 (x >>> 24 % 256) <<< 24
        + u8 (x >>> 16 % 256) <<< 16
        + u8 (x >>> 8 % 256) <<< 8
        + u8 (x % 256))
      ≡ x
ack_value x h = ground arith

-- The packet behind the first byte: `l` bytes, the acknowledgements, and their number.
abbrev pub appended : List ℕ → ℕ → List ℕ → ℕ → List ℕ
appended rest l acks n = overwrite rest l (acks_bytes acks ++ n ∷ [])

module _ (b : ℕ) (rest acks : List ℕ) (l n : ℕ) (count : length acks ≡ n)
    (room : l + 4 * n + 1 ≤ length rest) where
  bytes_length : length (acks_bytes acks ++ n ∷ []) ≡ 4 * n + 1
  bytes_length =
      length-append (acks_bytes acks) (n ∷ []) ∙ omega (arith, length-acks_bytes acks, count)

  byte_of_ack :
      (k j : ℕ) {x : ℕ} (p : ℕ)
      → get_elem? acks k ≡ some x
      → k < n
      → j < 4
      → p ≡ suc (l + (4 * k + j))
      → get_elem? (b ∷ appended rest l acks n) p ≡ get_elem? (ack_bytes x) j
  byte_of_ack k j p e h h' at =
      ap (get_elem? (b ∷ appended rest l acks n)) at
      ∙ peek-overwrite rest l (acks_bytes acks ++ n ∷ []) (4 * k + j) (omega (arith, bytes_length))
          (omega (arith, bytes_length))
      ∙ acks_byte acks (n ∷ []) k j e h'

  ack_at-value :
      (k : ℕ) {x : ℕ} (p : ℕ)
      → get_elem? acks k ≡ some x
      → k < n
      → x < 4294967296
      → p ≡ l + 4 * suc k
      → ack_at (b ∷ appended rest l acks n) p ≡ some x
  unfolding ack_at
  ack_at-value k {x} p e h small at =
      rw
        (
          le→ltb p 3 (omega arith),
          byte_of_ack k 0 (p - 3) e h (omega arith) (omega arith),
          byte_of_ack k 1 (p - 2) e h (omega arith) (omega arith),
          byte_of_ack k 2 (p - 1) e h (omega arith) (omega arith),
          byte_of_ack k 3 p e h (omega arith) (omega arith),
        )
        (ap some (ack_value x small))

  get_loop-reverse :
      (left i : ℕ)
      → left + i ≡ n
      → All (λ x. x < 4294967296) acks
      → get_loop left i (b ∷ appended rest l acks n) (l + 4 * n) ≡ some (reverse (take left acks))
  unfolding get_loop
  get_loop-reverse zero i e small = refl
  get_loop-reverse (suc left) i e small =
      let (x, here) = get_elem?-some acks left (omega (arith, count)) in
      rw
        (
          ack_at-value left (l + 4 * n - i * 4) here (omega arith)
              (All-get_elem? (λ x. x < 4294967296) acks left small here) (omega arith),
          get_loop-reverse left (suc i) (omega arith) small,
        )
        (ap some (
          sym (reverse-append (take left acks) (x ∷ []))
          ∙ ap reverse (sym (take-suc acks left here))))

  -- The steps of `AppendAcks` behind its loop.
  append_loop-appended :
      append_loop n 0 acks (b ∷ rest) (suc l)
      ≡ some (b ∷ overwrite rest l (acks_bytes acks), suc l + 4 * n)
  unfolding overwrite
  append_loop-appended =
      ap (λ k. append_loop k 0 acks (b ∷ rest) (suc l)) (sym count)
      ∙ append_loop-overwrite acks acks (b ∷ rest) 0 (suc l) refl (omega (arith, count))
      ∙ ap (λ k. some (b ∷ overwrite rest l (acks_bytes acks), suc l + 4 * k)) count

  poke_count :
      n < 256
      → poke (b ∷ overwrite rest l (acks_bytes acks)) (suc l + 4 * n) (u8 n)
        ≡ some (b ∷ appended rest l acks n)
  unfolding poke_all overwrite
  poke_count few =
      let base = b ∷ overwrite rest l (acks_bytes acks) in
      let len = length-acks_bytes acks in
      let at : suc l + 4 * n ≡ suc l + length (acks_bytes acks) = omega (arith, len, count) in
      let small : u8 n ≡ n = omega arith in
      ap₂ (λ i v. poke base i v) at small
      ∙ sym (>>=_some (poke base (suc l + length (acks_bytes acks)) n))
      ∙ poke_all-overwrite base (suc l + length (acks_bytes acks)) (n ∷ [])
          (rw length-overwrite (omega (arith, len, count)))
      ∙ ap some (overwrite-overwrite (b ∷ rest) (suc l) (acks_bytes acks) (n ∷ []))

  peek_count : peek (b ∷ appended rest l acks n) (suc l + 4 * n) ≡ some n
  peek_count =
      let len = length-acks_bytes acks in
      let at : suc l + 4 * n ≡ suc (l + (length (acks_bytes acks) + 0)) =
        omega (arith, len, count) in
      ap (peek (b ∷ appended rest l acks n)) at
      ∙ peek-overwrite rest l (acks_bytes acks ++ n ∷ []) (length (acks_bytes acks) + 0)
          (omega (arith, bytes_length, len, count)) (omega (arith, bytes_length))
      ∙ get_elem?-append_right (acks_bytes acks) (n ∷ []) 0

has_acks-head : (b : ℕ) (xs ys : List ℕ) → has_acks (b ∷ xs) ≡ has_acks (b ∷ ys)
unfolding has_acks
has_acks-head b xs ys = refl

-- `AppendAcks` of `n` acknowledgements, from 1 to 255, to a packet with room for them puts them and
-- their number behind it and sets the flag. `GetAcks`, given the index of the last byte and room for
-- that many, reads their number and all of them, the last one first.
pub append_acks-get_acks :
    (b : ℕ) (rest acks : List ℕ) (l n max_acks : ℕ)
    → b < 256
    → length acks ≡ n
    → 0 < n
    → n < 256
    → n ≤ max_acks
    → All (λ x. x < 4294967296) acks
    → l + 4 * n + 1 ≤ length rest
    → (b' : ℕ) × (append_acks acks n (b ∷ rest) (suc l)
        ≡ some (suc l + 4 * n + 1, b' ∷ appended rest l acks n))
      × (get_acks max_acks (b' ∷ appended rest l acks n) (suc l + 4 * n) ≡ some (n, reverse acks))
unfolding append_acks get_acks
append_acks-get_acks b rest acks l n max_acks byte count some_acks few fits small room =
    let base = overwrite rest l (acks_bytes acks) in
    let (b', put, on, same, same') = (flags_independent b base true byte).2 in
    let rounds : (if ltb n max_acks then n else max_acks) ≡ n = ground arith in
    let last : suc l + 4 * n - 1 ≡ l + 4 * n = omega arith in
    let all : take n acks ≡ acks = take-all n acks (omega (arith, count)) in
    (
      b',
      rw
          (
            append_loop-appended b rest acks l n count room,
            lt→ltb 0 n some_acks,
            put,
            poke_count b' rest acks l n count room few,
          )
          refl,
      rw
          (
            has_acks-head b' (appended rest l acks n) base,
            on,
            peek_count b' rest acks l n count room,
            rounds,
            last,
            get_loop-reverse b' rest acks l n count room n 0 (omega arith) small,
            all,
          )
          refl,
    )
