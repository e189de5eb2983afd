-- ===== src/Examples/Bits.antt =====
-- Tests: packed bits at concrete values.
use cosimus.Base.{◌≡◌, refl, none, some, [], ◌∷◌, arith}
use cosimus.Dbuf.{Dbuf, dbuf_signature}
use cosimus.BitPack.{dpack_bit_array, dpack_n_bit}
use cosimus.BitPack.Stream.{Packs, number}
use cosimus.BitPack.Write.{behind, dpack_bit_array-Packs, dpack_n_bit-Packs}

-- Three bits, 101, in a block of four bytes.
abbrev three_bits : Dbuf
three_bits = record {
  addr = 4096;
  buf = 160 ∷ 7 ∷ 7 ∷ 7 ∷ [];
  uptype_sig = 0;
  lock = 1;
  size = 4;
  dsize = 0;
  bitpos = 3;
  elsize = 1;
  growsize = 1024;
  destructor = 0;
  savebuf = 4096;
  signature = dbuf_signature;
}

three_bits-Packs : Packs three_bits 3 5
three_bits-Packs = record {
  cur = 160;
  at = refl;
  byte = omega arith;
  pos = omega arith;
  sized = refl;
  count = refl;
  value = refl;
}

dpack_bit_array_example :
    (d' : Dbuf) × (dpack_bit_array (λ d. none) (18 ∷ 52 ∷ []) 2 three_bits ≡ some d')
    × Packs d' 19 (number 5 (18 ∷ 52 ∷ []))
    × (d'.size ≡ 4)
dpack_bit_array_example =
    dpack_bit_array-Packs (λ d. none) (18 ∷ 52 ∷ []) three_bits 3 5 three_bits-Packs
      (omega arith, (omega arith, tt)) (omega arith)

dpack_n_bit_example :
    (d' : Dbuf) × (dpack_n_bit (λ d. none) 291 12 three_bits ≡ some d')
    × Packs d' 15 (behind 13 5 291 12)
    × (d'.size ≡ 4)
dpack_n_bit_example =
    dpack_n_bit-Packs (λ d. none) 291 12 three_bits 3 5 three_bits-Packs (omega arith)
