-- ===== src/Fmv/Header/Numbers.antt =====
-- The numbers of the header: what is set is what is read back.
use cosimus.Base.{
  ℕ, ◌+◌, ◌*◌, ◌/◌, ◌%◌, ◌^◌, true, false, u16, ◌<<<◌, overwrite-nil, ◌≤◌, ◌<◌, ◌≡◌, refl, ◌∙◌, ap,
  ◌⊎◌, inl, inr, some, List, ◌∷◌, ◌++◌, length, drop, reverse, replicate, le_bytes, overwrite,
  poke_all, poke_all-overwrite, overwrite-front, peek-overwrite, poke_head, peek, arith, bit_or,
  ◌==◌, ==_iff, check_below, check_below_sound,
}
use cosimus.Fmv.Header.{
  low, medium, high, get_sequence_number, set_sequence_number, get_packet_frequency, get_packet_id,
  get_packet_global_id, set_packet_id, header_udp,
}

-- `SetSequenceNumber` puts the four bytes of the number in bytes 1 to 4, most significant first,
-- changes no other byte, and `GetSequenceNumber` reads the number back.
pub sequence_number_round_trip :
    (pkt : List ℕ) (n : ℕ)
    → 5 ≤ length pkt
    → n < 2 ^ 32
    → (set_sequence_number pkt n ≡ some (overwrite pkt 1 (reverse (le_bytes 4 n))))
      × (get_sequence_number (overwrite pkt 1 (reverse (le_bytes 4 n))) ≡ some n)
unfolding set_sequence_number get_sequence_number le_bytes
sequence_number_round_trip pkt n h b =
    let bs = reverse (le_bytes 4 n) in
    let at = λ (k : ℕ) (l : k < 4). peek-overwrite pkt 1 bs k l (omega arith) in
    (
      poke_all-overwrite pkt 1 _ (omega arith) ∙ ap (λ t. some (overwrite pkt 1 t)) (ground arith),
      rw (at 0 (omega arith), at 1 (omega arith), at 2 (omega arith), at 3 (omega arith))
          (ground arith),
    )

-- The numbers that a message of each frequency can have.
abbrev pub IsMessage : ℕ → ℕ → Type 0
IsMessage f id =
    ((f ≡ low) × (id < 65536)) ⊎ (((f ≡ medium) × (id < 255)) ⊎ ((f ≡ high) × (id < 255)))

-- The ten bytes of a header, and what follows them.
abbrev header_bytes : ℕ → ℕ → ℕ → ℕ → ℕ → List ℕ → List ℕ
header_bytes flags b6 b7 b8 b9 rest = flags ∷ 0 ∷ 0 ∷ 0 ∷ 0 ∷ 0 ∷ b6 ∷ b7 ∷ b8 ∷ b9 ∷ rest

header_udp-start :
    (pkt : List ℕ) (id f flags : ℕ)
    → 10 ≤ length pkt
    → flags < 256
    → header_udp pkt id f flags ≡ set_packet_id (header_bytes flags 0 0 0 0 (drop 10 pkt)) f id
unfolding header_udp
header_udp-start pkt id f flags h b =
    rw
      (
        poke_all-overwrite pkt 0 (replicate 10 0) (omega arith),
        overwrite-front pkt (replicate 10 0) (omega arith),
        poke_head 0 _ (replicate 9 0 ++ drop 10 pkt),
      )
      (ap (λ t. set_packet_id (header_bytes t 0 0 0 0 (drop 10 pkt)) f id) (omega arith))

poke_header :
    (flags : ℕ) (rest vs : List ℕ)
    → length vs ≤ 4
    → poke_all (header_bytes flags 0 0 0 0 rest) 6 vs
      ≡ some (overwrite (header_bytes flags 0 0 0 0 rest) 6 vs)
poke_header flags rest vs h = poke_all-overwrite _ 6 vs (omega arith)

-- `|` with a number above all the bits of the other is a sum.
or_table :
    (k n : ℕ)
    → check_below n (λ x. bit_or k x == k + x) ≡ true
    → (x : ℕ) → x < n
    → bit_or k x ≡ k + x
or_table k n table x h = (==_iff _ _).0 (check_below_sound n (λ x. bit_or k x == k + x) x table h)

global_low : (id : ℕ) → id < 65536 → bit_or 65536 id ≡ 65536 + id
unfolding check_below
global_low = or_table 65536 65536 refl

-- The header that is read back from a packet.
abbrev pub Heads : List ℕ → ℕ → ℕ → ℕ → Type 0
Heads pkt flags f id =
    (peek pkt 0 ≡ some flags)
    × (get_sequence_number pkt ≡ some 0)
    × (get_packet_frequency pkt ≡ some f)
    × (get_packet_id pkt ≡ some id)
    × (get_packet_global_id pkt ≡ some (f * 65536 + id))

-- A packet that `SetPacketID` makes of a cleared header.
abbrev Written : ℕ → ℕ → ℕ → List ℕ → Type 0
Written flags f id rest =
    (pkt : List ℕ) × (set_packet_id (header_bytes flags 0 0 0 0 rest) f id ≡ some pkt)
    × Heads pkt flags f id
    × (drop 10 pkt ≡ rest)

header_low : (flags id : ℕ) (rest : List ℕ) → id < 65536 → Written flags low id rest
unfolding set_packet_id get_sequence_number get_packet_frequency get_packet_id get_packet_global_id
    overwrite
header_low flags id rest h =
    let e : u16 ((id / 256) <<< 8 + id % 256) ≡ id = omega arith in
    (
      header_bytes flags 0xff 0xff (id / 256) (id % 256) rest,
      poke_header flags rest _ (omega arith) ∙ rw overwrite-nil (ground arith),
      (refl, refl, refl, ap some e, ap some (ap (bit_or 65536) e ∙ global_low id h)),
      refl,
    )

header_medium : (flags id : ℕ) (rest : List ℕ) → id < 255 → Written flags medium id rest
unfolding set_packet_id get_sequence_number get_packet_frequency get_packet_id get_packet_global_id
    overwrite check_below
header_medium flags id rest h =
    let other : (id == 0xff) ≡ false = ground arith in
    (
      header_bytes flags 0xff id 0 0 rest,
      poke_header flags rest _ (omega arith) ∙ ground arith,
      (refl, refl, rw other, rw other, rw other (ap some (or_table 131072 255 refl id h))),
      refl,
    )

header_high : (flags id : ℕ) (rest : List ℕ) → id < 255 → Written flags high id rest
unfolding set_packet_id get_sequence_number get_packet_frequency get_packet_id get_packet_global_id
    overwrite check_below
header_high flags id rest h =
    let other : (id == 0xff) ≡ false = ground arith in
    (
      header_bytes flags id 0 0 0 rest,
      poke_header flags rest _ (omega arith) ∙ ground arith,
      (refl, refl, rw other, rw other, rw other (ap some (or_table 196608 255 refl id h))),
      refl,
    )

-- On a packet of ten bytes or more, `Header_UDP` for a message's frequency and number (below 255,
-- or below 2^16 at low frequency) makes a header that is read back: the flags, a sequence number
-- of 0, the frequency, the number, and the two in one. It leaves the bytes after the tenth.
pub header_round_trip :
    (pkt : List ℕ) (id f flags : ℕ)
    → 10 ≤ length pkt
    → flags < 256
    → IsMessage f id
    → (pkt' : List ℕ) × (header_udp pkt id f flags ≡ some pkt')
      × Heads pkt' flags f id
      × (drop 10 pkt' ≡ drop 10 pkt)
header_round_trip pkt id f flags h b m = rw (header_udp-start pkt id f flags h b) (by_frequency m)
  where
    by_frequency : IsMessage f id → Written flags f id (drop 10 pkt)
    by_frequency (inl (e, l)) = rw e (header_low flags id (drop 10 pkt) l)
    by_frequency (inr (inl (e, l))) = rw e (header_medium flags id (drop 10 pkt) l)
    by_frequency (inr (inr (e, l))) = rw e (header_high flags id (drop 10 pkt) l)
