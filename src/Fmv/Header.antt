-- ===== src/Fmv/Header.antt =====
-- The packet header of fmv_src/sta_fmv.c: flags in byte 0, the sequence number in bytes 1 to 4,
-- the message's frequency and number from byte 6 on. `none` is an access outside the packet.
pub mod Flags
pub mod Numbers
use cosimus.Base.{
  ℕ, zero, suc, ◌+◌, ◌%◌, Bool, true, false, not, ◌&&◌, Option, none, some, List, [], ◌∷◌, u8, u16,
  u32, ◌<<<◌, ◌>>>◌, bit_and, bit_or, bit_xor, peek, poke, poke_all, replicate, ◌==◌, if◌then◌else◌,
  ◌>>=◌,
}

abbrev pub appended_acks : ℕ
appended_acks = 0x10

abbrev pub reliable : ℕ
reliable = 0x40

abbrev pub zerocoded : ℕ
zerocoded = 0x80

-- `(data[0] & flag) != 0`
abbrev pub test_flag : ℕ → List ℕ → Option Bool
test_flag flag pkt = peek pkt 0 >>= λ b. some (not (bit_and b flag == 0))

-- `data[0] |= flag`, or `data[0] &= flag ^ 0xFF`
abbrev pub set_flag : ℕ → List ℕ → Bool → Option (List ℕ)
set_flag flag pkt val = peek pkt 0 >>= λ b.
    poke pkt 0 (u8 (if val then bit_or b flag else bit_and b (bit_xor flag 0xFF)))

pub is_zero_coded : List ℕ → Option Bool
is_zero_coded pkt = test_flag zerocoded pkt

pub set_zero_coded : List ℕ → Bool → Option (List ℕ)
set_zero_coded pkt val = set_flag zerocoded pkt val

pub is_reliable : List ℕ → Option Bool
is_reliable pkt = test_flag reliable pkt

pub set_reliable : List ℕ → Bool → Option (List ℕ)
set_reliable pkt val = set_flag reliable pkt val

unfoldable pub has_acks : List ℕ → Option Bool
has_acks pkt = test_flag appended_acks pkt

unfoldable pub set_has_acks : List ℕ → Bool → Option (List ℕ)
set_has_acks pkt val = set_flag appended_acks pkt val

-- `GetSequenceNumber`
pub get_sequence_number : List ℕ → Option ℕ
get_sequence_number pkt = do
  b1 ← peek pkt 1
  b2 ← peek pkt 2
  b3 ← peek pkt 3
  b4 ← peek pkt 4
  some (u32 (b1 <<< 24 + b2 <<< 16 + b3 <<< 8 + b4))

-- `SetSequenceNumber`
pub set_sequence_number : List ℕ → ℕ → Option (List ℕ)
set_sequence_number pkt n =
    poke_all pkt 1 (u8 (n >>> 24) ∷ u8 (n >>> 16) ∷ u8 (n >>> 8) ∷ u8 (n % 256) ∷ [])

-- The values of `Low`, `Medium` and `High`.
abbrev pub low : ℕ
low = 1

abbrev pub medium : ℕ
medium = 2

abbrev pub high : ℕ
high = 3

-- `GetPacketFrequency`
pub get_packet_frequency : List ℕ → Option ℕ
get_packet_frequency pkt = do
  d6 ← peek pkt 6
  d7 ← peek pkt 7
  some (if d6 == 0xff && d7 == 0xff then low else if d6 == 0xff then medium else high)

-- The `switch` of `GetPacketID`.
id_by_frequency : List ℕ → ℕ → Option ℕ
id_by_frequency pkt f =
    if f == low
    then (peek pkt 8 >>= λ b8. peek pkt 9 >>= λ b9. some (u16 (b8 <<< 8 + b9)))
    else if f == medium
    then peek pkt 7
    else peek pkt 6

-- `GetPacketID`
pub get_packet_id : List ℕ → Option ℕ
unfolding id_by_frequency
get_packet_id pkt = get_packet_frequency pkt >>= id_by_frequency pkt

-- `get_packet_global_id`
pub get_packet_global_id : List ℕ → Option ℕ
get_packet_global_id pkt = do
  f ← get_packet_frequency pkt
  id ← get_packet_id pkt
  some (bit_or (u32 (f <<< 16)) id)

-- `SetPacketID`: another frequency changes nothing.
pub set_packet_id : List ℕ → ℕ → ℕ → Option (List ℕ)
set_packet_id pkt frequency val =
    if frequency == low
    then poke_all pkt 6 (0xff ∷ 0xff ∷ u8 (val >>> 8) ∷ u8 (val % 256) ∷ [])
    else if frequency == medium
    then poke_all pkt 6 (0xff ∷ u8 val ∷ [])
    else if frequency == high
    then poke_all pkt 6 (u8 val ∷ [])
    else some pkt

-- `Header_UDP`
pub header_udp : List ℕ → ℕ → ℕ → ℕ → Option (List ℕ)
unfolding set_packet_id
header_udp pkt packet_id frequency flags = do
  cleared ← poke_all pkt 0 (replicate 10 0)
  flagged ← poke cleared 0 (u8 flags)
  set_packet_id flagged frequency packet_id
