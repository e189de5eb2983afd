-- ===== src/Fmv/Acks.antt =====
-- `AppendAcks` and `GetAcks` of fmv_src/sta_fmv.c: the acknowledgements behind a packet.
pub mod RoundTrip
use cosimus.Base.{
  ℕ, zero, suc, ◌+◌, ◌-◌, ◌*◌, ◌%◌, Bool, true, Option, none, some, List, [], ◌∷◌, u8, u32, ◌<<<◌,
  ◌>>>◌, peek, poke, poke_all, ltb, if◌then◌else◌, ◌>>=◌,
}
use cosimus.Fmv.Header.{has_acks, set_has_acks}

-- The four bytes of an acknowledgement.
abbrev pub ack_bytes : ℕ → List ℕ
ack_bytes ack =
    u8 (ack >>> 24 % 256) ∷ u8 (ack >>> 16 % 256) ∷ u8 (ack >>> 8 % 256) ∷ u8 (ack % 256) ∷ []

-- `for(j=0; j<numAcks; j++)`, with the rounds that are left.
unfoldable pub append_loop : ℕ → ℕ → List ℕ → List ℕ → ℕ → Option (List ℕ × ℕ)
append_loop zero j acks msg i = some (msg, i)
append_loop (suc left) j acks msg i = peek acks j >>= λ ack.
    poke_all msg i (ack_bytes ack) >>= λ m. append_loop left (suc j) acks m (i + 4)

-- `AppendAcks(acks, numAcks, udpMessage, udpMessageLength)`: the new length and the message.
unfoldable pub append_acks : List ℕ → ℕ → List ℕ → ℕ → Option (ℕ × List ℕ)
append_acks acks num_acks msg len = append_loop num_acks 0 acks msg len >>= λ (m, i).
    if ltb 0 num_acks
    then (set_has_acks m true >>= λ m1. poke m1 i (u8 num_acks) >>= λ m2. some (i + 1, m2))
    else some (i, m)

-- The acknowledgement whose last byte is at `p`; the bytes do not overlap, so that `|` is a sum.
unfoldable pub ack_at : List ℕ → ℕ → Option ℕ
ack_at msg p =
    if ltb p 3
    then none
    else (peek msg (p - 3) >>= λ b3. peek msg (p - 2) >>= λ b2. peek msg (p - 1) >>= λ b1.
        peek msg p >>= λ b0. some (u32 (b3 <<< 24 + b2 <<< 16 + b1 <<< 8 + b0)))

-- `for (i = 0; i < *count && i<maxAcks; i++)`, with the rounds that are left.
unfoldable pub get_loop : ℕ → ℕ → List ℕ → ℕ → Option (List ℕ)
get_loop zero i msg len = some []
get_loop (suc left) i msg len =
    ack_at msg (len - i * 4) >>= λ a. get_loop left (suc i) msg len >>= λ acks. some (a ∷ acks)

-- `GetAcks(&count, acks, maxAcks, udpMessage, udpMessageLength)`: the count, and what it puts in
-- `acks`. The count is read at the given length, not before it.
unfoldable pub get_acks : ℕ → List ℕ → ℕ → Option (ℕ × List ℕ)
get_acks max_acks msg len = has_acks msg >>= λ acks.
    if acks
    then (peek msg len >>= λ count.
        get_loop (if ltb count max_acks then count else max_acks) 0 msg (len - 1) >>= λ acks.
        some (count, acks))
    else some (0, [])
