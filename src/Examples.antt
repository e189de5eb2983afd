-- ===== src/Examples.antt =====
-- Tests: the theorems at concrete inputs.
mod Fields
mod Lists
mod Buffers
mod Wheel
mod Bits
mod Sockets
mod Web
use cosimus.Base.{
  ℕ, ◌+◌, ◌≤◌, ◌<◌, ◌≡◌, refl, true, false, not, some, none, List, [], ◌∷◌, ◌==◌, length, overwrite,
  reverse, le_bytes, arith, ◌++◌, replicate, ◌-◌, ◌∙◌, length-append, length-replicate,
  take-length_append,
}
use cosimus.Base.{inl, drop, take}
use cosimus.Fmv.Header.{header_udp, low}
use cosimus.Dbuf.{Block, Dbuf, dbuf_signature}
use cosimus.Dbuf.Grow.{IsDbuf, Grown, dgrow, dgrow_in_range, int_limit, content}
use cosimus.Dbuf.Lock.{lock_count_balanced, lock_times, unlock_times, with_lock, alive, freed}
use cosimus.Fmv.Header.{
  set_sequence_number, get_sequence_number, set_reliable, is_reliable, is_zero_coded, has_acks,
  set_zero_coded, set_has_acks,
}
use cosimus.Fmv.Header.Flags.{SetsOnly, flags_independent}
use cosimus.Fmv.Header.Numbers.{sequence_number_round_trip, header_round_trip, Heads}
use cosimus.Fmv.ZeroCode.{Realloc, zero_encode_packet, zero_decode_packet, body_length}
use cosimus.Fmv.ZeroCode.RunLength.{coded, decoded, is_code}
use cosimus.Fmv.ZeroCode.Unpack.{InPlace, body}
use cosimus.Fmv.ZeroCode.RoundTrip.{zero_code_round_trip, zero_decode_in_range}
use cosimus.Fmv.ZeroCode.Packet.{zero_code, zero_encode_fits, zero_encode_overflows}

abbrev pub two_bytes : Dbuf
two_bytes = record {
  addr = 16;
  buf = 65 ∷ 66 ∷ 0 ∷ [];
  uptype_sig = 0;
  lock = 1;
  size = 3;
  dsize = 2;
  bitpos = 0;
  elsize = 1;
  growsize = 1024;
  destructor = 0;
  savebuf = 16;
  signature = dbuf_signature;
}

pub two_bytes-IsDbuf : IsDbuf two_bytes
two_bytes-IsDbuf = record {
  signed = refl;
  saved = refl;
  sized = refl;
  fits = omega arith;
  grows = omega arith;
}

abbrev larger : Block
larger = record { addr = 32; bytes = 65 ∷ 66 ∷ 0 ∷ 7 ∷ 7 ∷ [] }

dgrow_example :
    ((d' : Dbuf) × (dgrow (some larger) two_bytes 2 ≡ some (true, d'))
      × Grown two_bytes 2 d'
      × (d'.size < int_limit))
    × (dgrow none two_bytes 2 ≡ some (false, two_bytes))
dgrow_example =
    dgrow_in_range larger 2 two_bytes-IsDbuf (record { sized = refl; kept = refl }) (omega arith)

lock_count_example :
    ((with_lock two_bytes 3).lock < int_limit)
    × (lock_times 2 (some two_bytes) ≡ some (some (with_lock two_bytes 3)))
    × (unlock_times 2 (alive (with_lock two_bytes 3)) ≡ some (alive two_bytes))
    × (unlock_times 3 (alive (with_lock two_bytes 3)) ≡ some (freed (not (0 == 0))))
    × (unlock_times 4 (alive (with_lock two_bytes 3)) ≡ none)
lock_count_example = lock_count_balanced 2 two_bytes-IsDbuf refl (omega arith)

abbrev six_bytes : List ℕ
six_bytes = 1 ∷ 2 ∷ 3 ∷ 4 ∷ 5 ∷ 6 ∷ []

-- A packet with a run of zeros, and one with a single zero.
abbrev pub packet : List ℕ → Dbuf
packet bytes = record two_bytes { buf = bytes; size = length bytes; dsize = length bytes }

abbrev run_of_zeros : Dbuf
run_of_zeros = packet (128 ∷ 0 ∷ 0 ∷ 0 ∷ 1 ∷ 0 ∷ 9 ∷ 0 ∷ 0 ∷ 0 ∷ [])

abbrev single_zero : Dbuf
single_zero = packet (128 ∷ 0 ∷ 0 ∷ 0 ∷ 1 ∷ 0 ∷ 9 ∷ 0 ∷ [])

abbrev pub fresh : ℕ → Block
fresh n = record { addr = 64; bytes = replicate n 7 }

run_of_zeros-IsDbuf : IsDbuf run_of_zeros
run_of_zeros-IsDbuf = record {
  signed = refl;
  saved = refl;
  sized = refl;
  fits = omega arith;
  grows = omega arith;
}

single_zero-IsDbuf : IsDbuf single_zero
single_zero-IsDbuf = record {
  signed = refl;
  saved = refl;
  sized = refl;
  fits = omega arith;
  grows = omega arith;
}

run_body : body_length run_of_zeros.buf run_of_zeros.dsize ≡ some 10
unfolding body_length has_acks
run_body = refl

single_body : body_length single_zero.buf single_zero.dsize ≡ some 8
unfolding body_length has_acks
single_body = refl

run_fits : length (zero_code run_of_zeros 10) ≤ run_of_zeros.dsize
unfolding zero_code coded
run_fits = omega arith

single_long : single_zero.dsize < length (zero_code single_zero 8)
unfolding zero_code coded
single_long = omega arith

run_no_acks : has_acks run_of_zeros.buf ≡ some false
unfolding has_acks
run_no_acks = refl

run_short : 6 + length (coded 0 (body run_of_zeros)) ≤ run_of_zeros.dsize
unfolding body coded
run_short = omega arith

zero_encode_example :
    (d1 : Dbuf) × (zero_encode_packet (some (fresh 10)) true run_of_zeros ≡ some (some d1))
    × IsDbuf d1
    × (content d1 ≡ zero_code run_of_zeros 10)
zero_encode_example =
    zero_encode_fits (fresh 10) 10 run_of_zeros-IsDbuf (omega arith) refl run_body run_fits

zero_encode_overflow_example : zero_encode_packet (some (fresh 8)) true single_zero ≡ none
zero_encode_overflow_example =
    zero_encode_overflows (fresh 8) 8 single_zero-IsDbuf (omega arith) refl single_body single_long

-- A `realloc` that finds room behind the block.
abbrev extend : Realloc
extend d size = some (record { addr = d.addr; bytes = d.buf ++ replicate (size - d.size) 0 })

extend-InPlace : InPlace extend
unfolding InPlace
extend-InPlace d size larger_size sized = (
  record { addr = d.addr; bytes = d.buf ++ replicate (size - d.size) 0 },
  refl,
  record {
    sized =
        length-append d.buf (replicate (size - d.size) 0)
        ∙ omega (arith, length-replicate {A = ℕ} (size - d.size) 0);
    kept = take-length_append d.buf (replicate (size - d.size) 0);
  },
  refl,
)

zero_code_round_trip_example :
    (d1 : Dbuf) × (d2 : Dbuf) × (zero_encode_packet (some (fresh 10)) true run_of_zeros
      ≡ some (some d1))
    × (zero_decode_packet (some (fresh 3000)) true extend d1 ≡ some (some d2))
    × (content d2 ≡ content run_of_zeros)
zero_code_round_trip_example =
    zero_code_round_trip (fresh 10) (fresh 3000) extend run_of_zeros-IsDbuf (omega arith) refl
      (length-replicate {A = ℕ} 3000 7) run_no_acks run_short extend-InPlace

abbrev ten_bytes : List ℕ
ten_bytes = replicate 10 7

header_example :
    (pkt' : List ℕ) × (header_udp ten_bytes 5 low 64 ≡ some pkt')
    × Heads pkt' 64 low 5
    × (drop 10 pkt' ≡ drop 10 ten_bytes)
header_example =
    header_round_trip ten_bytes 5 low 64 (omega arith) (omega arith) (inl (refl, omega arith))

-- A packet whose body is the code of a byte and three zeros.
abbrev coded_packet : Dbuf
coded_packet = packet (128 ∷ 0 ∷ 0 ∷ 0 ∷ 1 ∷ 0 ∷ 9 ∷ 0 ∷ 3 ∷ [])

coded_packet-IsDbuf : IsDbuf coded_packet
coded_packet-IsDbuf = record {
  signed = refl;
  saved = refl;
  sized = refl;
  fits = omega arith;
  grows = omega arith;
}

coded_packet-is_code : is_code (body coded_packet) ≡ true
unfolding body is_code
coded_packet-is_code = refl

coded_packet-small : 3000 + length (decoded (body coded_packet)) + 65536 < int_limit
unfolding body decoded
coded_packet-small = omega arith

zero_decode_example :
    (d1 : Dbuf) × (zero_decode_packet (some (fresh 3000)) true extend coded_packet ≡ some (some d1))
    × (content d1 ≡ take 6 coded_packet.buf ++ decoded (body coded_packet))
    × (length (content d1) < int_limit)
zero_decode_example =
    zero_decode_in_range (fresh 3000) extend coded_packet-IsDbuf (omega arith)
      (length-replicate {A = ℕ} 3000 7) coded_packet-is_code extend-InPlace coded_packet-small

flags_example :
    SetsOnly set_reliable is_reliable is_zero_coded has_acks 0x90 (1 ∷ 2 ∷ []) true
    × SetsOnly set_zero_coded is_zero_coded is_reliable has_acks 0x90 (1 ∷ 2 ∷ []) true
    × SetsOnly set_has_acks has_acks is_reliable is_zero_coded 0x90 (1 ∷ 2 ∷ []) true
flags_example = flags_independent 0x90 (1 ∷ 2 ∷ []) true (omega arith)
