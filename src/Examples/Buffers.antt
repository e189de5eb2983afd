-- ===== src/Examples/Buffers.antt =====
-- Tests: appending, scanning and zero decoding at concrete values.
use cosimus.Base.{
  ℕ, zero, suc, ◌+◌, ◌<◌, ◌≡◌, refl, true, none, some, List, [], ◌∷◌, arith, replicate, pos, length,
  length-replicate,
}
use cosimus.Dbuf.{Block, Dbuf}
use cosimus.Dbuf.Grow.{IsDbuf, Reallocs}
use cosimus.Dbuf.Append.{cat_delta}
use cosimus.Dbuf.Scan.{
  dmemscan, dmemcasescan, is_char, lower_char, tolower, FirstStop, dmemscan_first,
}
use cosimus.Fmv.ZeroCode.{Realloc, zero_decode_packet}
use cosimus.Fmv.ZeroCode.RunLength.{decoded, is_code}
use cosimus.Fmv.ZeroCode.Unpack.{body}
use cosimus.Fmv.ZeroCode.Moved.{Moves, zero_decode_moved}
use cosimus.Examples.{two_bytes, two_bytes-IsDbuf, fresh, packet}

-- The same buffer, growing by four bytes.
abbrev slow : Dbuf
slow = record two_bytes { growsize = 4 }

slow-IsDbuf : IsDbuf slow
slow-IsDbuf = record {
  signed = refl;
  saved = refl;
  sized = refl;
  fits = omega arith;
  grows = omega arith;
}

abbrev regrown : ℕ → Block
regrown n = record { addr = 80; bytes = 65 ∷ 66 ∷ 0 ∷ replicate n 1 }

slow-Reallocs : Reallocs slow (slow.size + cat_delta slow 2) (regrown (cat_delta slow 2))
slow-Reallocs = record { sized = refl; kept = refl }

dmemscan_example :
    ((i : ℕ) × (dmemscan two_bytes (pos 66) 0 ≡ some i)
      × FirstStop (is_char (pos 66)) two_bytes.buf 0 2 i)
    × ((i : ℕ) × (dmemcasescan two_bytes (pos 66) 0 ≡ some i)
        × FirstStop (λ b. is_char (lower_char (pos 66)) (tolower b)) two_bytes.buf 0 2 i)
dmemscan_example = dmemscan_first (pos 66) 0 two_bytes-IsDbuf (omega arith)

-- Twelve full runs of zeros.
abbrev many_runs : ℕ → List ℕ
many_runs zero = []
many_runs (suc n) = 0 ∷ 255 ∷ many_runs n

abbrev long_packet : Dbuf
long_packet = packet (128 ∷ 0 ∷ 0 ∷ 0 ∷ 1 ∷ 0 ∷ many_runs 12)

long_packet-IsDbuf : IsDbuf long_packet
long_packet-IsDbuf = record {
  signed = refl;
  saved = refl;
  sized = refl;
  fits = omega arith;
  grows = omega arith;
}

long_packet-is_code : is_code (body long_packet) ≡ true
unfolding body is_code
long_packet-is_code = refl

long_packet_large : 2985 < length (decoded (body long_packet))
unfolding body decoded
long_packet_large = omega arith

abbrev elsewhere : Realloc
elsewhere d size = some (record { addr = suc d.addr; bytes = [] })

elsewhere-Moves : Moves elsewhere
unfolding Moves
elsewhere-Moves d size = (record { addr = suc d.addr; bytes = [] }, refl, omega arith)

zero_decode_moved_example : zero_decode_packet (some (fresh 3000)) true elsewhere long_packet ≡ none
zero_decode_moved_example =
    zero_decode_moved (fresh 3000) elsewhere long_packet-IsDbuf (omega arith)
      (length-replicate {A = ℕ} 3000 7) long_packet-is_code elsewhere-Moves long_packet_large
