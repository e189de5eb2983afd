-- ===== src/Examples/Fields.antt =====
-- Tests: the fields of a packet at concrete values.
use cosimus.Base.{
  ℕ, ◌+◌, ◌*◌, ◌≡◌, refl, true, false, none, some, List, [], ◌∷◌, ◌/◌, ◌%◌, pos, replicate, reverse,
  arith,
}
use cosimus.Fmv.Cursor.{Cursor, written, back_to}
use cosimus.Fmv.Floats.{F32, F64}
use cosimus.Fmv.Acks.{append_acks, get_acks}
use cosimus.Fmv.Acks.RoundTrip.{appended, append_acks-get_acks}
use cosimus.Fmv.Blobs.{variable2_udp, udp_variable2}
use cosimus.Fmv.Blobs.RoundTrip.{variable2_round_trip}
use cosimus.Fmv.Uuid.{Uuid}
use cosimus.Fmv.Uuid.RoundTrip.{IsUuid}

abbrev blank : Cursor
blank = record { mem = replicate 40 0; pos = 2 }

abbrev one_float : F32
one_float = (0, 0, 128, 63)

abbrev one_double : F64
one_double = (0, 0, 0, 0, 0, 0, 240, 63)

abbrev two_acks : List ℕ
two_acks = 70000 ∷ 5 ∷ []

acks_example :
    (b' : ℕ) × (append_acks two_acks 2 (64 ∷ replicate 30 0) 10
      ≡ some (10 + 4 * 2 + 1, b' ∷ appended (replicate 30 0) 9 two_acks 2))
    × (get_acks 8 (b' ∷ appended (replicate 30 0) 9 two_acks 2) (10 + 4 * 2)
        ≡ some (2, reverse two_acks))
acks_example =
    append_acks-get_acks 64 (replicate 30 0) two_acks 9 2 8 (omega arith) refl (omega arith)
      (omega arith) (omega arith) (omega arith, (omega arith, tt)) (omega arith)

abbrev three_bytes : List ℕ
three_bytes = 7 ∷ 8 ∷ 9 ∷ []

variable2_example :
    (variable2_udp (pos 3) three_bytes blank 40
      ≡ some (pos 0, written blank (3 % 256 ∷ 3 / 256 ∷ three_bytes)))
    × (udp_variable2 true 3 (back_to blank (written blank (3 % 256 ∷ 3 / 256 ∷ three_bytes)))
        ≡ some (3, some (7 ∷ 8 ∷ []), written blank (3 % 256 ∷ 3 / 256 ∷ three_bytes)))
    × (udp_variable2 false 2 (back_to blank (written blank (3 % 256 ∷ 3 / 256 ∷ three_bytes)))
        ≡ some (3, none, back_to blank (written blank (3 % 256 ∷ 3 / 256 ∷ three_bytes))))
variable2_example =
    variable2_round_trip three_bytes 3 2 blank 40 refl (omega arith) (omega arith) (omega arith)

abbrev some_uuid : Uuid
some_uuid = record {
  time_low = 4000000000;
  time_mid = 40000;
  time_hi_and_version = 513;
  clock_seq_hi_and_reserved = 200;
  clock_seq_low = 3;
  node = 1 ∷ 2 ∷ 3 ∷ 4 ∷ 5 ∷ 6 ∷ [];
}

some_uuid-IsUuid : IsUuid some_uuid
some_uuid-IsUuid = record {
  low = omega arith;
  mid = omega arith;
  high = omega arith;
  seq_high = omega arith;
  seq_low = omega arith;
  six = refl;
}
