-- ===== src/Fmv/ZeroCode/RoundTrip.antt =====
-- `ZeroEncodePacket` and `ZeroDecodePacket` of fmv_src/sta_fmv.c against the coding of lists, and one
-- after the other.
use cosimus.Base.{
  ℕ, ◌+◌, ◌-◌, ◌≤◌, ◌<◌, ◌≡◌, refl, sym, ap, ◌∙◌, true, false, some, List, ◌++◌, length, take, drop,
  arith, append-nil, take-append-drop, peek_all-take, poke_all-overwrite, length-take_le,
  length-append, take-take, drop-take, take-length_append, drop-length_append,
}
use cosimus.Dbuf.{Block, Dbuf, dalloc-some, new_dbuf}
use cosimus.Dbuf.Grow.{IsDbuf, content, int_limit}
use cosimus.Fmv.ZeroCode.{Realloc}
use cosimus.Fmv.ZeroCode.RunLength.{decoded, is_code}
use cosimus.Fmv.ZeroCode.{decode_dbuf, zero_decode_packet}
use cosimus.Dbuf.Append.Copies.{part}
use cosimus.Fmv.ZeroCode.Unpack.{
  InPlace, put_all-Filled, body, unpacking, unpacking-Room, unpacking_head, decode_loop-body,
  head_length,
}
use cosimus.Fmv.Header.{has_acks}
use cosimus.Fmv.ZeroCode.RunLength.{coded, decoded-coded, is_code-coded}
use cosimus.Fmv.ZeroCode.{body_length, zero_encode_packet}
use cosimus.Fmv.ZeroCode.Packet.{zero_code, zero_encode_fits}

-- `ZeroDecodePacket` of a whole code, on unbounded numbers.
pub zero_decode-InPlace :
    {d : Dbuf} (b : Block) (realloc : Realloc)
    → IsDbuf d
    → 6 ≤ d.dsize
    → length b.bytes ≡ 3000
    → is_code (body d) ≡ true
    → InPlace realloc
    → (d1 : Dbuf) × (zero_decode_packet (some b) true realloc d ≡ some (some d1))
      × (content d1 ≡ take 6 d.buf ++ decoded (body d))
unfolding zero_decode_packet decode_dbuf new_dbuf
zero_decode-InPlace {d} b realloc v long size code stays =
    let (u, ran, f) =
      put_all-Filled realloc b.addr (decoded (body d)) (unpacking b realloc v long size code) stays
        (unpacking-Room b realloc v long size code) in
    let head = head_length b realloc v long size code in
    (
      record u.out { dsize = u.zerolen },
      rw
          (
            dalloc-some b 3000 (omega arith),
            peek_all-take d.buf 6 (omega (arith, v.sized, v.fits)),
            poke_all-overwrite b.bytes 0 (take 6 d.buf) (omega (arith, head, size)),
            decode_loop-body b realloc v long size code,
            ran,
          )
          refl,
      f.filled ∙ ap (λ t. t ++ decoded (body d)) (unpacking_head b realloc v long size code),
    )

-- While what the code stands for leaves `int`s for the lengths and sizes, with the 3000 bytes of the
-- first block and 65536 more to grow by: `ZeroDecodePacket` of a packet of at least six bytes whose body
-- is a whole code gives a buffer that holds the header and then what the code stands for, with a size of
-- data that is an `int`, provided that `realloc` always gives a block at the same address.
pub zero_decode_in_range :
    {d : Dbuf} (b : Block) (realloc : Realloc)
    → IsDbuf d
    → 6 ≤ d.dsize
    → length b.bytes ≡ 3000
    → is_code (body d) ≡ true
    → InPlace realloc
    → 3000 + length (decoded (body d)) + 65536 < int_limit
    → (d1 : Dbuf) × (zero_decode_packet (some b) true realloc d ≡ some (some d1))
      × (content d1 ≡ take 6 d.buf ++ decoded (body d))
      × (length (content d1) < int_limit)
zero_decode_in_range {d} b realloc v long size code stays small =
    let (d1, ran, holds) = zero_decode-InPlace b realloc v long size code stays in
    let head = head_length b realloc v long size code in
    let whole = ap length holds ∙ length-append (take 6 d.buf) (decoded (body d)) in
    (d1, ran, holds, omega (arith, whole, head, small))

-- The parts of a packet that holds `head ++ code`.
content-parts :
    (d : Dbuf) (head code : List ℕ)
    → length head ≡ 6
    → 6 ≤ d.dsize
    → content d ≡ head ++ code
    → (take 6 d.buf ≡ head) × (body d ≡ code)
unfolding body
content-parts d head code six long e = (
  sym (take-take 6 d.dsize d.buf long) ∙ ap (take 6) e ∙ rw (← six) (take-length_append head code),
  sym (drop-take 6 d.dsize d.buf) ∙ ap (drop 6) e ∙ rw (← six) (drop-length_append head code),
)

header-body : (d : Dbuf) → 6 ≤ d.dsize → take 6 d.buf ++ body d ≡ content d
unfolding body
header-body d long =
    ap (λ t. t ++ body d) (sym (take-take 6 d.dsize d.buf long))
    ∙ ap (λ t. take 6 (content d) ++ t) (sym (drop-take 6 d.dsize d.buf))
    ∙ take-append-drop 6 (content d)

zero_code_no_acks :
    (d : Dbuf) → 6 ≤ d.dsize → zero_code d d.dsize ≡ take 6 d.buf ++ coded 0 (body d)
unfolding zero_code body
zero_code_no_acks d long =
    ap (λ t. take 6 d.buf ++ t)
      (ap (λ k. coded 0 (part d 6 (d.dsize - 6)) ++ part d (6 + (d.dsize - 6)) k) nothing_left
        ∙ append-nil (coded 0 (part d 6 (d.dsize - 6))))
  where
    nothing_left : d.dsize - (6 + (d.dsize - 6)) ≡ 0
    nothing_left = omega arith

-- A packet without appended acknowledgements, of at least six bytes, and whose code is not longer
-- than it is: `ZeroDecodePacket` of what `ZeroEncodePacket` makes of it holds the same bytes, if
-- `realloc` always gives a block at the same address.
pub zero_code_round_trip :
    {d : Dbuf} (b b' : Block) (realloc : Realloc)
    → IsDbuf d
    → 6 ≤ d.dsize
    → length b.bytes ≡ d.dsize
    → length b'.bytes ≡ 3000
    → has_acks d.buf ≡ some false
    → 6 + length (coded 0 (body d)) ≤ d.dsize
    → InPlace realloc
    → (d1 : Dbuf) × (d2 : Dbuf) × (zero_encode_packet (some b) true d ≡ some (some d1))
      × (zero_decode_packet (some b') true realloc d1 ≡ some (some d2))
      × (content d2 ≡ content d)
zero_code_round_trip {d} b b' realloc v long size size' plain fit stays =
    let head : length (take 6 d.buf) ≡ 6 =
      length-take_le 6 d.buf (omega (arith, v.sized, v.fits)) in
    let code = zero_code_no_acks d long in
    let sum = length-append (take 6 d.buf) (coded 0 (body d)) in
    let (d1, encoded, v1, holds) =
      zero_encode_fits b d.dsize v long size (unfold body_length in rw plain refl)
        (omega (arith, ap length code, sum, head)) in
    let packet = holds ∙ code in
    let held = length-take_le d1.dsize d1.buf (rw (← v1.sized) v1.fits) in
    let enough : 6 ≤ d1.dsize = omega (arith, held, ap length packet, sum, head) in
    let (same_head, same_body) =
      content-parts d1 (take 6 d.buf) (coded 0 (body d)) head enough packet in
    let (d2, decoded_again, holds') =
      zero_decode-InPlace b' realloc v1 enough size'
        (ap is_code same_body ∙ is_code-coded 0 (body d)) stays in
    (
      d1,
      d2,
      encoded,
      decoded_again,
      holds'
          ∙ ap (λ t. t ++ decoded (body d1)) same_head
          ∙ ap (λ t. take 6 d.buf ++ decoded t) same_body
          ∙ ap (λ t. take 6 d.buf ++ t) (decoded-coded 0 (body d))
          ∙ header-body d long,
    )
