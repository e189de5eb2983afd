-- ===== src/Fmv/ZeroCode/Packet.antt =====
-- `ZeroEncodePacket` of fmv_src/sta_fmv.c on a whole packet: the header, the code of the body and
-- the acknowledgements behind it.
use cosimus.Base.{
  ℕ, ◌+◌, ◌-◌, ◌≤◌, ◌<◌, ◌≡◌, refl, sym, ap, ◌∙◌, true, none, some, List, ◌++◌, overwrite, length,
  take, drop, ◌>>=◌, arith, take-append-drop, peek_all-take, poke_all-overwrite, length-take_le,
  length-overwrite, take-overwrite, length-append, >>=_ext, >>=_assoc,
}
use cosimus.Fmv.ZeroCode.{Output, flush, encode_loop, copy_loop}
use cosimus.Fmv.ZeroCode.Emit.{emit_all, emit_all-append, emit_all-Emitted, emit_all_fault}
use cosimus.Fmv.ZeroCode.{encode_into, body_length, encode_dbuf, zero_encode_packet}
use cosimus.Fmv.Header.{has_acks}
use cosimus.Dbuf.{Block, Dbuf, dalloc-some, new_dbuf, dsetsig}
use cosimus.Dbuf.Grow.{IsDbuf, content}
use cosimus.Dbuf.Append.Copies.{part, length-part}
use cosimus.Fmv.ZeroCode.Encode.{encode_loop-coded, copy_loop-emit_all}
use cosimus.Fmv.ZeroCode.RunLength.{coded}

-- The packet that is to be sent: the header, the code of the body, which ends before byte `n`, and
-- the acknowledgements behind it as they are.
unfoldable pub zero_code : Dbuf → ℕ → List ℕ
zero_code d n =
    take 6 d.buf ++ (coded 0 (part d 6 (n - 6)) ++ part d (6 + (n - 6)) (d.dsize - (6 + (n - 6))))

body_length-le : (src : List ℕ) (srclen n : ℕ) → body_length src srclen ≡ some n → n ≤ srclen
unfolding body_length has_acks
body_length-le src srclen n e = ground arith

-- The two loops with the bytes that they read.
encode_part :
    (xs tail src : List ℕ) (left i : ℕ) (o : Output)
    → length xs ≡ left
    → drop i src ≡ xs ++ tail
    → (encode_loop left i src 0 o >>= λ (z, o'). flush z o') ≡ emit_all (coded 0 xs) o
encode_part xs tail src left i o len e =
    rw (← len) (encode_loop-coded xs tail src i 0 o e (omega arith))

copy_part :
    (xs tail src : List ℕ) (left i : ℕ) (o : Output)
    → length xs ≡ left
    → drop i src ≡ xs ++ tail
    → copy_loop left i src o ≡ emit_all xs o
copy_part xs tail src left i o len e = rw (← len) (copy_loop-emit_all xs tail src i o e)

part-append-drop : (d : Dbuf) (i len : ℕ) → drop i d.buf ≡ part d i len ++ drop len (drop i d.buf)
part-append-drop d i len = sym (take-append-drop len (drop i d.buf))

module _ {d : Dbuf} (b : Block) (n : ℕ) (v : IsDbuf d) (long : 6 ≤ d.dsize)
    (size : length b.bytes ≡ d.dsize) (body : body_length d.buf d.dsize ≡ some n) where
  abbrev start : Output
  start = record { dest = overwrite b.bytes 0 (take 6 d.buf); zerolen = 6 }

  abbrev coding : List ℕ
  coding = coded 0 (part d 6 (n - 6)) ++ part d (6 + (n - 6)) (d.dsize - (6 + (n - 6)))

  head_length : length (take 6 d.buf) ≡ 6
  head_length = length-take_le 6 d.buf (omega (arith, v.sized, v.fits))

  start_block : length start.dest ≡ d.dsize
  start_block = length-overwrite b.bytes 0 (take 6 d.buf) ∙ size

  start_head : take 6 start.dest ≡ take 6 d.buf
  start_head =
      let six : 6 ≡ 0 + length (take 6 d.buf) = omega (arith, head_length) in
      ap (λ k. take k start.dest) six
      ∙ take-overwrite b.bytes 0 (take 6 d.buf) (omega (arith, head_length))

  code_length : length (zero_code d n) ≡ 6 + length coding
  unfolding zero_code
  code_length = length-append (take 6 d.buf) coding ∙ ap (λ k. k + length coding) head_length

  encode_into-emit_all : encode_into d.buf d.dsize b.bytes ≡ emit_all coding start
  unfolding encode_into
  encode_into-emit_all =
      let short = body_length-le d.buf d.dsize n body in
      let i = 6 + (n - 6) in
      let rest = d.dsize - i in
      rw
        (
          peek_all-take d.buf 6 (omega (arith, v.sized, v.fits)),
          poke_all-overwrite b.bytes 0 (take 6 d.buf) (omega (arith, head_length)),
          body,
        )
        (sym (
            >>=_assoc (encode_loop (n - 6) 6 d.buf 0 start) (λ p. flush p.0 p.1)
              (copy_loop rest i d.buf))
          ∙ rw
              (encode_part (part d 6 (n - 6)) _ d.buf (n - 6) 6 start
                (length-part d 6 (n - 6) v (omega arith)) (part-append-drop d 6 (n - 6)))
              (>>=_ext (emit_all (coded 0 (part d 6 (n - 6))) start) _ _ (λ o.
                  copy_part (part d i rest) _ d.buf rest i o (length-part d i rest v (omega arith))
                    (part-append-drop d i rest))
                ∙ sym (emit_all-append _ _ start)))

-- When the acknowledgements leave `n` bytes and the packet's code is not longer than the packet,
-- `ZeroEncodePacket` gives a valid buffer that holds the code: the header, the coded body and the
-- acknowledgements.
pub zero_encode_fits :
    {d : Dbuf} (b : Block) (n : ℕ)
    → IsDbuf d
    → 6 ≤ d.dsize
    → length b.bytes ≡ d.dsize
    → body_length d.buf d.dsize ≡ some n
    → length (zero_code d n) ≤ d.dsize
    → (d1 : Dbuf) × (zero_encode_packet (some b) true d ≡ some (some d1))
      × IsDbuf d1
      × (content d1 ≡ zero_code d n)
unfolding zero_encode_packet encode_dbuf new_dbuf dsetsig zero_code
zero_encode_fits {d} b n v long size body fit =
    let c = code_length b n v long size body in
    let k = start_block b n v long size body in
    let (o, ran, w) =
      emit_all-Emitted (coding b n v long size body) (start b n v long size body)
        (omega (arith, c, k)) in
    (
      record (new_dbuf b d.dsize) { buf = o.dest; dsize = o.zerolen },
      rw (dalloc-some b d.dsize (omega arith), encode_into-emit_all b n v long size body, ran) refl,
      record {
        signed = refl;
        saved = refl;
        sized = sym (w.block ∙ k);
        fits = omega (arith, w.longer, c);
        grows = omega arith;
      },
      w.filled ∙ ap (λ t. t ++ coding b n v long size body) (start_head b n v long size body),
    )

-- When the code of a packet is longer than the packet, `ZeroEncodePacket` writes past the end of the
-- new buffer.
pub zero_encode_overflows :
    {d : Dbuf} (b : Block) (n : ℕ)
    → IsDbuf d
    → 6 ≤ d.dsize
    → length b.bytes ≡ d.dsize
    → body_length d.buf d.dsize ≡ some n
    → d.dsize < length (zero_code d n)
    → zero_encode_packet (some b) true d ≡ none
unfolding zero_encode_packet encode_dbuf new_dbuf
zero_encode_overflows {d} b n v long size body full =
    let c = code_length b n v long size body in
    let k = start_block b n v long size body in
    rw (
      dalloc-some b d.dsize (omega arith),
      encode_into-emit_all b n v long size body,
      emit_all_fault (coding b n v long size body) (start b n v long size body) (omega (arith, k))
          (omega (arith, k, c)),
    )
