-- ===== src/Fmv/ZeroCode/Moved.antt =====
-- `ZeroDecodePacket` of fmv_src/sta_fmv.c when `realloc` gives another block: `dest` still points to
-- the one that was given back.
use cosimus.Base.{
  ℕ, ◌+◌, ◌≤◌, ◌<◌, ◌≡◌, ◌≢◌, ltb→lt, ltb→le, refl, sym, ◌∙◌, inl, inr, true, false, none, some,
  List, [], ◌∷◌, length, take, ltb, ◌==◌, ==_iff, Bool-cases, ◌>>=◌, arith, lt→ltb, le→ltb, set,
  length-set, peek_all-take, poke_all-overwrite,
}
use cosimus.Dbuf.{Block, Dbuf, dalloc-some, new_dbuf, dsetsig}
use cosimus.Dbuf.Grow.{IsDbuf, dgrow, dresize, dchecksig-IsDbuf}
use cosimus.Dbuf.{dchecksig}
use cosimus.Fmv.ZeroCode.{Realloc, must_grow, checkspace, Unpacked, put}
use cosimus.Fmv.ZeroCode.RunLength.{decoded, is_code}
use cosimus.Fmv.ZeroCode.{decode_dbuf, zero_decode_packet}
use cosimus.Fmv.ZeroCode.Decode.{put_all}
use cosimus.Fmv.ZeroCode.Unpack.{
  Room, body, unpacking, unpacking-Room, decode_loop-body, head_length,
}

-- `realloc` always finds another place.
unfoldable pub Moves : Realloc → Type 0
Moves realloc = (d : Dbuf) (size : ℕ) → (b : Block) × (realloc d size ≡ some b) × (b.addr ≢ d.addr)

-- What one more byte makes of a block that is large enough for now.
put_more :
    (realloc : Realloc) (dest b : ℕ) (u : Unpacked)
    → Room dest u
    → u.zerolen + 11 ≤ u.out.size
    → (put realloc dest b u
        ≡ some (record {
          out = record u.out { buf = set u.out.buf u.zerolen b };
          zerolen = u.zerolen + 1;
        }))
      × Room dest (record {
        out = record u.out { buf = set u.out.buf u.zerolen b };
        zerolen = u.zerolen + 1;
      })
unfolding put checkspace
put_more realloc dest b u w h =
    let v = w.valid in
    (
      rw
          (
            (==_iff u.out.addr dest).1 w.here,
            lt→ltb u.zerolen (length u.out.buf) (omega (arith, v.sized)),
            le→ltb u.out.size (u.zerolen + 1 + 10) (omega arith),
          )
          refl,
      record {
        valid = record {
          signed = v.signed;
          saved = v.saved;
          sized = v.sized ∙ sym (length-set u.out.buf u.zerolen b);
          fits = v.fits;
          grows = v.grows;
        };
        here = w.here;
        room = omega arith;
      },
    )

-- The byte that makes the buffer grow leaves a bad pointer behind.
put_moved :
    (realloc : Realloc) (dest b : ℕ) (bs : List ℕ) (u : Unpacked)
    → Room dest u
    → Moves realloc
    → u.out.size < u.zerolen + 11
    → 0 < length bs
    → (put realloc dest b u >>= put_all realloc dest bs) ≡ none
unfolding put checkspace must_grow dgrow dresize dsetsig put_all Moves
put_moved realloc dest b [] u w moves full some_left = absurd (omega arith)
put_moved realloc dest b (x ∷ bs) u w moves full some_left =
    let v = w.valid in
    let m = set u.out.buf u.zerolen b in
    let (k, answer, other) = moves (record u.out { buf = m }) (u.out.size + 1024) in
    let marks : dchecksig (record u.out { buf = m }) ≡ true =
      unfold dchecksig in dchecksig-IsDbuf v in
    let bad : (k.addr == dest) ≡ false = elim (Bool-cases (k.addr == dest)) [
      | inl same ↦ absurd (other ((==_iff k.addr dest).0 same ∙ sym w.here))
      | inr differs ↦ differs
    ] in
    rw (
      (==_iff u.out.addr dest).1 w.here,
      lt→ltb u.zerolen (length u.out.buf) (omega (arith, v.sized, w.room)),
      lt→ltb u.out.size (u.zerolen + 1 + 10) (omega arith),
      answer,
      marks,
      le→ltb (u.out.size + 1024) u.out.size (omega arith),
      bad,
    )

put_all_moved :
    (realloc : Realloc) (dest : ℕ) (bs : List ℕ) (u : Unpacked)
    → Room dest u
    → Moves realloc
    → u.out.size < u.zerolen + length bs + 9
    → put_all realloc dest bs u ≡ none
unfolding put_all
put_all_moved realloc dest [] u w moves h = absurd (omega (arith, w.room))
put_all_moved realloc dest (b ∷ bs) u w moves h =
    elim (Bool-cases (ltb u.out.size (u.zerolen + 11))) [
      | inl full ↦
          put_moved realloc dest b bs u w moves (ltb→lt u.out.size (u.zerolen + 11) full)
            (omega (arith, w.room))
      | inr more ↦
          let (ran, again) =
            put_more realloc dest b u w (ltb→le u.out.size (u.zerolen + 11) more) in
          rw ran (put_all_moved realloc dest bs _ again moves (omega arith))
    ]

-- When a packet's body is a whole code that stands for more than 2985 bytes, and `realloc` gives a
-- block elsewhere, `ZeroDecodePacket` writes through the pointer to the block that is gone.
pub zero_decode_moved :
    {d : Dbuf} (b : Block) (realloc : Realloc)
    → IsDbuf d
    → 6 ≤ d.dsize
    → length b.bytes ≡ 3000
    → is_code (body d) ≡ true
    → Moves realloc
    → 2985 < length (decoded (body d))
    → zero_decode_packet (some b) true realloc d ≡ none
unfolding zero_decode_packet decode_dbuf new_dbuf
zero_decode_moved {d} b realloc v long size code moves large =
    let head = head_length b realloc v long size code in
    rw (
      dalloc-some b 3000 (omega arith),
      peek_all-take d.buf 6 (omega (arith, v.sized, v.fits)),
      poke_all-overwrite b.bytes 0 (take 6 d.buf) (omega (arith, head, size)),
      decode_loop-body b realloc v long size code,
      put_all_moved realloc b.addr (decoded (body d)) (unpacking b realloc v long size code)
          (unpacking-Room b realloc v long size code) moves (omega arith),
    )
