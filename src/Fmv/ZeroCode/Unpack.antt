-- ===== src/Fmv/ZeroCode/Unpack.antt =====
-- `ZeroDecodePacket` of fmv_src/sta_fmv.c on a whole packet. Its pointer `dest` is read once, before
-- the buffer may grow.
use cosimus.Base.{
  ℕ, ◌+◌, ◌-◌, ◌≤◌, ◌<◌, ◌≡◌, refl, sym, ap, ◌∙◌, inl, inr, true, false, some, List, [], ◌∷◌, ◌++◌,
  overwrite, length, take, drop, ltb, ==_iff, Bool-cases, arith, append_assoc, append-nil, lt→ltb,
  le→ltb, set, length-set, take-set, take-append-drop, length-take_le, length-overwrite,
  take-overwrite, take-prefix,
}
use native.Mathlib.Numerals.{add-one}
use cosimus.Dbuf.{Block, Dbuf, new_dbuf, dsetsig}
use cosimus.Dbuf.Grow.{IsDbuf, Reallocs, dgrow, dresize, dchecksig-IsDbuf}
use cosimus.Fmv.ZeroCode.{Realloc, must_grow, checkspace, Unpacked, put, decode_loop}
use cosimus.Fmv.ZeroCode.RunLength.{decoded, is_code}
use cosimus.Fmv.ZeroCode.Decode.{put_all, decode_loop-put_all}
use cosimus.Dbuf.Append.Copies.{part, length-part}

-- `realloc` finds the room behind the block, so that the block stays where it is.
unfoldable pub InPlace : Realloc → Type 0
InPlace realloc =
    (d : Dbuf) (size : ℕ)
    → d.size ≤ size
    → d.size ≡ length d.buf
    → (b : Block) × (realloc d size ≡ some b) × Reallocs d size b × (b.addr ≡ d.addr)

-- The decoder's state between two bytes: the pointer is good, and ten bytes are free.
pub record Room (dest : ℕ) (u : Unpacked) : Type 0 where
  pub valid : IsDbuf u.out
  pub here : u.out.addr ≡ dest
  pub room : u.zerolen + 10 ≤ u.out.size

-- What putting `bs` makes of such a state.
pub record Filled (dest : ℕ) (u : Unpacked) (bs : List ℕ) (u' : Unpacked) : Type 0 where
  pub again : Room dest u'
  pub filled : take u'.zerolen u'.out.buf ≡ take u.zerolen u.out.buf ++ bs

-- `checkspace` on a valid buffer, when the block stays.
checkspace-lem :
    (realloc : Realloc) (d : Dbuf) (n : ℕ)
    → InPlace realloc
    → IsDbuf d
    → n ≤ d.size
    → (d' : Dbuf) × (checkspace realloc d n ≡ some d')
      × IsDbuf d'
      × (d'.addr ≡ d.addr)
      × (n + 10 ≤ d'.size)
      × (take n d'.buf ≡ take n d.buf)
unfolding checkspace must_grow dgrow dresize dsetsig InPlace
checkspace-lem realloc d n stays v h = elim (Bool-cases (ltb d.size (n + 10))) [
  | inl short ↦
      let (b, answer, r, same) = stays d (d.size + 1024) (omega arith) v.sized in
      (
        dsetsig (record d { size = d.size + 1024; addr = b.addr; buf = b.bytes }),
        rw (short, answer, dchecksig-IsDbuf v, le→ltb (d.size + 1024) d.size (omega arith)) refl,
        record {
          signed = refl;
          saved = refl;
          sized = sym r.sized;
          fits = omega (arith, v.fits);
          grows = v.grows;
        },
        same,
        omega arith,
        take-prefix n d.buf b.bytes (rw (← v.sized) h) r.kept,
      )
  | inr enough ↦ (d, rw enough refl, v, refl, ground arith, refl)
]

put-Filled :
    (realloc : Realloc) (dest b : ℕ) (u : Unpacked)
    → InPlace realloc
    → Room dest u
    → (u' : Unpacked) × (put realloc dest b u ≡ some u') × Filled dest u (b ∷ []) u'
unfolding put
put-Filled realloc dest b u stays w =
    let v = w.valid in
    let m = set u.out.buf u.zerolen b in
    let size : length m ≡ length u.out.buf = length-set u.out.buf u.zerolen b in
    let inside : u.zerolen < length u.out.buf = omega (arith, w.room, v.sized) in
    let v' : IsDbuf (record u.out { buf = m }) = record {
      signed = v.signed;
      saved = v.saved;
      sized = v.sized ∙ sym size;
      fits = v.fits;
      grows = v.grows;
    } in
    let (d', ran, valid, same, room, kept) =
      checkspace-lem realloc (record u.out { buf = m }) (u.zerolen + 1) stays v'
        (omega (arith, w.room)) in
    (
      record { out = d'; zerolen = u.zerolen + 1 },
      rw ((==_iff u.out.addr dest).1 w.here, lt→ltb _ _ inside, ran) refl,
      record {
        again = record { valid = valid; here = same ∙ w.here; room = room };
        filled =
            kept ∙ ap (λ n. take n m) (add-one u.zerolen) ∙ take-set u.out.buf u.zerolen b inside;
      },
    )

pub put_all-Filled :
    (realloc : Realloc) (dest : ℕ) (bs : List ℕ) (u : Unpacked)
    → InPlace realloc
    → Room dest u
    → (u' : Unpacked) × (put_all realloc dest bs u ≡ some u') × Filled dest u bs u'
unfolding put_all
put_all-Filled realloc dest [] u stays w =
    (u, refl, record { again = w; filled = sym (append-nil (take u.zerolen u.out.buf)) })
put_all-Filled realloc dest (b ∷ bs) u stays w =
    let (u1, ran, f) = put-Filled realloc dest b u stays w in
    let (u2, ran', f') = put_all-Filled realloc dest bs u1 stays f.again in
    (
      u2,
      rw ran ran',
      record {
        again = f'.again;
        filled =
            f'.filled
            ∙ ap (λ t. t ++ bs) f.filled
            ∙ append_assoc (take u.zerolen u.out.buf) (b ∷ []) bs;
      },
    )

-- The bytes behind the header.
unfoldable pub body : Dbuf → List ℕ
body d = part d 6 (d.dsize - 6)

module _ {d : Dbuf} (b : Block) (realloc : Realloc) (v : IsDbuf d) (long : 6 ≤ d.dsize)
    (size : length b.bytes ≡ 3000) (code : is_code (body d) ≡ true) where
  abbrev pub unpacking : Unpacked
  unpacking = record {
    out = record (new_dbuf b 3000) { buf = overwrite b.bytes 0 (take 6 d.buf) };
    zerolen = 6;
  }

  pub head_length : length (take 6 d.buf) ≡ 6
  head_length = length-take_le 6 d.buf (omega (arith, v.sized, v.fits))

  pub unpacking_head : take 6 unpacking.out.buf ≡ take 6 d.buf
  unpacking_head =
      let six : 6 ≡ 0 + length (take 6 d.buf) = omega (arith, head_length) in
      ap (λ k. take k unpacking.out.buf) six
      ∙ take-overwrite b.bytes 0 (take 6 d.buf) (omega (arith, head_length, size))

  pub unpacking-Room : Room b.addr unpacking
  unfolding new_dbuf dsetsig
  unpacking-Room = record {
    valid = record {
      signed = refl;
      saved = refl;
      sized = sym (length-overwrite b.bytes 0 (take 6 d.buf) ∙ size);
      fits = omega arith;
      grows = omega arith;
    };
    here = refl;
    room = omega arith;
  }

  pub decode_loop-body :
      decode_loop realloc b.addr d.buf (d.dsize - 6) 6 (false, unpacking)
      ≡ put_all realloc b.addr (decoded (body d)) unpacking
  unfolding body
  decode_loop-body =
      ap (λ left. decode_loop realloc b.addr d.buf left 6 (false, unpacking))
        (sym (length-part d 6 (d.dsize - 6) v (omega arith)))
      ∙ decode_loop-put_all realloc b.addr (body d) (drop (d.dsize - 6) (drop 6 d.buf)) d.buf 6
          unpacking (sym (take-append-drop (d.dsize - 6) (drop 6 d.buf))) code
