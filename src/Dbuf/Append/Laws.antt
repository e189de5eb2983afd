-- ===== src/Dbuf/Append/Laws.antt =====
-- Appending is list append: what each operation does to the bytes that a buffer holds.
use cosimus.Base.{
  ℕ, ◌+◌, ◌≤◌, ◌<◌, ◌≡◌, refl, ap, ◌∙◌, sym, Bool, true, false, Option, none, some, List, ◌++◌,
  length, take, overwrite, length-overwrite, poke_all-overwrite, take-overwrite, Bool-cases, inl,
  inr, ltb, leb, ◌==◌, arith, pos, peek_all-take, length-take_le, length-set, set, peek, lt→ltb,
  take-set_same, get_elem?-set_self,
}
use native.Mathlib.Nat.{div-add-mod, mod-lt}
use cosimus.Dbuf.{Block, Dbuf}
use cosimus.Dbuf.Grow.{IsDbuf, content, Reallocs, dgrow-Grown, dgrow-none, dchecksig-IsDbuf}
use cosimus.Dbuf.Append.{append_bytes, cat_delta, make_room, memcat_sized, dmemcat, dstrcat}

-- `d'` is `d` with the bytes `bs` appended, valid, under the same lock count.
pub record Appended (d : Dbuf) (bs : List ℕ) (d' : Dbuf) : Type 0 where
  pub valid : IsDbuf d'
  pub holds : content d' ≡ content d ++ bs
  pub dsize : d'.dsize ≡ d.dsize + length bs
  pub lock : d'.lock ≡ d.lock

-- The write behind the data, in a buffer with room for it.
unfoldable pub put_behind : Dbuf → List ℕ → Dbuf
put_behind d bs = record d { buf = overwrite d.buf d.dsize bs; dsize = d.dsize + length bs }

pub put_behind-Appended :
    (d : Dbuf) (bs : List ℕ)
    → IsDbuf d
    → d.dsize + length bs ≤ d.size
    → Appended d bs (put_behind d bs)
unfolding put_behind
put_behind-Appended d bs v room = record {
  valid = record {
    signed = v.signed;
    saved = v.saved;
    sized = v.sized ∙ sym (length-overwrite d.buf d.dsize bs);
    fits = room;
    grows = v.grows;
  };
  holds = take-overwrite d.buf d.dsize bs (rw (← v.sized) room);
  dsize = refl;
  lock = refl;
}

append_bytes-put_behind :
    (d : Dbuf) (str : List ℕ) (n : ℕ)
    → IsDbuf d
    → d.dsize + n ≤ d.size
    → n ≤ length str
    → append_bytes d str n ≡ some (put_behind d (take n str))
unfolding append_bytes put_behind
append_bytes-put_behind d str n v room enough =
    let len = length-take_le n str enough in
    rw (
      peek_all-take str n enough,
      poke_all-overwrite d.buf d.dsize (take n str) (rw (len, ← v.sized) room),
      len,
    )

cat_delta-lt : (d : Dbuf) (n : ℕ) → 0 < d.growsize → n + 1 < cat_delta d n
cat_delta-lt d n h = grind (arith, div-add-mod (1 + n) d.growsize, mod-lt (1 + n) h)

-- After `make_room`: valid, the same data, and room for `n` bytes and one more.
record Roomy (d : Dbuf) (n : ℕ) (d' : Dbuf) : Type 0 where
  valid : IsDbuf d'
  same : content d' ≡ content d
  dsize : d'.dsize ≡ d.dsize
  lock : d'.lock ≡ d.lock
  room : d'.dsize + n + 1 ≤ d'.size

make_room-Roomy :
    (d : Dbuf) (b : Block) (n : ℕ)
    → IsDbuf d
    → Reallocs d (d.size + cat_delta d n) b
    → (d' : Dbuf) × (make_room (some b) d n ≡ some (true, d')) × Roomy d n d'
unfolding make_room
make_room-Roomy d b n v r = elim (Bool-cases (ltb d.size (d.dsize + n + 1))) [
  | inl small ↦
      let (d', e, g) = (dgrow-Grown b (cat_delta d n) v r).0 in
      (
        d',
        rw (small, growing) e,
        record {
          valid = g.valid;
          same = g.same;
          dsize = g.dsize;
          lock = g.lock;
          room = omega (arith, v.fits, g.larger, g.dsize, cat_delta-lt d n v.grows);
        },
      )
  | inr large ↦ (
    d,
    rw large,
    record { valid = v; same = refl; dsize = refl; lock = refl; room = ground arith },
  )
]
  where
    growing : (d.growsize == 0) ≡ false
    growing = ground (arith, v.grows)

module _ {d : Dbuf} (b : Block) (str : List ℕ) (n : ℕ) (v : IsDbuf d)
    (r : Reallocs d (d.size + cat_delta d n) b) (enough : n ≤ length str) where
  memcat_sized-Appended :
      (d' : Dbuf) × (memcat_sized (some b) d str n ≡ some (true, d'))
      × Appended d (take n str) d'
      × (d'.dsize < d'.size)
  unfolding memcat_sized
  memcat_sized-Appended =
      let (d1, e, w) = make_room-Roomy d b n v r in
      let len = length-take_le n str enough in
      let a = put_behind-Appended d1 (take n str) w.valid (rw len (omega (arith, w.room))) in
      (
        put_behind d1 (take n str),
        rw (e, append_bytes-put_behind d1 str n w.valid (omega (arith, w.room)) enough),
        record {
          valid = a.valid;
          holds = a.holds ∙ ap (λ t. t ++ take n str) w.same;
          dsize = a.dsize ∙ ap (λ t. t + length (take n str)) w.dsize;
          lock = a.lock ∙ w.lock;
        },
        unfold put_behind in omega (arith, len, w.room),
      )

  -- When `realloc` answers, `dmemcat` returns 1: the buffer, valid and under the same lock count,
  -- holds what it held and then the first `n` bytes of `str`, and there is room for one byte more.
  pub dmemcat-Appended :
      (d' : Dbuf) × (dmemcat (some b) d str (pos n) ≡ some (true, d'))
      × Appended d (take n str) d'
      × (d'.dsize < d'.size)
  unfolding dmemcat
  dmemcat-Appended = rw (dchecksig-IsDbuf v) memcat_sized-Appended

  -- `dstrcat` returns 1, appends the first `n` bytes of `str` in the same way, and leaves a zero
  -- byte behind the data; it never asks for its spare growth.
  pub dstrcat-Appended :
      (spare : Option Block)
      → (d' : Dbuf) × (dstrcat (some b) spare d str (pos n) ≡ some (true, d'))
        × Appended d (take n str) d'
        × (peek d'.buf d'.dsize ≡ some 0)
  unfolding dstrcat
  dstrcat-Appended spare =
      let (d1, e, a, room) = dmemcat-Appended in
      let inside : d1.dsize < length d1.buf = rw (← a.valid.sized) room in
      (
        record d1 { buf = set d1.buf d1.dsize 0 },
        rw (e, leb_false room, lt→ltb _ _ inside),
        record {
          valid = record {
            signed = a.valid.signed;
            saved = a.valid.saved;
            sized = a.valid.sized ∙ sym (length-set d1.buf d1.dsize 0);
            fits = a.valid.fits;
            grows = a.valid.grows;
          };
          holds = take-set_same d1.buf d1.dsize 0 ∙ a.holds;
          dsize = a.dsize;
          lock = a.lock;
        },
        get_elem?-set_self d1.buf d1.dsize 0 inside,
      )
    where
      leb_false : {i j : ℕ} → i < j → leb j i ≡ false
      leb_false h = ground arith

-- When the buffer has no room and `realloc` fails, `dmemcat` returns 0 and changes nothing.
pub dmemcat_failed :
    {d : Dbuf} (str : List ℕ) (n : ℕ)
    → IsDbuf d
    → d.size < d.dsize + n + 1
    → dmemcat none d str (pos n) ≡ some (false, d)
unfolding dmemcat memcat_sized make_room
dmemcat_failed {d} str n v full =
    rw (dchecksig-IsDbuf v, lt→ltb _ _ full, growing, dgrow-none v (cat_delta d n))
  where
    growing : (d.growsize == 0) ≡ false
    growing = ground (arith, v.grows)

-- With or without an answer of `realloc`, `dstrcat` ends inside the block of a buffer with a free byte.
pub dstrcat-total :
    (mem spare : Option Block) (d : Dbuf) (str : List ℕ) (n : ℕ)
    → IsDbuf d
    → d.dsize < d.size
    → n ≤ length str
    → ((b : Block) → mem ≡ some b → Reallocs d (d.size + cat_delta d n) b)
    → (ok : Bool) × (d' : Dbuf) × (dstrcat mem spare d str (pos n) ≡ some (ok, d'))
unfolding dstrcat dmemcat memcat_sized make_room put_behind
dstrcat-total (some b) spare d str n v free enough r =
    let (d', run, a, end) = dstrcat-Appended b str n v (r b refl) enough spare in (true, d', run)
dstrcat-total none spare d str n v free enough r =
    elim (Bool-cases (ltb d.size (d.dsize + n + 1))) [
      | inl small ↦ (
        true,
        record d { buf = set d.buf d.dsize 0 },
        rw
            (
              dchecksig-IsDbuf v,
              small,
              growing,
              dgrow-none v (cat_delta d n),
              full d.size d.dsize free,
              lt→ltb _ _ inside,
            )
            refl,
      )
      | inr large ↦
          let d1 = put_behind d (take n str) in
          let len = length-take_le n str enough in
          let room : d.dsize + n < d.size = ground arith in
          (
            true,
            record d1 { buf = set d1.buf d1.dsize 0 },
            rw
                (
                  dchecksig-IsDbuf v,
                  large,
                  append_bytes-put_behind d str n v (omega arith) enough,
                  full d.size d1.dsize (omega arith),
                  lt→ltb d1.dsize (length d1.buf)
                      (omega (arith, len, length-overwrite d.buf d.dsize (take n str), v.sized)),
                )
                refl,
          )
    ]
  where
    growing : (d.growsize == 0) ≡ false
    growing = ground (arith, v.grows)

    inside : d.dsize < length d.buf
    inside = omega (arith, v.sized)

    full : (i j : ℕ) → j < i → leb i j ≡ false
    full i j h = ground arith
