-- ===== src/Dbuf/Append/Copies.antt =====
-- Copies from one buffer to another, fills, and new buffers with a copy in them.
use cosimus.Base.{
  ℕ, zero, suc, ◌+◌, ◌-◌, ◌≤◌, ◌<◌, ◌≡◌, refl, ap, ◌∙◌, sym, true, false, Option, none, some, List,
  [], ◌∷◌, ◌++◌, length, take, drop, replicate, poke_all-overwrite, overwrite-all, length-replicate,
  leb, ◌==◌, arith, pos, peek_all-drop, peek_all-take, length-take_le, length-drop, lt→ltb, le→ltb,
  peek, get_elem?, get_elem?-take, take-take,
}
use native.Mathlib.Numerals.{add-one, sub-one}
use cosimus.Dbuf.{Block, Dbuf, dsetsig, new_dbuf, dalloc}
use cosimus.Dbuf.Grow.{IsDbuf, content, Reallocs, Grown, dgrow-Grown, dgrow-none, dchecksig-IsDbuf}
use cosimus.Dbuf.Append.{
  xcat_copy, xcat_sized, xcat_length, dxcat, dconcat, fill_copy, dappendfill, strlen, strcpy_into,
  dstrcpy, substr_into, dsubstrcpy,
}
use cosimus.Dbuf.Append.Laws.{Appended, put_behind, put_behind-Appended}

-- The bytes of a stretch of the source's data.
abbrev pub part : Dbuf → ℕ → ℕ → List ℕ
part source start len = take len (drop start source.buf)

pub length-part :
    (source : Dbuf) (start len : ℕ)
    → IsDbuf source
    → start + len ≤ source.dsize
    → length (part source start len) ≡ len
length-part source start len v h =
    length-take_le len (drop start source.buf)
      (omega (arith, v.sized, v.fits, length-drop start source.buf))

-- Appending to a buffer that was grown appends to the buffer that it was.
Appended-Grown :
    {d t : Dbuf} {delta : ℕ} (bs : List ℕ)
    → Grown d delta t
    → length bs ≤ delta
    → IsDbuf d
    → Appended d bs (put_behind t bs)
Appended-Grown {d} {t} bs g h v =
    let a = put_behind-Appended t bs g.valid (omega (arith, g.larger, g.dsize, v.fits)) in
    record {
      valid = a.valid;
      holds = a.holds ∙ ap (λ u. u ++ bs) g.same;
      dsize = a.dsize ∙ ap (λ u. u + length bs) g.dsize;
      lock = a.lock ∙ g.lock;
    }

module _ {target source : Dbuf} (b : Block) (start len : ℕ) (v : IsDbuf target) (w : IsDbuf source)
    (r : Reallocs target (target.size + len) b) where
  xcat_sized-Appended :
      start + len ≤ source.dsize
      → (d' : Dbuf) × (xcat_sized (some b) target source start len ≡ some (true, d'))
        × Appended target (part source start len) d'
  unfolding xcat_sized xcat_copy put_behind
  xcat_sized-Appended h =
      let (t, e, g) = (dgrow-Grown b len v r).0 in
      let size = length-part source start len w h in
      (
        put_behind t (part source start len),
        rw (
          le→ltb _ _ h,
          e,
          peek_all-drop source.buf start len (omega (arith, w.sized, w.fits)),
          poke_all-overwrite t.buf t.dsize (part source start len)
              (omega (arith, size, g.valid.sized, g.larger, g.dsize, v.fits)),
          size,
        ),
        Appended-Grown (part source start len) g (omega (arith, size)) v,
      )

  -- `dxcat` appends the stretch of the source's data that it is asked for, when there is one and
  -- `realloc` answers.
  pub dxcat-Appended :
      start + len ≤ source.dsize
      → (d' : Dbuf) × (dxcat (some b) target source start (pos len) ≡ some (true, d'))
        × Appended target (part source start len) d'
  unfolding dxcat xcat_length
  dxcat-Appended h =
      let (d', e, a) = xcat_sized-Appended h in
      (d', rw (dchecksig-IsDbuf v, dchecksig-IsDbuf w) e, a)

-- A stretch that ends behind the source's data `dxcat` refuses, whatever `realloc` would answer: it
-- returns 0 and changes nothing.
pub dxcat_refused :
    {target source : Dbuf} (mem : Option Block) (start len : ℕ)
    → IsDbuf target
    → IsDbuf source
    → source.dsize < start + len
    → dxcat mem target source start (pos len) ≡ some (false, target)
unfolding dxcat xcat_length xcat_sized
dxcat_refused mem start len v w h = rw (dchecksig-IsDbuf v, dchecksig-IsDbuf w, lt→ltb _ _ h)

-- `dconcat` appends all of the source's data when `realloc` answers.
pub dconcat-Appended :
    {target source : Dbuf} (b : Block)
    → IsDbuf target
    → IsDbuf source
    → Reallocs target (target.size + source.dsize) b
    → (d' : Dbuf) × (dconcat (some b) target source ≡ some (true, d'))
      × Appended target (content source) d'
unfolding dconcat dxcat xcat_length
dconcat-Appended {target} {source} b v w r =
    let (d', e, a) = xcat_sized-Appended b 0 source.dsize v w r (omega arith) in
    (d', rw (dchecksig-IsDbuf v, dchecksig-IsDbuf w) (ground (arith, e)), a)

-- `dappendfill` of a positive count appends that many copies of the byte when `realloc` answers,
-- and returns the count; when it does not answer it returns 0 and changes nothing.
pub dappendfill-Appended :
    {d : Dbuf} (b : Block) (c count : ℕ)
    → IsDbuf d
    → 0 < count
    → Reallocs d (d.size + count) b
    → ((d' : Dbuf) × (dappendfill (some b) d c count ≡ some (count, d'))
        × Appended d (replicate count c) d')
      × (dappendfill none d c count ≡ some (0, d))
unfolding dappendfill fill_copy put_behind
dappendfill-Appended {d} b c count v h r =
    let (t, e, g) = (dgrow-Grown b count v r).0 in
    let size = length-replicate count c in
    (
      (
        put_behind t (replicate count c),
        rw (
          positive,
          e,
          poke_all-overwrite t.buf t.dsize (replicate count c)
              (omega (arith, size, g.valid.sized, g.larger, g.dsize, v.fits)),
          size,
        ),
        Appended-Grown (replicate count c) g (omega (arith, size)) v,
      ),
      rw (positive, dgrow-none v count),
    )
  where
    positive : (count == 0) ≡ false
    positive = ground arith

-- `dsubstrcpy` of a stretch inside the data copies it into a new block, but leaves the new buffer's
-- data size at 0: as a buffer it holds nothing.
pub dsubstrcpy_holds_nothing :
    {d : Dbuf} (b : Block) (start len : ℕ)
    → IsDbuf d
    → 0 < len
    → start + len ≤ d.dsize
    → length b.bytes ≡ len
    → (t : Dbuf) × (dsubstrcpy (some b) true d start len ≡ some (some t))
      × (t.buf ≡ part d start len)
      × (content t ≡ [])
unfolding dsubstrcpy dalloc substr_into new_dbuf
dsubstrcpy_holds_nothing {d} b start zero v h inside size = absurd (omega arith)
dsubstrcpy_holds_nothing {d} b start (suc len) v h inside size =
    let copied = part d start (suc len) in
    let same = length-part d start (suc len) v inside in
    (
      record (new_dbuf b (suc len)) { buf = copied },
      rw (
        lt→ltb start d.dsize (omega arith),
        le→leb inside,
        peek_all-drop d.buf start (suc len) (omega (arith, v.sized, v.fits)),
        poke_all-overwrite b.bytes 0 copied (omega (arith, same)),
        overwrite-all b.bytes copied (omega (arith, same)),
      ),
      refl,
      refl,
    )
  where
    le→leb : {i j : ℕ} → i ≤ j → leb i j ≡ true
    le→leb p = ground arith

-- What `strlen` finds is a zero byte inside the array.
strlen_inside :
    (str : List ℕ) (n : ℕ) → strlen str ≡ some n → (n < length str) × (get_elem? str n ≡ some 0)
unfolding strlen
strlen_inside [] n e = cc
strlen_inside (zero ∷ s) zero e = (omega arith, refl)
strlen_inside (zero ∷ s) (suc n) e = absurd (ground arith)
strlen_inside (suc c ∷ s) zero e = absurd (ground arith)
strlen_inside (suc c ∷ s) (suc n) e =
    let (l, z) = strlen_inside s n (ground arith) in (omega (arith, l), z)

-- `dstrcpy` of a string gives a new buffer, locked once, that holds the string, with its zero byte
-- behind the data.
pub dstrcpy_holds_string :
    (b : Block) (str : List ℕ) (n : ℕ)
    → strlen str ≡ some n
    → length b.bytes ≡ n + 1
    → (t : Dbuf) × (dstrcpy (some b) true str ≡ some (some t))
      × IsDbuf t
      × (content t ≡ take n str)
      × (peek t.buf t.dsize ≡ some 0)
      × (t.lock ≡ 1)
unfolding dstrcpy dalloc strcpy_into new_dbuf
dstrcpy_holds_string b str n e size =
    let (inside, zero_byte) = strlen_inside str n e in
    let len = length-take_le (suc n) str inside in
    (
      record (new_dbuf b (suc n)) { buf = take (suc n) str; dsize = suc n - 1 },
      rw (
        e,
        add-one,
        strcpy_into,
        add-one,
        peek_all-take str (suc n) inside,
        poke_all-overwrite b.bytes 0 (take (suc n) str) (omega (arith, len)),
        overwrite-all b.bytes (take (suc n) str) (omega (arith, len)),
      ),
      record {
        signed = unfold dsetsig in refl;
        saved = unfold dsetsig in refl;
        sized = unfold dsetsig in sym len;
        fits = unfold dsetsig in omega arith;
        grows = unfold dsetsig in omega arith;
      },
      unfold dsetsig in (rw sub-one (take-take n (suc n) str (omega arith))),
      unfold dsetsig in (rw sub-one (get_elem?-take (suc n) str n (omega arith) ∙ zero_byte)),
      unfold dsetsig in refl,
    )
