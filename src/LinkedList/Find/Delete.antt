-- ===== src/LinkedList/Find/Delete.antt =====
-- `ldelete` of supp_src/lib_lists.c takes an item out of a list, wherever it stands.
use cosimus.Base.{
  ℕ, ◌≡◌, ◌≢◌, refl, sym, ap, subst, ◌∙◌, inl, inr, true, false, none, some, [], ◌∷◌, ◌++◌, ◌==◌,
  arith, append-nil,
}
use cosimus.LinkedList.{Heap, write, unlink_middle, unlink_found, ldelete}
use cosimus.LinkedList.Seg.{
  Cells, item, first_or, last_or, Apart, Disjoint, Seg, nil, cons, IsList, Apart-split,
  last_or-append, Seg-append, Seg-split, Seg-write, load-some, modify-some, listitem_checksig-some,
  write_here, write_there, Cells-cases, Seg-first, Spares, Disjoint-one,
}
use cosimus.LinkedList.Push.{not_null}
use cosimus.LinkedList.Pop.{discard-none, lpop_lem}
use cosimus.LinkedList.Pop.Back.{rpop_lem}

not_equal : (a b : ℕ) → a ≢ b → (a == b) ≡ false
not_equal a b ne = ground arith

equal : (a : ℕ) → (a == a) ≡ true
equal a = ground arith

Apart-last_or : {r : ℕ} (p d : ℕ) (xs : Cells) → Apart r ((p, d) ∷ xs) → r ≢ last_or p xs
Apart-last_or p d [] out = out.0
Apart-last_or p d ((q, e) ∷ xs) out = Apart-last_or q e xs out.1

-- The cells of a list after the first are apart from each other and from it.
Apart-Disjoint_one :
    (r g : ℕ) (ys xs : Cells) → Disjoint xs ((r, g) ∷ ys) → Apart r xs × Disjoint xs ys
Apart-Disjoint_one r g ys [] dj = (tt, tt)
Apart-Disjoint_one r g ys (x ∷ xs) dj =
    let (o, d) = Apart-Disjoint_one r g ys xs dj.1 in (((λ i. dj.0.0 (sym i)), o), (dj.0.1, d))

Disjoint-snoc : (l k : ℕ) (ys zs : Cells) → Disjoint (zs ++ (l, k) ∷ []) ys → Apart l ys
Disjoint-snoc l k ys [] dj = dj.0
Disjoint-snoc l k ys (z ∷ zs) dj = Disjoint-snoc l k ys zs dj.1

-- A list that starts with `zs` and one more item: its first item.
module _ (l k : ℕ) where
  first_node :
      {h : Heap} {b : ℕ} (ys zs : Cells)
      → Seg h 0 b ((zs ++ (l, k) ∷ []) ++ ys)
      → (n d : ℕ) × (h (first_or 0 ((zs ++ (l, k) ∷ []) ++ ys)) ≡ some (item n b d))
        × (first_or 0 ((zs ++ (l, k) ∷ []) ++ ys) ≢ 0)
  first_node ys [] s = let (here, ne, out, t) = Seg-first s in (_, _, here, ne)
  first_node ys ((p, d) ∷ zs) s = let (here, ne, out, t) = Seg-first s in (_, _, here, ne)

  first_same :
      (ys ys' zs : Cells)
      → first_or 0 ((zs ++ (l, k) ∷ []) ++ ys) ≡ first_or 0 ((zs ++ (l, k) ∷ []) ++ ys')
  first_same ys ys' [] = refl
  first_same ys ys' (z ∷ zs) = refl

  first_other :
      (r : ℕ) (ys zs : Cells)
      → Apart r (zs ++ (l, k) ∷ [])
      → r ≢ first_or 0 ((zs ++ (l, k) ∷ []) ++ ys)
  first_other r ys [] out = out.0
  first_other r ys (z ∷ zs) out = out.0

-- An item with neighbours on both sides.
unlink_middle-run :
    (h : Heap) (l r f u g k n m : ℕ)
    → l ≢ 0
    → r ≢ 0
    → f ≢ 0
    → l ≢ r
    → r ≢ f
    → l ≢ f
    → h l ≡ some (item r u k)
    → h r ≡ some (item f l g)
    → h f ≡ some (item n r m)
    → unlink_middle r h
      ≡ some (write (write (write h l (some (item f u k))) f (some (item n l m))) r none)
unfolding unlink_middle
unlink_middle-run h l r f u g k n m ln rn fn lr rf lf at_l at_r at_f =
    let h1 = write h l (some (item f u k)) in
    let h2 = write h1 f (some (item n l m)) in
    let rl : r ≢ l = λ i. lr (sym i) in
    let fl : f ≢ l = λ i. lf (sym i) in
    let now : h1 r ≡ some (item f l g) = write_there h l r _ rl ∙ at_r in
    rw
      (
        load-some h at_r rn,
        modify-some h (λ i. record i { next = f }) at_l ln,
        load-some h1 now rn,
        modify-some h1 (λ i. record i { prev = l }) (write_there h l f _ fl ∙ at_f) fn,
      )
      (discard-none h2 (write_there h1 f r _ rf ∙ now) rn)

ldelete_middle :
    {h : Heap} {head : ℕ} (zs : Cells) (l k r g f m : ℕ) (ws : Cells)
    → IsList h head ((zs ++ (l, k) ∷ []) ++ (r, g) ∷ (f, m) ∷ ws)
    → (h' : Heap) × (ldelete (some head) r h ≡ some (some head, h'))
      × IsList h' head ((zs ++ (l, k) ∷ []) ++ (f, m) ∷ ws)
      × (h' r ≡ none)
      × Spares r ((zs ++ (l, k) ∷ []) ++ (f, m) ∷ ws) h h'
unfolding ldelete unlink_found
ldelete_middle {h} {head} zs l k r g f m ws v =
    let xs = zs ++ (l, k) ∷ [] in
    let ys = (f, m) ∷ ws in
    let b0 = last_or 0 (xs ++ (r, g) ∷ ys) in
    let (sx, sr, dj) = Seg-split xs ((r, g) ∷ ys) v.linked in
    let (at_r, rn, out_r, sy) = Seg-first sr in
    let (at_f, fn, out_f, sw) = Seg-first sy in
    let (sz, sl, dz) = Seg-split zs ((l, k) ∷ []) sx in
    let (at_l, ln, out_l, nothing) = Seg-first sl in
    let (rx, djy) = Apart-Disjoint_one r g ys xs dj in
    let (fx, djw) = Apart-Disjoint_one f m ws xs djy in
    let (rz, rl) = Apart-split r zs ((l, k) ∷ []) rx in
    let (fz, fl) = Apart-split f zs ((l, k) ∷ []) fx in
    let lz = Disjoint-one zs l k dz in
    let lys = Disjoint-snoc l k ys zs djy in
    let lr : l ≢ r = λ i. rl.0 (sym i) in
    let (n0, d0, at_head, head_nonnull) = first_node l k ((r, g) ∷ ys) zs v.linked in
    let u = last_or b0 zs in
    let n = first_or 0 ws in
    let stop : last_or b0 xs ≡ l = last_or-append b0 zs ((l, k) ∷ []) in
    let end : b0 ≡ last_or f ws = last_or-append 0 xs ((r, g) ∷ ys) in
    let end' : last_or 0 (xs ++ ys) ≡ last_or f ws = last_or-append 0 xs ys in
    let r_last : r ≢ b0 = λ i. Apart-last_or f m ws out_r (i ∙ end) in
    let made = some (item f u k) in
    let final = some (item n l m) in
    let h1 = write h l made in
    let h2 = write h1 f final in
    (
      write h2 r none,
      rw
          (
            v.at,
            not_null _ head_nonnull,
            listitem_checksig-some h at_head head_nonnull,
            not_equal r _ (first_other l k r ((r, g) ∷ ys) zs rx),
            not_equal r b0 r_last,
            unlink_middle-run h l r f u g k n m ln rn fn lr out_r.0 lys.0 at_l
                (at_r ∙ ap (λ i. some (item f i g)) stop) at_f,
          )
          refl,
      record {
        at = v.at ∙ first_same l k ((r, g) ∷ ys) ys zs;
        linked =
            subst (λ b. Seg (write h2 r none) 0 b (xs ++ ys)) (end ∙ sym end')
              (Seg-append ys
                (Seg-append ((l, k) ∷ [])
                  (Seg-write r none rz (Seg-write f final fz (Seg-write l made lz sz)))
                  (cons
                    (write_there h2 r l none lr
                      ∙ write_there h1 f l final lys.0
                      ∙ write_here h l made)
                    ln tt nil)
                  dz)
                (cons
                  (write_there h2 r f none (λ i. out_r.0 (sym i))
                    ∙ write_here h1 f final
                    ∙ ap (λ i. some (item n i m)) (sym stop))
                  fn out_f
                  (Seg-write r none out_r.1 (Seg-write f final out_f (Seg-write l made lys.1 sw))))
                djy);
      },
      write_here h2 r none,
      (λ x xr apart.
          let (ox, oy) = Apart-split x xs ys apart in
          write_there h2 r x none xr
          ∙ write_there h1 f x final oy.0
          ∙ write_there h l x made (Apart-split x zs ((l, k) ∷ []) ox).1.0),
    )

-- What `ldelete` of the item `r` makes of a list whose other items are `rest`.
abbrev pub Deletes : Heap → ℕ → ℕ → Cells → Type 0
Deletes h head r rest =
    (h' : Heap) × (ldelete (some head) r h ≡ some (some (first_or 0 rest), h'))
    × IsList h' (first_or 0 rest) rest
    × (h' r ≡ none)
    × Spares r rest h h'

ldelete_first :
    {h : Heap} {head : ℕ} (r g : ℕ) (ys : Cells) → IsList h head ((r, g) ∷ ys) → Deletes h head r ys
unfolding ldelete unlink_found
ldelete_first {h} r g ys v =
    let (here, ne, out, t) = Seg-first v.linked in
    let (h', ran, v', freed, spared) = lpop_lem r g ys v in
    (
      h',
      rw (v.at, not_null r ne, listitem_checksig-some h here ne, equal r, rw v.at at ran) refl,
      v',
      freed,
      spared,
    )

ldelete_last :
    {h : Heap} {head : ℕ} (zs : Cells) (l k r g : ℕ)
    → IsList h head ((zs ++ (l, k) ∷ []) ++ (r, g) ∷ [])
    → Deletes h head r (zs ++ (l, k) ∷ [])
unfolding ldelete unlink_found
ldelete_last {h} {head} zs l k r g v =
    let xs = zs ++ (l, k) ∷ [] in
    let (n0, d0, at_head, nonnull) = first_node l k ((r, g) ∷ []) zs v.linked in
    let (sx, sr, dj) = Seg-split xs ((r, g) ∷ []) v.linked in
    let end : last_or 0 (xs ++ (r, g) ∷ []) ≡ r = last_or-append 0 xs ((r, g) ∷ []) in
    let (h', ran, v', freed, spared) = rpop_lem xs r g v in
    let at_head' : h (first_or 0 (xs ++ (r, g) ∷ [])) ≡ some (item n0 r d0) =
      at_head ∙ ap (λ b. some (item n0 b d0)) end in
    (
      h',
      rw
          (
            v.at,
            not_null _ nonnull,
            listitem_checksig-some h at_head' nonnull,
            not_equal r _ (first_other l k r ((r, g) ∷ []) zs (Disjoint-one xs r g dj)),
            equal r,
            rw v.at at ran,
          )
          refl,
      v',
      freed,
      spared,
    )

-- `ldelete` of an item of a list, wherever it stands, leaves the other items in their order; the item
-- is freed, and no memory outside the list has changed.
pub ldelete_lem :
    {h : Heap} {head : ℕ} (xs : Cells) (r g : ℕ) (ys : Cells)
    → IsList h head (xs ++ (r, g) ∷ ys)
    → Deletes h head r (xs ++ ys)
ldelete_lem {h} {head} xs r g ys v = elim (Cells-cases xs) [
  | inl e ↦ rw e (ldelete_first r g ys (rw e at v))
  | inr (zs, (l, k), e) ↦ rw e (by_rest zs l k ys (rw e at v))
]
  where
    by_rest :
        (zs : Cells) (l k : ℕ) (ys : Cells)
        → IsList h head ((zs ++ (l, k) ∷ []) ++ (r, g) ∷ ys)
        → Deletes h head r ((zs ++ (l, k) ∷ []) ++ ys)
    by_rest zs l k [] v =
        subst (Deletes h head r) (sym (append-nil (zs ++ (l, k) ∷ []))) (ldelete_last zs l k r g v)
    by_rest zs l k ((f, m) ∷ ws) v =
        let (h', ran, v', freed, spared) = ldelete_middle zs l k r g f m ws v in
        (
          h',
          ran ∙ ap (λ p. some (some p, h')) v'.at,
          record { at = refl; linked = v'.linked },
          freed,
          spared,
        )
