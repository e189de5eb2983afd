-- ===== src/LinkedList/Pop.antt =====
-- `lpop` of supp_src/lib_lists.c takes the first item away.
pub mod Back
use cosimus.Base.{
  ℕ, zero, suc, ◌≡◌, ◌≢◌, refl, sym, ap, subst, ◌∙◌, ◌⊎◌, inl, inr, Bool, true, false, Option, none,
  some, List, [], ◌∷◌, ◌++◌, ◌==◌, ==_iff, if◌then◌else◌, ◌>>=◌, arith, Bool-cases,
}
use cosimus.LinkedList.{
  Listitem, Heap, Malloc, write, load, modify, listitem_checksig, listitem_signature, discard,
  unlink_first, unlink_last, lpop, rpop, lpeek, rpeek,
}
use cosimus.LinkedList.Seg.{
  Cells, item, first_or, first_or-append, last_or, Apart, Disjoint, Seg, nil, cons, IsList,
  Apart-append, Apart-split, last_or-append, Seg-append, Seg-split, Seg-write, Apart-unused,
  load-some, modify-some, listitem_checksig-some, write_here, write_there, Cells-cases, Seg-first,
  write_twice, Spares, Disjoint-one, Apart-Disjoint,
}
use cosimus.LinkedList.Push.{not_null}

pub discard-none :
    (h : Heap) {a : ℕ} {n : Listitem} → h a ≡ some n → a ≢ 0 → discard a h ≡ some (write h a none)
unfolding discard
discard-none h {a} e nonnull =
    rw (modify-some h (λ k. record k { listitem_sig = 0 }) e nonnull)
      (ap some (write_twice h a _ none))

-- `lpop` of a list that is not empty returns the first item's data and leaves the other items; the
-- item is freed, and no memory outside the list has changed.
pub lpop_lem :
    {h : Heap} {head : ℕ} (p e : ℕ) (xs : Cells)
    → IsList h head ((p, e) ∷ xs)
    → (h' : Heap) × (lpop (some head) h ≡ some (e, some (first_or 0 xs), h'))
      × IsList h' (first_or 0 xs) xs
      × (h' p ≡ none)
      × Spares p xs h h'
unfolding lpop unlink_first
lpop_lem {h} {head} p e [] v =
    let (here, ne, out, s) = Seg-first v.linked in
    (
      write h p none,
      rw (v.at, not_null p ne, listitem_checksig-some h here ne, discard-none h here ne) refl,
      record { at = refl; linked = nil },
      write_here h p none,
      (λ x xp apart. write_there h p x none xp),
    )
lpop_lem {h} {head} p e ((r, g) ∷ ys) v =
    let (here, ne, out, s) = Seg-first v.linked in
    let (at_r, rn, out_r, t) = Seg-first s in
    let made = item (first_or 0 ys) (last_or r ys) g in
    let h1 = write h r (some made) in
    let pr : p ≢ r = out.0 in
    let rp : r ≢ p = λ i. pr (sym i) in
    (
      write h1 p none,
      rw
          (
            v.at,
            not_null p ne,
            listitem_checksig-some h here ne,
            not_null r rn,
            modify-some h (λ k. record k { prev = last_or r ys }) at_r rn,
            discard-none h1 (write_there h r p (some made) pr ∙ here) ne,
          )
          refl,
      record {
        at = refl;
        linked =
            cons (write_there h1 p r none rp ∙ write_here h r (some made)) rn out_r
              (Seg-write p none out.1 (Seg-write r (some made) out_r t));
      },
      write_here h1 p none,
      (λ x xp apart. write_there h1 p x none xp ∙ write_there h r x (some made) apart.0),
    )

-- `rpop` when the last item `q` has another one, `b`, before it.
pub unlink_last-run :
    (h : Heap) (p q b n u w e f : ℕ)
    → p ≢ 0
    → q ≢ 0
    → b ≢ 0
    → q ≢ p
    → q ≢ b
    → h p ≡ some (item n q e)
    → h q ≡ some (item 0 b f)
    → write h p (some (item n b e)) b ≡ some (item q u w)
    → unlink_last p h
      ≡ some (f, some p, write (write (write h p (some (item n b e))) b (some (item 0 u w))) q none)
unfolding unlink_last
unlink_last-run h p q b n u w e f pn qn bn qp qb first last before_last =
    let h1 = write h p (some (item n b e)) in
    let h2 = write h1 b (some (item 0 u w)) in
    let differ : (p == q) ≡ false = ground arith in
    rw
      (
        listitem_checksig-some h first pn,
        listitem_checksig-some h last qn,
        modify-some h (λ k. record k { prev = b }) first pn,
        load-some h1 (write_here h p (some (item n b e))) pn,
        listitem_checksig-some h1 before_last bn,
        modify-some h1 (λ k. record k { next = 0 }) before_last bn,
        discard-none h2
            (write_there h1 b q (some (item 0 u w)) qb
              ∙ write_there h p q (some (item n b e)) qp
              ∙ last)
            qn,
        differ,
      )
      refl

pub rpop_one :
    {h : Heap} (p e : ℕ)
    → IsList h p ((p, e) ∷ [])
    → rpop (some p) h ≡ some (e, some 0, write h p none)
unfolding rpop unlink_last
rpop_one {h} p e v =
    let (here, ne, out, s) = Seg-first v.linked in
    let made = some (item 0 p e) in
    let h1 = write h p made in
    let same : (p == p) ≡ true = ground arith in
    rw
      (
        not_null p ne,
        listitem_checksig-some h here ne,
        listitem_checksig-some h here ne,
        modify-some h (λ k. record k { prev = p }) here ne,
        load-some h1 (write_here h p made) ne,
        listitem_checksig-some h1 (write_here h p made) ne,
        modify-some h1 (λ k. record k { next = 0 }) (write_here h p made) ne,
        write_twice h p made made,
        discard-none h1 (write_here h p made) ne,
        write_twice h p made none,
        same,
      )
      refl
