-- ===== src/LinkedList/Push/Back.antt =====
-- `rpush` of supp_src/lib_lists.c adds an item at the back.
use cosimus.Base.{ℕ, ◌≡◌, ◌≢◌, refl, sym, ap, ◌∙◌, inl, inr, none, some, [], ◌∷◌, ◌++◌}
use cosimus.LinkedList.{Listitem, Heap, write, listitem_signature, set_last, rpush}
use cosimus.LinkedList.Seg.{
  Cells, item, first_or, first_or-append, first_or_snoc, last_or, Apart, Disjoint, Seg, nil, cons,
  IsList, Apart-append, Apart-split, last_or-append, Seg-append, Seg-split, Seg-write, Apart-unused,
  load-some, modify-some, listitem_checksig-some, write_here, write_there, Cells-cases, Seg-first,
  Spares, Disjoint-one, Apart-Disjoint,
}
use cosimus.LinkedList.Push.{not_null, only, set_only-only}

-- The memory after an item was put at `a` behind the last item `q` of the list at `p`.
abbrev linked_in : Heap → (a d p q n b e f : ℕ) → Listitem → Heap
linked_in h a d p q n b e f junk =
    write
      (write
        (write
          (write (write h a (some (record junk { listitem_sig = listitem_signature }))) q
            (some (item a b f)))
          a (some (record junk { listitem_sig = listitem_signature; prev = q })))
        p (some (item n a e)))
      a (some (item 0 q d))

module _ (h : Heap) (a d p q n b e f : ℕ) (junk : Listitem) (nonnull : a ≢ 0) (pn : p ≢ 0)
    (qn : q ≢ 0) (pa : p ≢ a) (qa : q ≢ a) where
  set_last-linked_in :
      (m : ℕ)
      → h p ≡ some (item m q e)
      → h q ≡ some (item 0 b f)
      → write
          (write h a (some (record junk { listitem_sig = listitem_signature })))
          q
          (some (item a b f))
          p
        ≡ some (item n q e)
      → set_last p a d (write h a (some (record junk { listitem_sig = listitem_signature })))
        ≡ some (linked_in h a d p q n b e f junk)
  unfolding set_last
  set_last-linked_in m first last now =
      let h0 = write h a (some (record junk { listitem_sig = listitem_signature })) in
      let h1 = write h0 q (some (item a b f)) in
      let made = record junk { listitem_sig = listitem_signature; prev = q } in
      let h2 = write h1 a (some made) in
      let h3 = write h2 p (some (item n a e)) in
      let at_p =
        write_there h a p (some (record junk { listitem_sig = listitem_signature })) pa ∙ first in
      let at_q =
        write_there h a q (some (record junk { listitem_sig = listitem_signature })) qa ∙ last in
      rw
        (
          load-some h0 at_p pn,
          load-some h0 at_q qn,
          listitem_checksig-some h0 at_p pn,
          listitem_checksig-some h0 at_q qn,
          modify-some h0 (λ k. record k { next = a }) at_q qn,
          load-some h1 now pn,
          modify-some h1 (λ k. record k { prev = q })
              (write_there h0 q a (some (item a b f)) (λ i. qa (sym i)) ∙ write_here h a _) nonnull,
          modify-some h2 (λ k. record k { prev = a }) (write_there h1 a p (some made) pa ∙ now) pn,
          modify-some h3 (λ k. record k { next = 0; datum = d })
              (write_there h2 p a (some (item n a e)) (λ i. pa (sym i)) ∙ write_here h1 a _)
              nonnull,
        )
        refl

  linked_in_spares : (x : ℕ) → x ≢ a → x ≢ p → x ≢ q → linked_in h a d p q n b e f junk x ≡ h x
  linked_in_spares x xa xp xq =
      write_there _ a x _ xa
      ∙ write_there _ p x _ xp
      ∙ write_there _ a x _ xa
      ∙ write_there _ q x _ xq
      ∙ write_there h a x _ xa

  linked_in_first : linked_in h a d p q n b e f junk p ≡ some (item n a e)
  linked_in_first = write_there _ a p _ pa ∙ write_here _ p _

  linked_in_last : q ≢ p → linked_in h a d p q n b e f junk q ≡ some (item a b f)
  linked_in_last qp =
      write_there _ a q _ qa ∙ write_there _ p q _ qp ∙ write_there _ a q _ qa ∙ write_here _ q _

  Seg-linked_in :
      {s t : ℕ} {xs : Cells}
      → Apart a xs
      → Apart p xs
      → Apart q xs
      → Seg h t s xs
      → Seg (linked_in h a d p q n b e f junk) t s xs
  Seg-linked_in oa op oq s =
      Seg-write a _ oa (Seg-write p _ op (Seg-write a _ oa (Seg-write q _ oq (Seg-write a _ oa s))))

-- The list behind which the item was put.
behind :
    (g : Heap) (a d p q n e f : ℕ) (ys : Cells)
    → g p ≡ some (item (first_or 0 (ys ++ (q, f) ∷ [])) a e)
    → g q ≡ some (item a (last_or p ys) f)
    → g a ≡ some (item 0 q d)
    → a ≢ 0
    → p ≢ 0
    → q ≢ 0
    → Apart a ((p, e) ∷ ys ++ (q, f) ∷ [])
    → Apart p (ys ++ (q, f) ∷ [])
    → Disjoint ys ((q, f) ∷ [])
    → Seg g q p ys
    → IsList g p ((p, e) ∷ (ys ++ (q, f) ∷ []) ++ (a, d) ∷ [])
behind g a d p q n e f ys gp gq ga nonnull pn qn oa op dj s =
    let xs = ys ++ (q, f) ∷ [] in
    let end : last_or p (xs ++ (a, d) ∷ []) ≡ a = last_or-append p xs ((a, d) ∷ []) in
    let start : first_or 0 (xs ++ (a, d) ∷ []) ≡ first_or 0 xs =
      first_or-append 0 xs ((a, d) ∷ []) ∙ first_or_snoc a 0 (q, f) ys in
    let stop : last_or p xs ≡ q = last_or-append p ys ((q, f) ∷ []) in
    record {
      at = refl;
      linked =
          cons
            (gp
              ∙ ap (λ k. some (item k a e)) (sym start)
              ∙ ap (λ k. some (item (first_or 0 (xs ++ (a, d) ∷ [])) k e)) (sym end))
            pn (Apart-append p xs ((a, d) ∷ []) op ((λ i. oa.0 (sym i)), tt))
            (Seg-append ((a, d) ∷ []) (Seg-append ((q, f) ∷ []) s (cons gq qn tt nil) dj)
              (cons (ga ∙ ap (λ k. some (item 0 k d)) (sym stop)) nonnull tt nil)
              (Apart-Disjoint xs a d oa.1));
    }

-- A list of one item.
rpush_one :
    {h : Heap} (p e a d : ℕ) (junk : Listitem)
    → IsList h p ((p, e) ∷ [])
    → h a ≡ none
    → a ≢ 0
    → (h' : Heap) × (rpush (some p) d (some (a, junk)) h ≡ some (a, some p, h'))
      × IsList h' p ((p, e) ∷ (a, d) ∷ [])
      × Spares a ((p, e) ∷ []) h h'
unfolding rpush
rpush_one {h} p e a d junk v unused nonnull =
    let (here, ne, out, s) = Seg-first v.linked in
    let pa : p ≢ a = λ i. (Apart-unused a unused v.linked).0 (sym i) in
    let g = linked_in h a d p p a p e e junk in
    (
      g,
      rw
          (
            not_null p ne,
            set_last-linked_in h a d p p a p e e junk nonnull ne ne pa pa 0 here here
                (write_here _ p _),
          )
          refl,
      record {
        at = refl;
        linked =
            cons (linked_in_first h a d p p a p e e junk nonnull ne ne pa pa) ne (pa, tt)
              (cons (write_here _ a _) nonnull tt nil);
      },
      (λ x xa apart.
          linked_in_spares h a d p p a p e e junk nonnull ne ne pa pa x xa apart.0 apart.0),
    )

-- A longer list.
rpush_more :
    {h : Heap} (p e : ℕ) (ys : Cells) (q f a d : ℕ) (junk : Listitem)
    → IsList h p ((p, e) ∷ ys ++ (q, f) ∷ [])
    → h a ≡ none
    → a ≢ 0
    → (h' : Heap) × (rpush (some p) d (some (a, junk)) h ≡ some (a, some p, h'))
      × IsList h' p ((p, e) ∷ (ys ++ (q, f) ∷ []) ++ (a, d) ∷ [])
      × Spares a ((p, e) ∷ ys ++ (q, f) ∷ []) h h'
unfolding rpush
rpush_more {h} p e ys q f a d junk v unused nonnull =
    let xs = ys ++ (q, f) ∷ [] in
    let (here, ne, out, s) = Seg-first v.linked in
    let (sy, sq, dj) = Seg-split ys ((q, f) ∷ []) s in
    let (last, qn, none_out, none_s) = Seg-first sq in
    let oa = Apart-unused a unused v.linked in
    let (oay, oaq) = Apart-split a ys ((q, f) ∷ []) oa.1 in
    let (opy, opq) = Apart-split p ys ((q, f) ∷ []) out in
    let pa : p ≢ a = λ i. oa.0 (sym i) in
    let qa : q ≢ a = λ i. oaq.0 (sym i) in
    let qp : q ≢ p = λ i. opq.0 (sym i) in
    let n = first_or 0 xs in
    let b = last_or p ys in
    let stop : last_or p xs ≡ q = last_or-append p ys ((q, f) ∷ []) in
    let first : h p ≡ some (item n q e) = here ∙ ap (λ k. some (item n k e)) stop in
    let g = linked_in h a d p q n b e f junk in
    (
      g,
      rw
          (
            not_null p ne,
            set_last-linked_in h a d p q n b e f junk nonnull ne qn pa qa n first last
                (write_there _ q p _ opq.0 ∙ write_there h a p _ pa ∙ first),
          )
          refl,
      (behind g a d p q n e f ys (linked_in_first h a d p q n b e f junk nonnull ne qn pa qa)
          (linked_in_last h a d p q n b e f junk nonnull ne qn pa qa qp) (write_here _ a _) nonnull
          ne qn oa out dj
          (Seg-linked_in h a d p q n b e f junk nonnull ne qn pa qa oay opy (Disjoint-one ys q f dj)
            sy)),
      (λ x xa apart.
          linked_in_spares h a d p q n b e f junk nonnull ne qn pa qa x xa apart.0
            (Apart-split x ys ((q, f) ∷ []) apart.1).1.0),
    )

-- `rpush` on a list, with a new item from `malloc`: it returns the item, the list is as before with
-- the item at its end, and no other memory has changed.
pub rpush_lem :
    {h : Heap} {head : ℕ} (xs : Cells) (a d : ℕ) (junk : Listitem)
    → IsList h head xs
    → h a ≡ none
    → a ≢ 0
    → (h' : Heap) × (rpush (some head) d (some (a, junk)) h
        ≡ some (a, some (first_or 0 (xs ++ (a, d) ∷ [])), h'))
      × IsList h' (first_or 0 (xs ++ (a, d) ∷ [])) (xs ++ (a, d) ∷ [])
      × Spares a xs h h'
rpush_lem {h} {head} [] a d junk v unused nonnull = (
  write h a (some (item 0 a d)),
  unfold rpush in rw (v.at, set_only-only h a d junk nonnull) refl,
  only h a d nonnull,
  (λ x ne apart. write_there h a x _ ne),
)
rpush_lem {h} {head} ((p, e) ∷ xs) a d junk v unused nonnull =
    let here : IsList h p ((p, e) ∷ xs) = record { at = refl; linked = v.linked } in
    elim (Cells-cases xs) [
      | inl none_more ↦
          rw (v.at, none_more) (rpush_one p e a d junk (rw none_more at here) unused nonnull)
      | inr (ys, (q, f), more) ↦
          rw (v.at, more) (rpush_more p e ys q f a d junk (rw more at here) unused nonnull)
    ]
