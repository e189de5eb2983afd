-- ===== src/LinkedList/Pop/Back.antt =====
-- `rpop` of supp_src/lib_lists.c takes the last item away.
use cosimus.Base.{ℕ, ◌≡◌, ◌≢◌, refl, sym, ap, ◌∙◌, inl, inr, none, some, [], ◌∷◌, ◌++◌}
use cosimus.LinkedList.{Heap, write, rpop}
use cosimus.LinkedList.Seg.{
  Cells, item, first_or, first_or-append, first_or_snoc, last_or, nil, cons, IsList, Apart-split,
  last_or-append, Seg-append, Seg-split, Seg-write, write_here, write_there, Cells-cases, Seg-first,
  Spares, Disjoint-one,
}
use cosimus.LinkedList.Push.{not_null}
use cosimus.LinkedList.Pop.{rpop_one, unlink_last-run}

-- A list of two items.
rpop_two :
    {h : Heap} (p e q f : ℕ)
    → IsList h p ((p, e) ∷ (q, f) ∷ [])
    → (h' : Heap) × (rpop (some p) h ≡ some (f, some p, h'))
      × IsList h' p ((p, e) ∷ [])
      × (h' q ≡ none)
      × Spares q ((p, e) ∷ []) h h'
unfolding rpop
rpop_two {h} p e q f v =
    let (first, pn, out, s) = Seg-first v.linked in
    let (last, qn, out', t) = Seg-first s in
    let pq : p ≢ q = out.0 in
    let qp : q ≢ p = λ i. pq (sym i) in
    let made = item q p e in
    let h1 = write h p (some made) in
    let h2 = write h1 p (some (item 0 p e)) in
    (
      write h2 q none,
      rw
          (
            not_null p pn,
            unlink_last-run h p q p q p e e f pn qn pn qp qp first last
                (write_here h p (some made)),
          )
          refl,
      record {
        at = refl;
        linked = cons (write_there h2 q p none pq ∙ write_here h1 p (some (item 0 p e))) pn tt nil;
      },
      write_here h2 q none,
      (λ x xq apart.
          write_there h2 q x none xq
          ∙ write_there h1 p x (some (item 0 p e)) apart.0
          ∙ write_there h p x (some made) apart.0),
    )

-- A list of three items or more.
rpop_more :
    {h : Heap} (p e : ℕ) (zs : Cells) (r g q f : ℕ)
    → IsList h p ((p, e) ∷ (zs ++ (r, g) ∷ []) ++ (q, f) ∷ [])
    → (h' : Heap) × (rpop (some p) h ≡ some (f, some p, h'))
      × IsList h' p ((p, e) ∷ zs ++ (r, g) ∷ [])
      × (h' q ≡ none)
      × Spares q ((p, e) ∷ zs ++ (r, g) ∷ []) h h'
unfolding rpop
rpop_more {h} p e zs r g q f v =
    let xs = zs ++ (r, g) ∷ [] in
    let (first, pn, out, s) = Seg-first v.linked in
    let (sx, sq, dj) = Seg-split xs ((q, f) ∷ []) s in
    let (last, qn, out_q, nothing) = Seg-first sq in
    let (sz, sr, dz) = Seg-split zs ((r, g) ∷ []) sx in
    let (at_r, rn, out_r, nothing') = Seg-first sr in
    let (px, pq) = Apart-split p xs ((q, f) ∷ []) out in
    let (pz, pr) = Apart-split p zs ((r, g) ∷ []) px in
    let (qz, qr) = Apart-split q zs ((r, g) ∷ []) (Disjoint-one xs q f dj) in
    let qp : q ≢ p = λ i. pq.0 (sym i) in
    let rp : r ≢ p = λ i. pr.0 (sym i) in
    let rq : r ≢ q = λ i. qr.0 (sym i) in
    let n = first_or 0 (xs ++ (q, f) ∷ []) in
    let u = last_or p zs in
    let end : last_or p (xs ++ (q, f) ∷ []) ≡ q = last_or-append p xs ((q, f) ∷ []) in
    let stop : last_or p xs ≡ r = last_or-append p zs ((r, g) ∷ []) in
    let start : n ≡ first_or 0 xs =
      first_or-append 0 xs ((q, f) ∷ []) ∙ first_or_snoc q 0 (r, g) zs in
    let first' : h p ≡ some (item n q e) = first ∙ ap (λ k. some (item n k e)) end in
    let last' : h q ≡ some (item 0 r f) = last ∙ ap (λ k. some (item 0 k f)) stop in
    let made = some (item n r e) in
    let final = some (item 0 u g) in
    let h1 = write h p made in
    let h2 = write h1 r final in
    (
      write h2 q none,
      rw
          (
            not_null p pn,
            unlink_last-run h p q r n u g e f pn qn rn qp qr.0 first' last'
                (write_there h p r made rp ∙ at_r),
          )
          refl,
      record {
        at = refl;
        linked =
            cons
              (write_there h2 q p none pq.0
                ∙ write_there h1 r p final pr.0
                ∙ write_here h p made
                ∙ ap (λ k. some (item k r e)) start
                ∙ ap (λ k. some (item (first_or 0 xs) k e)) (sym stop))
              pn px
              (Seg-append ((r, g) ∷ [])
                (Seg-write q none qz
                  (Seg-write r final (Disjoint-one zs r g dz) (Seg-write p made pz sz)))
                (cons (write_there h2 q r none rq ∙ write_here h1 r final) rn tt nil) dz);
      },
      write_here h2 q none,
      (λ x xq apart.
          write_there h2 q x none xq
          ∙ write_there h1 r x final (Apart-split x zs ((r, g) ∷ []) apart.1).1.0
          ∙ write_there h p x made apart.0),
    )

-- `rpop` of a list that is not empty returns the last item's data and leaves the other items; the
-- item is freed, and no memory outside the list has changed.
pub rpop_lem :
    {h : Heap} {head : ℕ} (xs : Cells) (q f : ℕ)
    → IsList h head (xs ++ (q, f) ∷ [])
    → (h' : Heap) × (rpop (some head) h ≡ some (f, some (first_or 0 xs), h'))
      × IsList h' (first_or 0 xs) xs
      × (h' q ≡ none)
      × Spares q xs h h'
rpop_lem {h} [] q f v = (
  write h q none,
  rw v.at (rpop_one q f (record { at = refl; linked = v.linked })),
  record { at = refl; linked = nil },
  write_here h q none,
  (λ x xq apart. write_there h q x none xq),
)
rpop_lem {h} ((p, e) ∷ xs) q f v =
    let here : IsList h p ((p, e) ∷ xs ++ (q, f) ∷ []) = record { at = refl; linked = v.linked } in
    elim (Cells-cases xs) [
      | inl none_more ↦ rw (v.at, none_more) (rpop_two p e q f (rw none_more at here))
      | inr (zs, (r, g), more) ↦ rw (v.at, more) (rpop_more p e zs r g q f (rw more at here))
    ]
