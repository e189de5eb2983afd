-- ===== src/LinkedList/Push.antt =====
-- `lpush` of supp_src/lib_lists.c adds an item at the front.
pub mod Back
use cosimus.Base.{
  ℕ, zero, suc, ◌≡◌, ◌≢◌, refl, sym, ap, subst, ◌∙◌, ◌⊎◌, inl, inr, Bool, true, false, Option, none,
  some, List, [], ◌∷◌, ◌++◌, ◌==◌, ==_iff, if◌then◌else◌, ◌>>=◌, arith, Bool-cases,
}
use cosimus.LinkedList.{
  Listitem, Heap, Malloc, write, load, modify, listitem_checksig, listitem_signature, set_only,
  set_first, set_last, lpush, rpush,
}
use cosimus.LinkedList.Seg.{
  Cells, item, first_or, last_or, Apart, Disjoint, Seg, nil, cons, IsList, Apart-append,
  Apart-split, last_or-append, Seg-append, Seg-split, Seg-write, Apart-unused, load-some,
  modify-some, listitem_checksig-some, write_here, write_there, Cells-cases, Seg-first, write_twice,
  Spares, Disjoint-one, Apart-Disjoint,
}

pub not_null : (head : ℕ) → head ≢ 0 → (head == 0) ≡ false
not_null head ne = ground arith

-- An item alone.
pub only : (h : Heap) (a d : ℕ) → a ≢ 0 → IsList (write h a (some (item 0 a d))) a ((a, d) ∷ [])
only h a d nonnull = record { at = refl; linked = cons (write_here h a _) nonnull tt nil }

-- In front of a list: the new item, then the old first one, whose `prev` has changed.
before :
    (h : Heap) (a d p e : ℕ) (xs : Cells)
    → a ≢ 0
    → h a ≡ none
    → Seg h 0 (last_or p xs) ((p, e) ∷ xs)
    → IsList
        (write (write h a (some (item p (last_or p xs) d))) p (some (item (first_or 0 xs) a e)))
        a
        ((a, d) ∷ (p, e) ∷ xs)
before h a d p e xs nonnull unused (cons at ne out s) =
    let apart = Apart-unused a unused (cons at ne out s) in
    record {
      at = refl;
      linked =
          cons (write_there _ p a _ apart.0 ∙ write_here h a _) nonnull apart
            (cons (write_here _ p _) ne out (Seg-write p _ out (Seg-write a _ apart.1 s)));
    }

pub set_only-only :
    (h : Heap) (a d : ℕ) (junk : Listitem)
    → a ≢ 0
    → set_only a d (write h a (some (record junk { listitem_sig = listitem_signature })))
      ≡ some (write h a (some (item 0 a d)))
unfolding set_only
set_only-only h a d junk nonnull =
    modify-some _ _ (write_here h a _) nonnull ∙ ap some (write_twice h a _ _)

set_first-before :
    (h : Heap) (a d p n b e : ℕ) (junk : Listitem)
    → a ≢ 0
    → p ≢ 0
    → p ≢ a
    → h p ≡ some (item n b e)
    → set_first p a d (write h a (some (record junk { listitem_sig = listitem_signature })))
      ≡ some (write (write h a (some (item p b d))) p (some (item n a e)))
unfolding set_first
set_first-before h a d p n b e junk nonnull ne differ at =
    let h0 = write h a (some (record junk { listitem_sig = listitem_signature })) in
    let h1 = write h a (some (item p b d)) in
    rw (
      listitem_checksig-some h0 (write_there h a p _ differ ∙ at) ne,
      modify-some h0 (λ m. record m { next = p; prev = b; datum = d }) (write_here h a _) nonnull,
      write_twice h a (some (record junk { listitem_sig = listitem_signature }))
          (some (item p b d)),
      modify-some h1 (λ m. record m { prev = a }) (write_there h a p _ differ ∙ at) ne,
    )

pub lpush_lem :
    {h : Heap} {head : ℕ} (xs : Cells) (a d : ℕ) (junk : Listitem)
    → IsList h head xs
    → h a ≡ none
    → a ≢ 0
    → (h' : Heap) × (lpush (some head) d (some (a, junk)) h ≡ some (a, some a, h'))
      × IsList h' a ((a, d) ∷ xs)
      × Spares a xs h h'
unfolding lpush
lpush_lem {h} {head} [] a d junk v unused nonnull = (
  write h a (some (item 0 a d)),
  rw (v.at, set_only-only h a d junk nonnull) refl,
  only h a d nonnull,
  λ x ne apart. write_there h a x _ ne,
)
lpush_lem {h} {head} ((p, e) ∷ xs) a d junk v unused nonnull =
    let (here, ne, out, s) = Seg-first v.linked in
    (
      write (write h a (some (item p (last_or p xs) d))) p (some (item (first_or 0 xs) a e)),
      rw
          (
            v.at,
            not_null p ne,
            set_first-before h a d p _ _ e junk nonnull ne
                (λ e. (Apart-unused a unused v.linked).0 (sym e)) here,
          )
          refl,
      before h a d p e xs nonnull unused v.linked,
      λ x ne' apart. write_there _ p x _ apart.0 ∙ write_there h a x _ ne',
    )
