-- ===== src/LinkedList/Find.antt =====
-- `lbelongs`, `lpeek` and `rpeek` of supp_src/lib_lists.c look into a list, and `ldelete` takes an
-- item out of it.
pub mod Delete
use cosimus.Base.{
  ℕ, zero, suc, ◌≡◌, ◌≢◌, refl, sym, ap, subst, ◌∙◌, ◌⊎◌, inl, inr, Bool, true, false, Option, none,
  some, List, [], ◌∷◌, ◌++◌, ◌==◌, ==_iff, if◌then◌else◌, ◌>>=◌, arith, Bool-cases, length, ◌<◌,
}
use cosimus.LinkedList.{
  Listitem, Heap, Malloc, write, load, modify, listitem_checksig, listitem_signature, discard,
  unlink_middle, unlink_found, lpop, rpop, lpeek, rpeek, lbelongs, lbelongs_rounds, ldelete,
}
use cosimus.LinkedList.Seg.{
  Cells, item, first_or, first_or-append, first_or_snoc, last_or, Apart, Disjoint, Seg, nil, cons,
  IsList, Apart-append, Apart-split, last_or-append, Seg-append, Seg-split, Seg-write, Apart-unused,
  load-some, modify-some, listitem_checksig-some, write_here, write_there, Cells-cases, Seg-first,
  write_twice, Spares, Disjoint-one, Apart-Disjoint,
}
use cosimus.LinkedList.Push.{not_null}

-- Whether `el` is the address of an item.
abbrev pub has : ℕ → Cells → Bool
has el [] = false
has el ((p, d) ∷ xs) = if p == el then true else has el xs

-- NULL, or an item in use.
abbrev pub Marked : ℕ → Heap → Type 0
Marked el h = (el ≡ 0) ⊎ ((n : Listitem) × (listitem_checksig el h ≡ some n))

rounds-has :
    (fuel : ℕ) {h : Heap} (head : ℕ) {el b : ℕ} (xs : Cells)
    → Seg h 0 b xs
    → length xs < fuel
    → (first_or 0 xs ≡ 0) ⊎ ((m : Listitem) × (listitem_checksig head h ≡ some m))
    → Marked el h
    → lbelongs_rounds fuel head (first_or 0 xs) el h ≡ some (has el xs)
unfolding lbelongs_rounds
rounds-has zero head xs s enough ok marked = absurd (omega arith)
rounds-has (suc fuel) head [] s enough ok (inl e) = rw e refl
rounds-has (suc fuel) head {el} [] s enough ok (inr (n, e)) = elim (Bool-cases (el == 0)) [
  | inl null ↦ rw null refl
  | inr used ↦ rw (used, e) refl
]
rounds-has (suc fuel) head ((p, d) ∷ xs) s enough (inl e) marked = absurd ((Seg-first s).1 e)
rounds-has (suc fuel) {h} head {el} ((p, d) ∷ xs) s enough (inr (m, ok)) marked =
    let (here, ne, out, t) = Seg-first s in
    let rest = rounds-has fuel head xs t (omega arith) (inr (m, ok)) marked in
    rw (not_null p ne, ok, listitem_checksig-some h here ne)
      (elim (Bool-cases (p == el)) [ inl found ↦ rw found refl | inr other ↦ rw other rest ])

-- The mark of a list's first item.
first_marked :
    {h : Heap} {b : ℕ} (xs : Cells)
    → Seg h 0 b xs
    → (first_or 0 xs ≡ 0) ⊎ ((m : Listitem) × (listitem_checksig (first_or 0 xs) h ≡ some m))
first_marked [] s = inl refl
first_marked {h} ((p, d) ∷ xs) s =
    let (here, ne, out, t) = Seg-first s in inr (_, listitem_checksig-some h here ne)

-- `lbelongs` on a list, for NULL or an item in use: its loop ends within one round more than the list
-- has items, and it says whether the item is one of the list's.
pub lbelongs-has :
    {h : Heap} {head : ℕ} (fuel : ℕ) (xs : Cells) (el : ℕ)
    → IsList h head xs
    → length xs < fuel
    → Marked el h
    → lbelongs fuel (some head) el h ≡ some (has el xs)
unfolding lbelongs
lbelongs-has fuel xs el v enough marked =
    rw v.at (rounds-has fuel (first_or 0 xs) xs v.linked enough (first_marked xs v.linked) marked)

abbrev pub first_datum : Cells → ℕ
first_datum [] = 0
first_datum ((p, d) ∷ xs) = d

abbrev pub last_datum : ℕ → Cells → ℕ
last_datum d [] = d
last_datum d ((p, e) ∷ xs) = last_datum e xs

-- What is known of the last item of a stretch.
pub Seg-last :
    {h : Heap} {e b : ℕ} (p d : ℕ) (xs : Cells)
    → Seg h e b ((p, d) ∷ xs)
    → (m : ℕ) × (h (last_or p xs) ≡ some (item e m (last_datum d xs))) × (last_or p xs ≢ 0)
Seg-last {b = b} p d [] s = let (here, ne, out, t) = Seg-first s in (b, here, ne)
Seg-last p d ((q, f) ∷ xs) s = Seg-last q f xs (Seg-first s).3

-- `lpeek` and `rpeek` return the data of the first and of the last item, and NULL for an empty list.
pub peek_ends :
    {h : Heap} {head : ℕ} (xs : Cells)
    → IsList h head xs
    → (lpeek (some head) h ≡ some (first_datum xs)) × (rpeek (some head) h ≡ some (last_datum 0 xs))
unfolding lpeek rpeek
peek_ends [] v = rw v.at (refl, refl)
peek_ends {h} ((p, d) ∷ xs) v =
    let (here, ne, out, t) = Seg-first v.linked in
    let (m, last, qn) = Seg-last p d xs v.linked in
    (
      rw (v.at, not_null p ne, listitem_checksig-some h here ne) refl,
      rw
          (
            v.at,
            not_null p ne,
            load-some h here ne,
            not_null (last_or p xs) qn,
            listitem_checksig-some h here ne,
            load-some h last qn,
          )
          refl,
    )
