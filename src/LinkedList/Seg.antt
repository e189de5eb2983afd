-- ===== src/LinkedList/Seg.antt =====
-- Stretches of a list in the memory of supp_src/lib_lists.c, and whole lists.
use mathlib.Core.Path.{fun_ext}
use cosimus.Base.{
  ℕ, ◌≡◌, ◌≢◌, refl, sym, ap, ◌⊎◌, inl, inr, Option, none, some, List, [], ◌∷◌, ◌++◌, arith,
}
use cosimus.LinkedList.{Listitem, Heap, write, load, modify, listitem_checksig, listitem_signature}

-- Address and data of each item, in order.
abbrev pub Cells : Type 0
Cells = List (ℕ × ℕ)

abbrev pub item : ℕ → ℕ → ℕ → Listitem
item n p d = record { next = n; prev = p; listitem_sig = listitem_signature; datum = d }

abbrev pub first_or : ℕ → Cells → ℕ
first_or e [] = e
first_or e ((p, d) ∷ xs) = p

abbrev pub last_or : ℕ → Cells → ℕ
last_or b [] = b
last_or b ((p, d) ∷ xs) = last_or p xs

-- `a` is the address of none of the cells.
abbrev pub Apart : ℕ → Cells → Type 0
Apart a [] = Unit
Apart a ((p, d) ∷ xs) = (a ≢ p) × Apart a xs

abbrev pub Disjoint : Cells → Cells → Type 0
Disjoint [] ys = Unit
Disjoint ((p, d) ∷ xs) ys = Apart p ys × Disjoint xs ys

-- The items `xs` in a row: `b` is before them and `e` behind.
pub data Seg (h : Heap) (e : ℕ) : ℕ → Cells → Type 0 where
  nil : {b : ℕ} → Seg h e b []
  cons :
      {b p d : ℕ} {xs : Cells}
      → h p ≡ some (item (first_or e xs) b d)
      → p ≢ 0
      → Apart p xs
      → Seg h e p xs
      → Seg h e b ((p, d) ∷ xs)

-- A list: the first item's `prev` is the last item.
pub record IsList (h : Heap) (head : ℕ) (xs : Cells) : Type 0 where
  pub at : head ≡ first_or 0 xs
  pub linked : Seg h 0 (last_or 0 xs) xs

pub Apart-append : (a : ℕ) (xs ys : Cells) → Apart a xs → Apart a ys → Apart a (xs ++ ys)
Apart-append a [] ys hx hy = hy
Apart-append a (x ∷ xs) ys hx hy = (hx.0, Apart-append a xs ys hx.1 hy)

pub Apart-split : (a : ℕ) (xs ys : Cells) → Apart a (xs ++ ys) → Apart a xs × Apart a ys
Apart-split a [] ys h = (tt, h)
Apart-split a (x ∷ xs) ys h = let (hx, hy) = Apart-split a xs ys h.1 in ((h.0, hx), hy)

pub first_or-append : (e : ℕ) (xs ys : Cells) → first_or e (xs ++ ys) ≡ first_or (first_or e ys) xs
first_or-append e [] ys = refl
first_or-append e (x ∷ xs) ys = refl

pub last_or-append : (b : ℕ) (xs ys : Cells) → last_or b (xs ++ ys) ≡ last_or (last_or b xs) ys
last_or-append b [] ys = refl
last_or-append b ((p, d) ∷ xs) ys = last_or-append p xs ys

pub Seg-append :
    {h : Heap} {e : ℕ} (ys : Cells) {b : ℕ} {xs : Cells}
    → Seg h (first_or e ys) b xs
    → Seg h e (last_or b xs) ys
    → Disjoint xs ys
    → Seg h e b (xs ++ ys)
Seg-append ys nil t apart = t
Seg-append {e = e} ys (cons {p} {xs = xs} at nonnull out s) t apart =
    cons (rw (first_or-append e xs ys) at) nonnull (Apart-append p xs ys out apart.0)
      (Seg-append ys s t apart.1)

pub Seg-split :
    {h : Heap} {b e : ℕ} (xs ys : Cells)
    → Seg h e b (xs ++ ys)
    → Seg h (first_or e ys) b xs × Seg h e (last_or b xs) ys × Disjoint xs ys
Seg-split [] ys s = (nil, s, tt)
Seg-split {e = e} ((p, d) ∷ xs) ys (cons at nonnull apart s) =
    let (hx, hy) = Apart-split p xs ys apart in
    let (sx, sy, apart') = Seg-split xs ys s in
    (cons (rw (first_or-append e xs ys) at at) nonnull hx sx, sy, (hy, apart'))

-- A write elsewhere leaves a stretch as it is.
pub Seg-write :
    {h : Heap} {e b : ℕ} {xs : Cells} (a : ℕ) (c : Option Listitem)
    → Apart a xs
    → Seg h e b xs
    → Seg (write h a c) e b xs
unfolding write
Seg-write a c apart nil = nil
Seg-write a c apart (cons at nonnull out s) =
    cons (ground arith) nonnull out (Seg-write a c apart.1 s)

-- An unused address is apart from a list.
pub Apart-unused :
    {h : Heap} {e b : ℕ} {xs : Cells} (a : ℕ) → h a ≡ none → Seg h e b xs → Apart a xs
Apart-unused a unused nil = tt
Apart-unused {h} a unused (cons at nonnull out s) = (grind arith, Apart-unused a unused s)

-- What the operations on one item come to.
pub load-some : (h : Heap) {a : ℕ} {n : Listitem} → h a ≡ some n → a ≢ 0 → load a h ≡ some n
unfolding load
load-some h e nonnull = ground arith

pub modify-some :
    (h : Heap) {a : ℕ} {n : Listitem} (f : Listitem → Listitem)
    → h a ≡ some n
    → a ≢ 0
    → modify f a h ≡ some (write h a (some (f n)))
unfolding modify
modify-some h f e nonnull = rw (load-some h e nonnull)

pub listitem_checksig-some :
    (h : Heap) {a n p d : ℕ}
    → h a ≡ some (item n p d)
    → a ≢ 0
    → listitem_checksig a h ≡ some (item n p d)
unfolding listitem_checksig
listitem_checksig-some h e nonnull = rw (load-some h e nonnull)

pub write_here : (h : Heap) (a : ℕ) (c : Option Listitem) → write h a c a ≡ c
unfolding write
write_here h a c = ground arith

pub write_there : (h : Heap) (a x : ℕ) (c : Option Listitem) → x ≢ a → write h a c x ≡ h x
unfolding write
write_there h a x c ne = ground arith

pub Cells-cases : (xs : Cells) → (xs ≡ []) ⊎ ((ys : Cells) × (l : ℕ × ℕ) × (xs ≡ ys ++ l ∷ []))
Cells-cases [] = inl refl
Cells-cases (x ∷ xs) = elim (Cells-cases xs) [
  | inl e ↦ inr ([], x, ap (λ t. x ∷ t) e)
  | inr (ys, l, e) ↦ inr (x ∷ ys, l, ap (λ t. x ∷ t) e)
]

pub write_twice :
    (h : Heap) (a : ℕ) (c c' : Option Listitem) → write (write h a c) a c' ≡ write h a c'
unfolding write
write_twice h a c c' = fun_ext λ x. ground arith

-- `h'` differs from `h` at most at `a` and at the items `xs`.
abbrev pub Spares : ℕ → Cells → Heap → Heap → Type 0
Spares a xs h h' = (x : ℕ) → x ≢ a → Apart x xs → h' x ≡ h x

pub Disjoint-one : (xs : Cells) (q f : ℕ) → Disjoint xs ((q, f) ∷ []) → Apart q xs
Disjoint-one [] q f apart = tt
Disjoint-one (x ∷ xs) q f apart = ((λ e. apart.0.0 (sym e)), Disjoint-one xs q f apart.1)

pub Apart-Disjoint : (xs : Cells) (q f : ℕ) → Apart q xs → Disjoint xs ((q, f) ∷ [])
Apart-Disjoint [] q f apart = tt
Apart-Disjoint (x ∷ xs) q f apart = (((λ e. apart.0 (sym e)), tt), Apart-Disjoint xs q f apart.1)

-- What is known of the first item of a stretch.
pub Seg-first :
    {h : Heap} {e b p d : ℕ} {xs : Cells}
    → Seg h e b ((p, d) ∷ xs)
    → (h p ≡ some (item (first_or e xs) b d)) × (p ≢ 0) × Apart p xs × Seg h e p xs
Seg-first (cons at nonnull out s) = (at, nonnull, out, s)

pub first_or_snoc :
    (t u : ℕ) (l : ℕ × ℕ) (xs : Cells) → first_or t (xs ++ l ∷ []) ≡ first_or u (xs ++ l ∷ [])
first_or_snoc t u l [] = refl
first_or_snoc t u l (x ∷ xs) = refl
