-- ===== src/HashTable/Find.antt =====
-- What the search of supp_src/lib_hash.c finds in a bucket, and which changes it does not notice.
use cosimus.Base.{
  ℕ, zero, suc, ◌≤◌, ◌≡◌, ◌≢◌, refl, ap, Bool, true, false, Option, none, some, List, [], ◌∷◌, ◌++◌,
  All, length, take, ==_iff, arith,
}
use cosimus.HashTable.{HashEntry, same_bytes, matches, find_in, update}

-- A key can be compared with every entry of a bucket: the entries are there, and the comparison does
-- not run past a key.
abbrev pub Searchable : (ℕ → Option HashEntry) → List ℕ → ℕ → List ℕ → Type 0
Searchable entries key n bucket =
    All (λ a. (e : HashEntry) × (b : Bool) × (entries a ≡ some e) × (matches e key n ≡ some b))
      bucket

-- The entry at `a` is there and is not the one that is looked for.
abbrev pub Misses : (ℕ → Option HashEntry) → List ℕ → ℕ → ℕ → Type 0
Misses entries key n a = (e : HashEntry) × (entries a ≡ some e) × (matches e key n ≡ some false)

-- The answer of a search.
pub data Answer (entries : ℕ → Option HashEntry) (key : List ℕ) (n : ℕ) (bucket : List ℕ)
    : Option ℕ → Type 0 where
  missing : All (Misses entries key n) bucket → Answer entries key n bucket none
  hit :
      (xs ys : List ℕ) {a : ℕ} (e : HashEntry)
      → bucket ≡ xs ++ a ∷ ys
      → entries a ≡ some e
      → matches e key n ≡ some true
      → All (Misses entries key n) xs
      → Answer entries key n bucket (some a)

pub find_in-Answer :
    (entries : ℕ → Option HashEntry) (key : List ℕ) (n : ℕ) (bucket : List ℕ)
    → Searchable entries key n bucket
    → (r : Option ℕ) × (find_in entries bucket key n ≡ some r) × Answer entries key n bucket r
unfolding find_in
find_in-Answer entries key n [] s = (none, refl, missing tt)
find_in-Answer entries key n (a ∷ bucket) ((e, true, there, m), s) =
    (some a, rw (there, m) refl, hit [] bucket e refl there m tt)
find_in-Answer entries key n (a ∷ bucket) ((e, false, there, m), s) =
    let (r, found, answer) = find_in-Answer entries key n bucket s in
    (r, rw (there, m) found, later answer)
  where
    later : {r : Option ℕ} → Answer entries key n bucket r → Answer entries key n (a ∷ bucket) r
    later (missing all) = missing ((e, there, m), all)
    later (hit xs ys e' at there' m' before) =
        hit (a ∷ xs) ys e' (ap (λ t. a ∷ t) at) there' m' ((e, there, m), before)

pub find_in-missing :
    (entries : ℕ → Option HashEntry) (key : List ℕ) (n : ℕ) (bucket : List ℕ)
    → All (Misses entries key n) bucket
    → find_in entries bucket key n ≡ some none
unfolding find_in
find_in-missing entries key n [] all = refl
find_in-missing entries key n (a ∷ bucket) ((e, there, m), all) =
    rw (there, m) (find_in-missing entries key n bucket all)

pub same_bytes_self :
    (key : List ℕ) (n : ℕ) → n ≤ length key → same_bytes key (take n key) n ≡ some true
unfolding same_bytes
same_bytes_self key zero h = refl
same_bytes_self [] (suc n) h = absurd (omega arith)
same_bytes_self (x ∷ key) (suc n) h =
    rw (same_bytes_self key n (omega arith), (==_iff x x).1 refl) refl

pub update_here : (f : ℕ → Option HashEntry) (a : ℕ) (c : Option HashEntry) → update f a c a ≡ c
unfolding update
update_here f a c = ground arith

pub update_there :
    (f : ℕ → Option HashEntry) (a x : ℕ) (c : Option HashEntry) → x ≢ a → update f a c x ≡ f x
unfolding update
update_there f a x c ne = ground arith
