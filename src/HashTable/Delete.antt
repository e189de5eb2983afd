-- ===== src/HashTable/Delete.antt =====
-- `hdelete` of supp_src/lib_hash.c: the key is not found any more, whether its entry could be deleted
-- at once or an iterator was on it.
use cosimus.Base.{
  ℕ, zero, suc, ◌≤◌, ◌≡◌, ◌≢◌, ◌%◌, ◌^◌, refl, sym, ap, subst, ◌∙◌, Bool, true, false, Option, none,
  some, List, [], ◌∷◌, ◌++◌, ◌⊎◌, All, length, peek, take, peek_all-take, ◌==◌, ==_iff, Bool-cases,
  inl, inr, arith,
}
use mathlib.Core.Option.{some_inj, none-ne-some}
use mathlib.Core.Bool.{true≢false}
use cosimus.HashTable.{
  HashEntry, HTable, matches, find_in, update, remove, remove_each, call, h_index, h_entry, hfind,
  datum_of, h_do_delete, h_try_delete, delete_found, hdelete,
}
use cosimus.HashTable.Find.{
  Searchable, Misses, Answer, missing, hit, find_in-Answer, find_in-missing, update_here,
  update_there,
}

abbrev pub NotIn : ℕ → List ℕ → Type 0
NotIn a xs = All (λ x. x ≢ a) xs

-- No address stands twice in a bucket.
abbrev pub Distinct : List ℕ → Type 0
Distinct [] = Unit
Distinct (x ∷ xs) = NotIn x xs × Distinct xs

-- At most one entry of a bucket has the key.
abbrev pub OneMatch : (ℕ → Option HashEntry) → List ℕ → ℕ → List ℕ → Type 0
OneMatch entries key n [] = Unit
OneMatch entries key n (a ∷ xs) =
    (Misses entries key n a × OneMatch entries key n xs) ⊎ All (Misses entries key n) xs

not-Misses :
    (entries : ℕ → Option HashEntry) (key : List ℕ) (n a : ℕ) (e : HashEntry)
    → entries a ≡ some e
    → matches e key n ≡ some true
    → ¬ Misses entries key n a
not-Misses entries key n a e there m (e', there', m') =
    let same : e ≡ e' = some_inj.0 (sym there ∙ there') in
    true≢false (some_inj.0 (sym m ∙ ap (λ x. matches x key n) same ∙ m'))

All-middle : (P : ℕ → Type 0) (a : ℕ) (xs ys : List ℕ) → All P (xs ++ a ∷ ys) → P a × All P ys
All-middle P a [] ys all = (all.0, all.1)
All-middle P a (x ∷ xs) ys all = All-middle P a xs ys all.1

All-append : (P : ℕ → Type 0) (xs ys : List ℕ) → All P xs → All P ys → All P (xs ++ ys)
All-append P [] ys hx hy = hy
All-append P (x ∷ xs) ys hx hy = (hx.0, All-append P xs ys hx.1 hy)

pub OneMatch-rest :
    (entries : ℕ → Option HashEntry) (key : List ℕ) (n a : ℕ) (e : HashEntry) (xs ys : List ℕ)
    → entries a ≡ some e
    → matches e key n ≡ some true
    → OneMatch entries key n (xs ++ a ∷ ys)
    → All (Misses entries key n) ys
OneMatch-rest entries key n a e [] ys there m (inl (miss, one)) =
    absurd (not-Misses entries key n a e there m miss)
OneMatch-rest entries key n a e [] ys there m (inr all) = all
OneMatch-rest entries key n a e (x ∷ xs) ys there m (inl (miss, one)) =
    OneMatch-rest entries key n a e xs ys there m one
OneMatch-rest entries key n a e (x ∷ xs) ys there m (inr all) =
    (All-middle (Misses entries key n) a xs ys all).1

Distinct-middle : (a : ℕ) (xs ys : List ℕ) → Distinct (xs ++ a ∷ ys) → NotIn a xs × NotIn a ys
Distinct-middle a [] ys d = (tt, d.0)
Distinct-middle a (x ∷ xs) ys d =
    let (hx, hy) = Distinct-middle a xs ys d.1 in
    let other = (All-middle (λ z. z ≢ x) a xs ys d.0).0 in (((λ e. other (sym e)), hx), hy)

Distinct-remove : (a : ℕ) (xs ys : List ℕ) → Distinct (xs ++ a ∷ ys) → Distinct (xs ++ ys)
Distinct-remove a [] ys d = d.1
Distinct-remove a (x ∷ xs) ys d = (without xs d.0, Distinct-remove a xs ys d.1)
  where
    without : (zs : List ℕ) → NotIn x (zs ++ a ∷ ys) → NotIn x (zs ++ ys)
    without [] out = out.1
    without (z ∷ zs) out = (out.0, without zs out.1)

-- Entries at other addresses still miss the key.
pub Misses-update :
    (entries : ℕ → Option HashEntry) (key : List ℕ) (n a : ℕ) (c : Option HashEntry) (xs : List ℕ)
    → NotIn a xs
    → All (Misses entries key n) xs
    → All (Misses (update entries a c) key n) xs
Misses-update entries key n a c [] out all = tt
Misses-update entries key n a c (x ∷ xs) out ((e, there, m), all) =
    ((e, update_there entries a x c out.0 ∙ there, m), Misses-update entries key n a c xs out.1 all)

remove-middle : (a : ℕ) (xs ys : List ℕ) → NotIn a xs → remove a (xs ++ a ∷ ys) ≡ xs ++ ys
unfolding remove
remove-middle a [] ys out = rw ((==_iff a a).1 refl) refl
remove-middle a (x ∷ xs) ys out = rw (differs, remove-middle a xs ys out.1) refl
  where
    differs : (x == a) ≡ false
    differs = ground (arith, out.0)

peek-remove_each :
    (a : ℕ) (bs : List (List ℕ)) (i : ℕ) {b : List ℕ}
    → peek bs i ≡ some b
    → peek (remove_each a bs) i ≡ some (remove a b)
unfolding remove_each
peek-remove_each a [] i e = cc
peek-remove_each a (x ∷ bs) zero e = ap (λ t. some (remove a t)) (some_inj.0 e)
peek-remove_each a (x ∷ bs) (suc i) e = peek-remove_each a bs i e

-- `h_try_delete` of the entry that has the key: no entry of the bucket has it any more.
pub try_delete-Misses :
    (t : HTable) (a do_delete index : ℕ) (xs ys key : List ℕ) (n : ℕ) (e : HashEntry)
    → peek t.buckets index ≡ some (xs ++ a ∷ ys)
    → t.entries a ≡ some e
    → Distinct (xs ++ a ∷ ys)
    → All (Misses t.entries key n) xs
    → All (Misses t.entries key n) ys
    → (t' : HTable) × (bucket : List ℕ) × (h_try_delete t a do_delete
        ≡ some (e.lock_count == 0, t'))
      × (peek t'.buckets index ≡ some bucket)
      × All (Misses t'.entries key n) bucket
      × (t'.index_bits ≡ t.index_bits)
      × Distinct bucket
      × ((x : ℕ) → t.entries x ≡ none → t'.entries x ≡ none)
unfolding h_try_delete h_do_delete
try_delete-Misses t a do_delete index xs ys key n e at there d mx my =
    let (ox, oy) = Distinct-middle a xs ys d in
    elim (Bool-cases (e.lock_count == 0)) [
      | inl free ↦ (
        record t {
          entries = update t.entries a none;
          buckets = remove_each a t.buckets;
          all_entries = remove a t.all_entries;
          calls =
              call e.destructor e (remove a t.all_entries) (call do_delete e t.all_entries t.calls);
        },
        xs ++ ys,
        rw (there, free) refl,
        peek-remove_each a t.buckets index at ∙ ap some (remove-middle a xs ys ox),
        All-append _ xs ys (Misses-update t.entries key n a none xs ox mx)
            (Misses-update t.entries key n a none ys oy my),
        refl,
        Distinct-remove a xs ys d,
        (λ x unused. unfold update in ground arith),
      )
      | inr held ↦
          let marked = record e { is_deleted = true; do_delete = do_delete } in
          (
            record t { entries = update t.entries a (some marked) },
            xs ++ a ∷ ys,
            rw (there, held) refl,
            at,
            All-append _ xs (a ∷ ys) (Misses-update t.entries key n a (some marked) xs ox mx) (
              (marked, update_here t.entries a (some marked), unfold matches in refl),
              Misses-update t.entries key n a (some marked) ys oy my,
            ),
            refl,
            d,
            (λ x unused.
                update_there t.entries a x (some marked)
                  (λ i. none-ne-some _ (sym unused ∙ ap t.entries i ∙ there))
                ∙ unused),
          )
    ]

-- A table in which a key can be looked for: the key's bucket is there, can be searched, has no address
-- twice, and at most one entry with the key.
pub record Ready (hash : List ℕ → ℕ) (t : HTable) (key : List ℕ) (n index : ℕ) (bucket : List ℕ)
    : Type 0 where
  pub long : n ≤ length key
  pub at : index ≡ hash (take n key) % 2 ^ t.index_bits
  pub bucket_at : peek t.buckets index ≡ some bucket
  pub searchable : Searchable t.entries key n bucket
  pub distinct : Distinct bucket
  pub one : OneMatch t.entries key n bucket

pub h_index-Ready :
    {hash : List ℕ → ℕ} {t : HTable} {key : List ℕ} {n index : ℕ} {bucket : List ℕ}
    → Ready hash t key n index bucket
    → h_index hash t key n ≡ some index
unfolding h_index
h_index-Ready {key = key} {n} v = rw (peek_all-take key n v.long) (ap some (sym v.at))

-- A search in a table with as many index bits, in whose bucket no entry has the key.
pub hfind-missing :
    {hash : List ℕ → ℕ} {t : HTable} {key : List ℕ} {n index : ℕ} {bucket : List ℕ} (t' : HTable)
    (bucket' : List ℕ)
    → Ready hash t key n index bucket
    → peek t'.buckets index ≡ some bucket'
    → All (Misses t'.entries key n) bucket'
    → t'.index_bits ≡ t.index_bits
    → hfind hash (some t') key n ≡ some 0
unfolding hfind h_index h_entry datum_of
hfind-missing {hash} {key = key} {n} {index} t' bucket' v at misses bits =
    let same : hash (take n key) % 2 ^ t'.index_bits ≡ index =
      ap (λ k. hash (take n key) % 2 ^ k) bits ∙ sym v.at in
    rw (peek_all-take key n v.long, same, at, find_in-missing t'.entries key n bucket' misses) refl

abbrev is_free : Option HashEntry → Bool
is_free none = false
is_free (some e) = e.lock_count == 0

-- Whether the entry that a search found has no iterator on it.
abbrev pub unheld : (ℕ → Option HashEntry) → Option ℕ → Bool
unheld entries none = false
unheld entries (some a) = is_free (entries a)

unheld-some :
    (entries : ℕ → Option HashEntry) (a : ℕ) (e : HashEntry)
    → entries a ≡ some e
    → unheld entries (some a) ≡ (e.lock_count == 0)
unheld-some entries a e there = ap is_free there

-- In a table that is ready for a key, `hdelete` with leave to delete returns the data that `hfind` found,
-- or NULL, and says that the entry was deleted at once exactly if one was found and no iterator was on
-- it; afterwards `hfind` finds nothing.
pub hdelete-hfind :
    (hash : List ℕ → ℕ) (t : HTable) (key bucket : List ℕ) (n index do_delete : ℕ)
    → Ready hash t key n index bucket
    → (found : Option ℕ) × (old : ℕ) × (t' : HTable) × (find_in t.entries bucket key n ≡ some found)
      × (hfind hash (some t) key n ≡ some old)
      × (hdelete hash t key n none do_delete ≡ some (old, unheld t.entries found, t'))
      × (hfind hash (some t') key n ≡ some 0)
unfolding hdelete h_entry datum_of delete_found
hdelete-hfind hash t key bucket n index do_delete v =
    let (r, found, answer) = find_in-Answer t.entries key n bucket v.searchable in
    by_answer r found answer
  where
    by_answer :
        (r : Option ℕ)
        → find_in t.entries bucket key n ≡ some r
        → Answer t.entries key n bucket r
        → (found : Option ℕ) × (old : ℕ) × (t' : HTable) × (find_in t.entries bucket key n
            ≡ some found)
          × (hfind hash (some t) key n ≡ some old)
          × (hdelete hash t key n none do_delete ≡ some (old, unheld t.entries found, t'))
          × (hfind hash (some t') key n ≡ some 0)
    by_answer none found (missing all) =
        let nothing = hfind-missing t bucket v v.bucket_at all refl in
        (none, 0, t, found, nothing, rw (h_index-Ready v, v.bucket_at, found) refl, nothing)
    by_answer (some a) found (hit xs ys e at there m before) =
        let after =
          OneMatch-rest t.entries key n a e xs ys there m
            (subst (OneMatch t.entries key n) at v.one) in
        let (t', bucket', ran, at', misses, bits, d, unused) =
          try_delete-Misses t a do_delete index xs ys key n e (v.bucket_at ∙ ap some at) there
            (subst Distinct at v.distinct) before after in
        (
          some a,
          e.datum,
          t',
          found,
          unfold hfind in rw (h_index-Ready v, v.bucket_at, found, there) refl,
          rw (h_index-Ready v, v.bucket_at, found, there, ran) refl
              ∙ ap (λ b. some (e.datum, b, t')) (sym (unheld-some t.entries a e there)),
          hfind-missing t' bucket' v at' misses bits,
        )
