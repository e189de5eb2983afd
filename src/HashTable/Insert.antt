-- ===== src/HashTable/Insert.antt =====
-- `hinsert` of supp_src/lib_hash.c: the key is found with its new data.
use cosimus.Base.{
  ℕ, zero, suc, ◌≤◌, ◌<◌, ◌≡◌, ◌%◌, ◌^◌, subst, refl, sym, ap, ◌∙◌, Bool, true, false, Option, none,
  some, List, [], ◌∷◌, All, length, peek, set, take, replicate, leb, lt→ltb, peek_all-take, ◌==◌,
  inr, arith,
}
use native.Mathlib.Nat.{mod-lt, one-le-pow}
use mathlib.Core.Option.{none-ne-some}
use cosimus.HashTable.{
  HashEntry, HTable, matches, find_in, update, h_entry, hfind, datum_of, delete_old, link_entry,
  insert_new, hinsert, halloc,
}
use cosimus.HashTable.Find.{
  Searchable, Misses, Answer, missing, hit, find_in-Answer, same_bytes_self, update_here,
}
use cosimus.HashTable.Delete.{
  NotIn, Distinct, OneMatch, OneMatch-rest, try_delete-Misses, Ready, h_index-Ready, Misses-update,
}

peek-set :
    (bs : List (List ℕ)) (i : ℕ) {b : List ℕ} (c : List ℕ)
    → peek bs i ≡ some b
    → peek (set bs i c) i ≡ some c
peek-set [] i c e = cc
peek-set (x ∷ bs) zero c e = refl
peek-set (x ∷ bs) (suc i) c e = peek-set bs i c e

unused-NotIn :
    (entries : ℕ → Option HashEntry) (key : List ℕ) (n a : ℕ) (xs : List ℕ)
    → entries a ≡ none
    → All (Misses entries key n) xs
    → NotIn a xs
unused-NotIn entries key n a [] unused all = tt
unused-NotIn entries key n a (x ∷ xs) unused ((e, there, m), all) = (
  (λ i. none-ne-some _ (sym unused ∙ ap entries (sym i) ∙ there)),
  unused-NotIn entries key n a xs unused all,
)

Searchable-Misses :
    (entries : ℕ → Option HashEntry) (key : List ℕ) (n : ℕ) (xs : List ℕ)
    → All (Misses entries key n) xs
    → Searchable entries key n xs
Searchable-Misses entries key n [] all = tt
Searchable-Misses entries key n (x ∷ xs) ((e, there, m), all) =
    ((e, false, there, m), Searchable-Misses entries key n xs all)

-- A new entry in front of a bucket in which no entry has the key.
link_entry-Ready :
    {hash : List ℕ → ℕ} {t : HTable} {key : List ℕ} {n index : ℕ} {bucket : List ℕ} (t1 : HTable)
    (bucket1 : List ℕ) (a datum destructor : ℕ)
    → Ready hash t key n index bucket
    → peek t1.buckets index ≡ some bucket1
    → All (Misses t1.entries key n) bucket1
    → t1.index_bits ≡ t.index_bits
    → Distinct bucket1
    → t1.entries a ≡ none
    → (t2 : HTable) × (link_entry t1 a index key n datum destructor ≡ some t2)
      × (hfind hash (some t2) key n ≡ some datum)
      × Ready hash t2 key n index (a ∷ bucket1)
unfolding link_entry
link_entry-Ready {hash} {t} {key} {n} {index} t1 bucket1 a datum destructor v at misses bits d
      unused =
    let e : HashEntry = record {
      key = take n key;
      key_len = n;
      datum = datum;
      is_deleted = false;
      lock_count = 0;
      do_delete = 0;
      destructor = destructor;
    } in
    let t2 : HTable = record t1 {
      entries = update t1.entries a (some e);
      buckets = set t1.buckets index (a ∷ bucket1);
      all_entries = a ∷ t1.all_entries;
    } in
    let out = unused-NotIn t1.entries key n a bucket1 unused misses in
    let misses' = Misses-update t1.entries key n a (some e) bucket1 out misses in
    let here = update_here t1.entries a (some e) in
    let hits : matches e key n ≡ some true = unfold matches in same_bytes_self key n v.long in
    let ready : Ready hash t2 key n index (a ∷ bucket1) = record {
      long = v.long;
      at = v.at ∙ ap (λ k. hash (take n key) % 2 ^ k) (sym bits);
      bucket_at = peek-set t1.buckets index (a ∷ bucket1) at;
      searchable = ((e, true, here, hits), Searchable-Misses t2.entries key n bucket1 misses');
      distinct = (out, d);
      one = inr misses';
    } in
    (
      t2,
      rw (at, peek_all-take key n v.long) refl,
      unfold hfind h_entry datum_of find_in in
          rw (h_index-Ready ready, ready.bucket_at, here, hits) (rw here refl),
      ready,
    )

-- In a table that is ready for a key, `hinsert` of it with a new entry from `malloc`, when the caller
-- has nothing against it, returns the data that `hfind` found before, or NULL; afterwards `hfind` finds
-- the new data, and the table is ready for the key again.
pub hinsert-hfind :
    (hash : List ℕ → ℕ) (t : HTable) (key bucket : List ℕ)
    (n index datum destructor do_delete a : ℕ)
    → Ready hash t key n index bucket
    → t.entries a ≡ none
    → (old : ℕ) × (did : Bool) × (t' : HTable) × (bucket' : List ℕ) × (hfind hash (some t) key n
        ≡ some old)
      × (hinsert hash t key n datum destructor none do_delete (some a) ≡ some (old, did, t'))
      × (hfind hash (some t') key n ≡ some datum)
      × Ready hash t' key n index bucket'
unfolding hinsert h_entry datum_of insert_new delete_old
hinsert-hfind hash t key bucket n index datum destructor do_delete a v unused =
    let (r, found, answer) = find_in-Answer t.entries key n bucket v.searchable in
    by_answer r found answer
  where
    by_answer :
        (r : Option ℕ)
        → find_in t.entries bucket key n ≡ some r
        → Answer t.entries key n bucket r
        → (old : ℕ) × (did : Bool) × (t' : HTable) × (bucket' : List ℕ) × (hfind hash (some t) key n
            ≡ some old)
          × (hinsert hash t key n datum destructor none do_delete (some a) ≡ some (old, did, t'))
          × (hfind hash (some t') key n ≡ some datum)
          × Ready hash t' key n index bucket'
    by_answer none found (missing all) =
        let (t2, linked, finds, ready) =
          link_entry-Ready t bucket a datum destructor v v.bucket_at all refl v.distinct unused in
        (
          0,
          false,
          t2,
          a ∷ bucket,
          unfold hfind in rw (h_index-Ready v, v.bucket_at, found) refl,
          rw (h_index-Ready v, v.bucket_at, found, linked) refl,
          finds,
          ready,
        )
    by_answer (some x) found (hit xs ys e at there m before) =
        let after =
          OneMatch-rest t.entries key n x e xs ys there m
            (subst (OneMatch t.entries key n) at v.one) in
        let (t1, bucket1, ran, at1, misses, bits, d, still_unused) =
          try_delete-Misses t x do_delete index xs ys key n e (v.bucket_at ∙ ap some at) there
            (subst Distinct at v.distinct) before after in
        let (t2, linked, finds, ready) =
          link_entry-Ready t1 bucket1 a datum destructor v at1 misses bits d
            (still_unused a unused) in
        (
          e.datum,
          (e.lock_count == 0),
          t2,
          a ∷ bucket1,
          unfold hfind in rw (h_index-Ready v, v.bucket_at, found, there) refl,
          rw (h_index-Ready v, v.bucket_at, found, there, ran, linked) refl,
          finds,
          ready,
        )

peek-replicate : (m i : ℕ) (b : List ℕ) → i < m → peek (replicate m b) i ≡ some b
peek-replicate zero i b h = absurd (omega arith)
peek-replicate (suc m) zero b h = refl
peek-replicate (suc m) (suc i) b h = peek-replicate m i b (omega arith)

-- A new table of `halloc`, for 2 to 31 index bits, is ready for every key.
pub halloc-Ready :
    (hash : List ℕ → ℕ) (default_key_len index_bits : ℕ) (key : List ℕ) (n : ℕ)
    → 1 < index_bits
    → index_bits ≤ 31
    → n ≤ length key
    → (t : HTable) × (halloc true true default_key_len index_bits ≡ some (some t))
      × Ready hash t key n (hash (take n key) % 2 ^ index_bits) []
unfolding halloc
halloc-Ready hash default_key_len index_bits key n low high long =
    let t : HTable = record {
      entries = λ a. none;
      buckets = replicate (2 ^ index_bits) [];
      all_entries = [];
      index_bits = index_bits;
      default_key_len = default_key_len;
      calls = [];
    } in
    (
      t,
      rw (lt→ltb 1 index_bits low, small) refl,
      record {
        long = long;
        at = refl;
        bucket_at =
            peek-replicate (2 ^ index_bits) _ [] (mod-lt (hash (take n key)) (pow-pos index_bits));
        searchable = tt;
        distinct = tt;
        one = tt;
      },
    )
  where
    small : leb index_bits 31 ≡ true
    small = ground arith

    pow-pos : (k : ℕ) → 0 < 2 ^ k
    pow-pos k = one-le-pow k 2 (omega arith)
