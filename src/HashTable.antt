-- ===== src/HashTable.antt =====
-- supp_src/lib_hash.c: a hash table with callbacks, whose iterators hold on to deleted entries.
-- The memory of the entries is a function from addresses; a bucket, and the list that iterators
-- follow, are lists of addresses. 0 is NULL. `hash` is `hashlittle` of supp_src/lib_hash_func.c with
-- the table's initial value. Functions of the caller are known by their addresses, and calls of
-- them are recorded in `calls`; those that decide something are arguments. `none` is a failed
-- assertion or an access through a bad pointer or past a key.
pub mod Find
pub mod Insert
pub mod Delete
pub mod Iterate
use cosimus.Base.{
  ℕ, zero, suc, ◌+◌, ◌-◌, ◌%◌, ◌^◌, Bool, true, false, ◌&&◌, not, Option, none, some, List, [], ◌∷◌,
  peek, set, replicate, peek_all, ltb, leb, ◌==◌, if◌then◌else◌, ◌>>=◌,
}
use cosimus.Dbuf.Append.{strlen}

-- `hash_entry_t`
pub record HashEntry : Type 0 where
  pub key : List ℕ
  pub key_len : ℕ
  pub datum : ℕ
  pub is_deleted : Bool
  pub lock_count : ℕ
  pub do_delete : ℕ
  pub destructor : ℕ

-- A call of one of the caller's functions: which one, with the key and the data, and the entries that
-- were in the table at that time.
pub record Call : Type 0 where
  pub callee : ℕ
  pub key : List ℕ
  pub datum : ℕ
  pub present : List ℕ

-- `htable_t` with its entries.
pub record HTable : Type 0 where
  pub entries : ℕ → Option HashEntry
  pub buckets : List (List ℕ)
  pub all_entries : List ℕ
  pub index_bits : ℕ
  pub default_key_len : ℕ
  pub calls : List Call

-- `halloc(default_key_len, index_bits)`; `table` and `heads` say whether the two allocations succeed.
unfoldable pub halloc : Bool → Bool → ℕ → ℕ → Option (Option HTable)
halloc false heads default_key_len index_bits = some none
halloc true heads default_key_len index_bits =
    if ltb 1 index_bits && leb index_bits 31
    then some (
        if heads
        then some (record {
          entries = λ a. none;
          buckets = replicate (2 ^ index_bits) [];
          all_entries = [];
          index_bits = index_bits;
          default_key_len = default_key_len;
          calls = [];
        })
        else none)
    else none

-- `h_index(ht, key, key_len)`
unfoldable pub h_index : (List ℕ → ℕ) → HTable → List ℕ → ℕ → Option ℕ
h_index hash t key n = peek_all key 0 n >>= λ bytes. some (hash bytes % 2 ^ t.index_bits)

-- `memcmp(a, b, n) == 0`
unfoldable pub same_bytes : List ℕ → List ℕ → ℕ → Option Bool
same_bytes a b zero = some true
same_bytes [] b (suc n) = none
same_bytes (x ∷ a) [] (suc n) = none
same_bytes (x ∷ a) (y ∷ b) (suc n) = same_bytes a b n >>= λ rest. some (x == y && rest)

-- `!hen->is_deleted && memcmp(key, hen->key, key_len) == 0`
unfoldable pub matches : HashEntry → List ℕ → ℕ → Option Bool
matches e key n = if e.is_deleted then some false else same_bytes key e.key n

-- The loop of `h_entry` over a bucket.
unfoldable pub find_in : (ℕ → Option HashEntry) → List ℕ → List ℕ → ℕ → Option (Option ℕ)
find_in entries [] key n = some none
find_in entries (a ∷ as') key n = entries a >>= λ e.
    matches e key n >>= λ hit. if hit then some (some a) else find_in entries as' key n

-- `h_entry(ht, index, key, key_len)`
unfoldable pub h_entry : HTable → ℕ → List ℕ → ℕ → Option (Option ℕ)
h_entry t index key n = peek t.buckets index >>= λ bucket. find_in t.entries bucket key n

-- `hen ? hen->data : NULL`
unfoldable pub datum_of : HTable → Option ℕ → Option ℕ
datum_of t none = some 0
datum_of t (some a) = t.entries a >>= λ e. some e.datum

-- `hfind(ht, key, key_len)`
unfoldable pub hfind : (List ℕ → ℕ) → Option HTable → List ℕ → ℕ → Option ℕ
hfind hash none key n = some 0
hfind hash (some t) key n = h_index hash t key n >>= λ index. h_entry t index key n >>= datum_of t

unfoldable pub update : (ℕ → Option HashEntry) → ℕ → Option HashEntry → ℕ → Option HashEntry
update f a c x = if x == a then c else f x

unfoldable pub remove : ℕ → List ℕ → List ℕ
remove a [] = []
remove a (x ∷ xs) = let rest = remove a xs in if x == a then xs else x ∷ rest

-- `LIST_REMOVE(hen, entries)`: wherever the entry is linked in.
unfoldable pub remove_each : ℕ → List (List ℕ) → List (List ℕ)
remove_each a [] = []
remove_each a (b ∷ bs) = remove a b ∷ remove_each a bs

-- A call, if the function is not NULL.
unfoldable pub call : ℕ → HashEntry → List ℕ → List Call → List Call
call f e present calls =
    if f == 0
    then calls
    else record { callee = f; key = e.key; datum = e.datum; present = present } ∷ calls

-- `h_do_delete(ht, hen, do_delete)`
unfoldable pub h_do_delete : HTable → ℕ → ℕ → Option HTable
h_do_delete t a do_delete = t.entries a >>= λ e.
    let t1 = record t { calls = call do_delete e t.all_entries t.calls } in
    let t2 = record t1 {
      buckets = remove_each a t1.buckets;
      all_entries = remove a t1.all_entries;
    } in
    let t3 = record t2 { calls = call e.destructor e t2.all_entries t2.calls } in
    some (record t3 { entries = update t3.entries a none })

-- `h_try_delete(ht, hen, do_delete, &did_delete)`: whether it was deleted, and the table.
unfoldable pub h_try_delete : HTable → ℕ → ℕ → Option (Bool × HTable)
h_try_delete t a do_delete = t.entries a >>= λ e.
    if e.lock_count == 0
    then (h_do_delete t a do_delete >>= λ t'. some (true, t'))
    else some (
      false,
      record t {
        entries = update t.entries a (some (record e { is_deleted = true; do_delete = do_delete }));
      },
    )

-- A decision of the caller on the key and the old and the new data; `none` for NULL.
abbrev pub Decide : Type 0
Decide = Option (List ℕ → ℕ → ℕ → Bool)

abbrev pub allows : Decide → List ℕ → ℕ → ℕ → Bool
allows none key old new = true
allows (some f) key old new = f key old new

-- `if (hen_old) h_try_delete(…); else *did_delete = 0;`
unfoldable pub delete_old : HTable → Option ℕ → ℕ → Option (Bool × HTable)
delete_old t none do_delete = some (false, t)
delete_old t (some a) do_delete = h_try_delete t a do_delete

-- The new entry at `a`, in front of its bucket and of all entries.
unfoldable pub link_entry : HTable → ℕ → ℕ → List ℕ → ℕ → ℕ → ℕ → Option HTable
link_entry t a index key n datum destructor = peek t.buckets index >>= λ bucket.
    peek_all key 0 n >>= λ bytes. some (record t {
      entries = update t.entries a (
          some (record {
            key = bytes;
            key_len = n;
            datum = datum;
            is_deleted = false;
            lock_count = 0;
            do_delete = 0;
            destructor = destructor;
          }));
      buckets = set t.buckets index (a ∷ bucket);
      all_entries = a ∷ t.all_entries;
    })

-- `h_alloc_hen(key_len)` answered by `hen`, and what follows it in `hinsert`.
unfoldable pub insert_new :
    HTable → Option ℕ → Option ℕ → ℕ → ℕ → List ℕ → ℕ → ℕ → ℕ → ℕ → Option (ℕ × Bool × HTable)
insert_new t none old data_old index key n datum destructor do_delete = some (datum, false, t)
insert_new t (some a) old data_old index key n datum destructor do_delete =
    delete_old t old do_delete >>= λ (did, t1).
    link_entry t1 a index key n datum destructor >>= λ t2. some (data_old, did, t2)

-- `hinsert(ht, key, key_len, data, destructor, can_replace, do_delete, &did_delete)`: what it returns,
-- what it stores in `did_delete`, and the table.
unfoldable pub hinsert :
    (List ℕ → ℕ) → HTable → List ℕ → ℕ → ℕ → ℕ → Decide → ℕ → Option ℕ → Option (ℕ × Bool × HTable)
hinsert hash t key n datum destructor can_replace do_delete hen = h_index hash t key n >>= λ index.
    h_entry t index key n >>= λ old. datum_of t old >>= λ data_old.
    if allows can_replace key data_old datum
    then insert_new t hen old data_old index key n datum destructor do_delete
    else some (datum, false, t)

-- `hdelete(ht, key, key_len, can_delete, do_delete, &did_delete)`, when the entry was looked for.
unfoldable pub delete_found : HTable → Option ℕ → List ℕ → Decide → ℕ → Option (ℕ × Bool × HTable)
delete_found t none key can_delete do_delete = some (0, false, t)
delete_found t (some a) key can_delete do_delete = t.entries a >>= λ e.
    if allows can_delete key e.datum 0
    then (h_try_delete t a do_delete >>= λ (did, t'). some (e.datum, did, t'))
    else some (0, false, t)

-- `hdelete(ht, key, key_len, can_delete, do_delete, &did_delete)`
unfoldable pub hdelete :
    (List ℕ → ℕ) → HTable → List ℕ → ℕ → Decide → ℕ → Option (ℕ × Bool × HTable)
hdelete hash t key n can_delete do_delete = h_index hash t key n >>= λ index.
    h_entry t index key n >>= λ found. delete_found t found key can_delete do_delete

-- The same for strings: the key is the string with its zero byte.
unfoldable pub hfinds : (List ℕ → ℕ) → Option HTable → List ℕ → Option ℕ
hfinds hash t key = strlen key >>= λ n. hfind hash t key (n + 1)

unfoldable pub hinserts :
    (List ℕ → ℕ) → HTable → List ℕ → ℕ → ℕ → Decide → ℕ → Option ℕ → Option (ℕ × Bool × HTable)
hinserts hash t key datum destructor can_replace do_delete hen =
    strlen key >>= λ n. hinsert hash t key (n + 1) datum destructor can_replace do_delete hen

unfoldable pub hdeletes : (List ℕ → ℕ) → HTable → List ℕ → Decide → ℕ → Option (ℕ × Bool × HTable)
hdeletes hash t key can_delete do_delete =
    strlen key >>= λ n. hdelete hash t key (n + 1) can_delete do_delete

-- `hdeletess`: whether there was data.
unfoldable pub hdeletess :
    (List ℕ → ℕ) → HTable → List ℕ → Decide → ℕ → Option (Bool × Bool × HTable)
hdeletess hash t key can_delete do_delete =
    hdeletes hash t key can_delete do_delete >>= λ (old, did, t'). some (not (old == 0), did, t')

-- `h_lock_hen_iter(ht, hen)`
unfoldable pub h_lock_hen_iter : HTable → ℕ → Option HTable
h_lock_hen_iter t zero = some t
h_lock_hen_iter t (suc a) = t.entries (suc a) >>= λ e. some (record t {
  entries = update t.entries (suc a) (some (record e { lock_count = e.lock_count + 1 }));
})

-- `h_unlock_hen_iter(ht, hen)`; the count is above 0 while an iterator is on the entry.
unfoldable pub h_unlock_hen_iter : HTable → ℕ → Option HTable
h_unlock_hen_iter t zero = some t
h_unlock_hen_iter t (suc a) = t.entries (suc a) >>= λ e.
    let e' = record e { lock_count = e.lock_count - 1 } in
    let t' = record t { entries = update t.entries (suc a) (some e') } in
    if e.lock_count == 1 && e.is_deleted then h_do_delete t' (suc a) e.do_delete else some t'

-- The first entry of a list, and the one behind `a`.
abbrev pub first_of : List ℕ → ℕ
first_of [] = 0
first_of (a ∷ as') = a

abbrev pub next_of : ℕ → List ℕ → ℕ
next_of a [] = 0
next_of a (x ∷ xs) = if x == a then first_of xs else next_of a xs

-- `hiter_first(ht)`, whose `calloc` succeeds: the entry that the iterator is on, and the table.
unfoldable pub hiter_first : HTable → Option (ℕ × HTable)
hiter_first t =
    h_lock_hen_iter t (first_of t.all_entries) >>= λ t'. some (first_of t.all_entries, t')

-- `hiter_has_items(iter)`
abbrev pub hiter_has_items : ℕ → Bool
hiter_has_items hen = not (hen == 0)

-- `hiter_next(iter)`: the entry that the iterator moves to, and the table.
unfoldable pub hiter_next : HTable → ℕ → Option (ℕ × HTable)
hiter_next t hen =
    let next = if hen == 0 then 0 else next_of hen t.all_entries in
    h_lock_hen_iter t next >>= λ t1. h_unlock_hen_iter t1 hen >>= λ t2. some (next, t2)

-- `hiter_free(iter)`
unfoldable pub hiter_free : HTable → ℕ → Option HTable
hiter_free t hen = h_unlock_hen_iter t hen

-- `hiter_key(iter)`, `hiter_key_len(iter)` and `hiter_data(iter)`
unfoldable pub hiter_key : HTable → ℕ → Option (Option (List ℕ))
hiter_key t zero = some none
hiter_key t (suc a) = t.entries (suc a) >>= λ e. some (some e.key)

unfoldable pub hiter_key_len : HTable → ℕ → Option ℕ
hiter_key_len t zero = some 0
hiter_key_len t (suc a) = t.entries (suc a) >>= λ e. some e.key_len

unfoldable pub hiter_data : HTable → ℕ → Option ℕ
hiter_data t zero = some 0
hiter_data t (suc a) = t.entries (suc a) >>= λ e. some e.datum
