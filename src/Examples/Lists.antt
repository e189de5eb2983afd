-- ===== src/Examples/Lists.antt =====
-- Tests: linked lists and hash tables at concrete values.
use cosimus.Base.{Option}
use cosimus.Base.{
  ℕ, ◌+◌, ◌≡◌, refl, Bool, true, false, none, some, List, [], ◌∷◌, ◌++◌, inl, inr, arith, ◌==◌,
  if◌then◌else◌,
}
use cosimus.LinkedList.{Listitem, Heap, rpush, lbelongs}
use cosimus.LinkedList.Seg.{Cells, item, first_or, IsList, nil, cons, Spares}
use cosimus.LinkedList.Push.Back.{rpush_lem}
use cosimus.LinkedList.Find.{has, lbelongs-has}
use cosimus.LinkedList.Find.Delete.{Deletes, ldelete_lem}
use cosimus.HashTable.{HashEntry, HTable, hfind, hinsert, hdelete}
use cosimus.HashTable.Delete.{Ready, unheld, hdelete-hfind}
use cosimus.HashTable.Insert.{hinsert-hfind}
use cosimus.HashTable.{matches, same_bytes, find_in}

-- Three items, at the addresses 16, 32 and 48.
abbrev three : Cells
three = (16, 7) ∷ (32, 8) ∷ (48, 9) ∷ []

abbrev memory : Heap
memory a =
    if a == 16
    then some (item 32 48 7)
    else (if a == 32 then some (item 48 16 8) else (if a == 48 then some (item 0 32 9) else none))

three-IsList : IsList memory 16 three
three-IsList = record {
  at = refl;
  linked =
      cons refl (omega arith) ((omega arith), ((omega arith), tt))
        (cons refl (omega arith) ((omega arith), tt) (cons refl (omega arith) tt nil));
}

abbrev junk : Listitem
junk = item 1 2 3

rpush_example :
    (h' : Heap) × (rpush (some 16) 5 (some (64, junk)) memory
      ≡ some (64, some (first_or 0 (three ++ (64, 5) ∷ [])), h'))
    × IsList h' (first_or 0 (three ++ (64, 5) ∷ [])) (three ++ (64, 5) ∷ [])
    × Spares 64 three memory h'
rpush_example = rpush_lem three 64 5 junk three-IsList refl (omega arith)

lbelongs_example : lbelongs 4 (some 16) 0 memory ≡ some (has 0 three)
lbelongs_example = lbelongs-has 4 three 0 three-IsList (omega arith) (inl refl)

ldelete_example : Deletes memory 16 32 ((16, 7) ∷ (48, 9) ∷ [])
ldelete_example = ldelete_lem ((16, 7) ∷ []) 32 8 ((48, 9) ∷ []) three-IsList

-- A table with one entry, at the address 10, on which an iterator is.
abbrev sum_hash : List ℕ → ℕ
sum_hash [] = 0
sum_hash (x ∷ xs) = x + sum_hash xs

abbrev one_entry : HashEntry
one_entry = record {
  key = 65 ∷ 0 ∷ [];
  key_len = 2;
  datum = 99;
  is_deleted = false;
  lock_count = 1;
  do_delete = 0;
  destructor = 500;
}

abbrev one_table : HTable
one_table = record {
  entries = λ a. if a == 10 then some one_entry else none;
  buckets = [] ∷ (10 ∷ []) ∷ [] ∷ [] ∷ [];
  all_entries = 10 ∷ [];
  index_bits = 2;
  default_key_len = 0;
  calls = [];
}

one_table-Ready : Ready sum_hash one_table (65 ∷ 0 ∷ []) 2 1 (10 ∷ [])
unfolding matches same_bytes
one_table-Ready = record {
  long = omega arith;
  at = refl;
  bucket_at = refl;
  searchable = ((one_entry, true, refl, refl), tt);
  distinct = (tt, tt);
  one = inr tt;
}

hdelete_example :
    (found : Option ℕ) × (old : ℕ) × (t' : HTable) × (find_in one_table.entries
        (10 ∷ [])
        (65 ∷ 0 ∷ [])
        2
      ≡ some found)
    × (hfind sum_hash (some one_table) (65 ∷ 0 ∷ []) 2 ≡ some old)
    × (hdelete sum_hash one_table (65 ∷ 0 ∷ []) 2 none 0
        ≡ some (old, unheld one_table.entries found, t'))
    × (hfind sum_hash (some t') (65 ∷ 0 ∷ []) 2 ≡ some 0)
hdelete_example = hdelete-hfind sum_hash one_table (65 ∷ 0 ∷ []) (10 ∷ []) 2 1 0 one_table-Ready

hinsert_example :
    (old : ℕ) × (did : Bool) × (t' : HTable) × (bucket' : List ℕ) × (hfind sum_hash
        (some one_table)
        (65 ∷ 0 ∷ [])
        2
      ≡ some old)
    × (hinsert sum_hash one_table (65 ∷ 0 ∷ []) 2 77 500 none 0 (some 20) ≡ some (old, did, t'))
    × (hfind sum_hash (some t') (65 ∷ 0 ∷ []) 2 ≡ some 77)
    × Ready sum_hash t' (65 ∷ 0 ∷ []) 2 1 bucket'
hinsert_example =
    hinsert-hfind sum_hash one_table (65 ∷ 0 ∷ []) (10 ∷ []) 2 1 77 500 0 20 one_table-Ready refl
