-- ===== src/LinkedList.antt =====
-- supp_src/lib_lists.c: doubly linked lists. The `prev` of the first item points to the last one.
-- The memory is a function from addresses to items; 0 is NULL. `none` is a failed assertion or an
-- access through a bad pointer. A `listitem_t **` is `none` for NULL, or `some` of what it points to.
pub mod Seg
pub mod Push
pub mod Pop
pub mod Find
use cosimus.Base.{ℕ, zero, suc, Bool, true, false, Option, none, some, ◌==◌, if◌then◌else◌, ◌>>=◌}

abbrev pub listitem_signature : ℕ
listitem_signature = 0x115ABBEC

-- `listitem_t`
pub record Listitem : Type 0 where
  pub next : ℕ
  pub prev : ℕ
  pub listitem_sig : ℕ
  pub datum : ℕ

abbrev pub Heap : Type 0
Heap = ℕ → Option Listitem

unfoldable pub write : Heap → ℕ → Option Listitem → Heap
write h a c x = if x == a then c else h x

unfoldable pub load : ℕ → Heap → Option Listitem
load a h = if a == 0 then none else h a

-- Assignments to the fields of `*a`.
unfoldable pub modify : (Listitem → Listitem) → ℕ → Heap → Option Heap
modify f a h = load a h >>= λ n. some (write h a (some (f n)))

-- `listitem_checksig(a)`
unfoldable pub listitem_checksig : ℕ → Heap → Option Listitem
listitem_checksig a h =
    load a h >>= λ n. if n.listitem_sig == listitem_signature then some n else none

-- `a->listitem_sig = 0; free(a)`
unfoldable pub discard : ℕ → Heap → Option Heap
discard a h = modify (λ n. record n { listitem_sig = 0 }) a h >>= λ h'. some (write h' a none)

-- What `malloc` answers: an address, and what happens to stand there.
abbrev pub Malloc : Type 0
Malloc = Option (ℕ × Listitem)

-- An item that is the only one.
unfoldable pub set_only : ℕ → ℕ → Heap → Option Heap
set_only a d h = modify (λ n. record n { next = 0; prev = a; datum = d }) a h

-- An item in front of the list at `head`.
unfoldable pub set_first : ℕ → ℕ → ℕ → Heap → Option Heap
set_first head a d h = do
  first ← listitem_checksig head h
  h1 ← modify (λ n. record n { next = head; prev = first.prev; datum = d }) a h
  modify (λ n. record n { prev = a }) head h1

-- An item behind the list at `head`.
unfoldable pub set_last : ℕ → ℕ → ℕ → Heap → Option Heap
set_last head a d h = do
  first ← load head h
  last ← load first.prev h
  ends ← (if last.next == 0 then some last else none)
  first ← listitem_checksig head h
  last ← listitem_checksig first.prev h
  h1 ← modify (λ n. record n { next = a }) first.prev h
  first ← load head h1
  h2 ← modify (λ n. record n { prev = first.prev }) a h1
  h3 ← modify (λ n. record n { prev = a }) head h2
  modify (λ n. record n { next = 0; datum = d }) a h3

-- `lpush(li, data)`: what it returns, `*li` and the memory.
unfoldable pub lpush : Option ℕ → ℕ → Malloc → Heap → Option (ℕ × Option ℕ × Heap)
lpush none d mem h = some (0, none, h)
lpush (some head) d none h = some (0, some head, h)
lpush (some head) d (some (a, junk)) h =
    let h0 = write h a (some (record junk { listitem_sig = listitem_signature })) in
    (if head == 0 then set_only a d h0 else set_first head a d h0) >>= λ h'. some (a, some a, h')

-- `rpush(li, data)`
unfoldable pub rpush : Option ℕ → ℕ → Malloc → Heap → Option (ℕ × Option ℕ × Heap)
rpush none d mem h = some (0, none, h)
rpush (some head) d none h = some (0, some head, h)
rpush (some head) d (some (a, junk)) h =
    let h0 = write h a (some (record junk { listitem_sig = listitem_signature })) in
    if head == 0
    then (set_only a d h0 >>= λ h'. some (a, some a, h'))
    else (set_last head a d h0 >>= λ h'. some (a, some head, h'))

unfoldable pub unlink_first : ℕ → Heap → Option (ℕ × Option ℕ × Heap)
unlink_first head h = do
  first ← listitem_checksig head h
  h1 ←
      (if first.next == 0
        then some h
        else modify (λ n. record n { prev = first.prev }) first.next h)
  h2 ← discard head h1
  some (first.datum, some first.next, h2)

-- `lpop(li)`: the data, `*li` and the memory.
unfoldable pub lpop : Option ℕ → Heap → Option (ℕ × Option ℕ × Heap)
lpop none h = some (0, none, h)
lpop (some head) h = if head == 0 then some (0, some head, h) else unlink_first head h

unfoldable pub unlink_last : ℕ → Heap → Option (ℕ × Option ℕ × Heap)
unlink_last head h = do
  first ← listitem_checksig head h
  last ← listitem_checksig first.prev h
  h1 ← modify (λ n. record n { prev = last.prev }) head h
  now ← load head h1
  check ← listitem_checksig now.prev h1
  h2 ← modify (λ n. record n { next = 0 }) now.prev h1
  h3 ← discard first.prev h2
  some (last.datum, some (if head == first.prev then 0 else head), h3)

-- `rpop(li)`
unfoldable pub rpop : Option ℕ → Heap → Option (ℕ × Option ℕ × Heap)
rpop none h = some (0, none, h)
rpop (some head) h = if head == 0 then some (0, some head, h) else unlink_last head h

-- The loop of `lbelongs`, for so many rounds at most. After it, the item's mark is checked.
unfoldable pub lbelongs_rounds : ℕ → ℕ → ℕ → ℕ → Heap → Option Bool
lbelongs_rounds zero head li2 el h = none
lbelongs_rounds (suc left) head li2 el h =
    let rest = listitem_checksig head h >>= λ _. listitem_checksig li2 h >>= λ n.
    if li2 == el then some true else lbelongs_rounds left head n.next el h in
    if li2 == 0
    then (if el == 0 then some false else (listitem_checksig el h >>= λ _. some false))
    else rest

-- `lbelongs(li, li_el)`
unfoldable pub lbelongs : ℕ → Option ℕ → ℕ → Heap → Option Bool
lbelongs fuel none el h = none
lbelongs fuel (some head) el h = lbelongs_rounds fuel head head el h

unfoldable pub unlink_middle : ℕ → Heap → Option Heap
unlink_middle el h = do
  n ← load el h
  h1 ← modify (λ m. record m { next = n.next }) n.prev h
  now ← load el h1
  h2 ← modify (λ m. record m { prev = now.prev }) now.next h1
  discard el h2

unfoldable pub unlink_found : ℕ → ℕ → Heap → Option (Option ℕ × Heap)
unlink_found head el h = listitem_checksig head h >>= λ first.
    if el == head
    then (lpop (some head) h >>= λ (_, head', h'). some (head', h'))
    else (if el == first.prev
        then (rpop (some head) h >>= λ (_, head', h'). some (head', h'))
        else (unlink_middle el h >>= λ h'. some (some head, h')))

-- `ldelete(li, li_el)`: `*li` is printed before `li` is compared with NULL.
unfoldable pub ldelete : Option ℕ → ℕ → Heap → Option (Option ℕ × Heap)
ldelete none el h = none
ldelete (some head) el h = if head == 0 then some (some head, h) else unlink_found head el h

-- `lpeek(li)`
unfoldable pub lpeek : Option ℕ → Heap → Option ℕ
lpeek none h = some 0
lpeek (some head) h = if head == 0 then some 0 else (listitem_checksig head h >>= λ n. some n.datum)

-- `rpeek(li)`
unfoldable pub rpeek : Option ℕ → Heap → Option ℕ
rpeek none h = some 0
rpeek (some head) h =
    if head == 0
    then some 0
    else (load head h >>= λ first.
        (if first.prev == 0 then none else listitem_checksig head h) >>= λ _.
        load first.prev h >>= λ last. some last.datum)
