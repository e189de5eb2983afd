-- ===== src/Sock/Poll/Sets.antt =====
-- The first loop of `poll` in supp_src/lib_poll.c: the sets that are handed to `select`.
use cosimus.Base.{
  ℕ, zero, suc, ◌+◌, ◌<◌, ◌≤◌, ◌≡◌, refl, sym, ap, ◌∙◌, Bool-cases, inl, inr, Bool, true, false,
  some, bit_and, ltb, lt→ltb, ◌==◌, ==_iff, if◌then◌else◌, arith, pos, negsuc, is_pos,
}
use cosimus.Sock.{Pollfd, pollin, pollout}
use cosimus.Sock.Poll.{fd_setsize, fd_set, FdSets, no_fds, above, add_fd, add_rounds}

-- The descriptor of an open index is in the sets' memory.
pub record IsOpen (u : Pollfd) : Type 0 where
  pub number : ℕ
  pub fd : u.fd ≡ pos number
  pub small : number < fd_setsize

-- An index that has descriptor `k` and waits for `event`.
abbrev pub asks : ℕ → ℕ → Pollfd → Bool
asks event k u = if bit_and u.events event == 0 then false else is_pos u.fd k

-- One of `left` indices from `i` on passes the test.
abbrev pub any_of : (Pollfd → Bool) → ℕ → ℕ → (ℕ → Pollfd) → Bool
any_of test zero i ufds = false
any_of test (suc left) i ufds = if test (ufds i) then true else any_of test left (suc i) ufds

-- What the indices from `i` on add to the sets `s`: their descriptors, and a number above them.
record Adds (left i : ℕ) (ufds : ℕ → Pollfd) (s s' : FdSets) : Type 0 where
  readfds :
      (k : ℕ) → s'.readfds k ≡ (if any_of (asks pollin k) left i ufds then true else s.readfds k)
  writefds :
      (k : ℕ) → s'.writefds k ≡ (if any_of (asks pollout k) left i ufds then true else s.writefds k)
  exceptfds :
      (k : ℕ)
      → s'.exceptfds k ≡ (if any_of (λ u. is_pos u.fd k) left i ufds then true else s.exceptfds k)
  kept : s.maxfd ≤ s'.maxfd
  above : (j n : ℕ) → i ≤ j → j < i + left → (ufds j).fd ≡ pos n → n < s'.maxfd
  least :
      (m : ℕ)
      → s.maxfd ≤ m
      → ((j n : ℕ) → i ≤ j → j < i + left → (ufds j).fd ≡ pos n → n < m)
      → s'.maxfd ≤ m

-- The sets that ask for every index what it waits for, and for errors.
pub record Asked (nfds : ℕ) (ufds : ℕ → Pollfd) (s : FdSets) : Type 0 where
  pub readfds : (k : ℕ) → s.readfds k ≡ any_of (asks pollin k) nfds 0 ufds
  pub writefds : (k : ℕ) → s.writefds k ≡ any_of (asks pollout k) nfds 0 ufds
  pub exceptfds : (k : ℕ) → s.exceptfds k ≡ any_of (λ u. is_pos u.fd k) nfds 0 ufds
  pub above : (j n : ℕ) → j < nfds → (ufds j).fd ≡ pos n → n < s.maxfd
  pub least : (m : ℕ) → ((j n : ℕ) → j < nfds → (ufds j).fd ≡ pos n → n < m) → s.maxfd ≤ m

==_swap : (a b : ℕ) → (a == b) ≡ (b == a)
==_swap a b = ground arith

-- A set with the descriptor of an open index.
abbrev with_fd : ℕ → (ℕ → Bool) → ℕ → Bool
with_fd n s k = if k == n then true else s k

fd_set-open : (u : Pollfd) (s : ℕ → Bool) (o : IsOpen u) → fd_set u.fd s ≡ some (with_fd o.number s)
unfolding fd_set
fd_set-open u s o = ap (λ z. fd_set z s) o.fd ∙ rw (lt→ltb o.number fd_setsize o.small) refl

if_some : (b : Bool) (s t : ℕ → Bool) → (if b then some s else some t) ≡ some (if b then s else t)
if_some true s t = refl
if_some false s t = refl

-- The sets after one index.
abbrev joined : (u : Pollfd) → FdSets → IsOpen u → FdSets
joined u s o = record {
  readfds = if bit_and u.events pollin == 0 then s.readfds else with_fd o.number s.readfds;
  writefds = if bit_and u.events pollout == 0 then s.writefds else with_fd o.number s.writefds;
  exceptfds = with_fd o.number s.exceptfds;
  maxfd = above u.fd s.maxfd;
}

add_fd-joined : (u : Pollfd) (s : FdSets) (o : IsOpen u) → add_fd u s ≡ some (joined u s o)
unfolding add_fd
add_fd-joined u s o =
    rw
      (
        fd_set-open u s.readfds o,
        fd_set-open u s.writefds o,
        fd_set-open u s.exceptfds o,
        if_some (bit_and u.events pollin == 0) s.readfds (with_fd o.number s.readfds),
        if_some (bit_and u.events pollout == 0) s.writefds (with_fd o.number s.writefds),
      )
      refl

is_pos-open : (u : Pollfd) (o : IsOpen u) (k : ℕ) → (k == o.number) ≡ is_pos u.fd k
is_pos-open u o k = ==_swap k o.number ∙ ap (λ z. is_pos z k) (sym o.fd)

with_fd-asks :
    (event k : ℕ) (u : Pollfd) (s : ℕ → Bool) (o : IsOpen u)
    → (if bit_and u.events event == 0 then s else with_fd o.number s) k
      ≡ (if asks event k u then true else s k)
with_fd-asks event k u s o = elim (Bool-cases (bit_and u.events event == 0)) [
  | inl idle ↦ rw idle refl
  | inr waits ↦ rw waits (ap (λ b. if b then true else s k) (is_pos-open u o k))
]

-- One index before the others.
if_if :
    (a b c : Bool)
    → (if b then true else (if a then true else c)) ≡ (if (if a then true else b) then true else c)
if_if true true c = refl
if_if true false c = refl
if_if false b c = refl

above-open :
    (u : Pollfd) (o : IsOpen u) (m : ℕ)
    → above u.fd m ≡ (if ltb m (o.number + 1) then o.number + 1 else m)
above-open u o m = ap (λ z. above z m) o.fd

pos_inj : {a b : ℕ} → pos a ≡ pos b → a ≡ b
pos_inj e = ap (λ z. elim z [ pos n ↦ n | negsuc n ↦ n ]) e

-- The number above a descriptor and above `m`.
above-bounds :
    (u : Pollfd) (o : IsOpen u) (m : ℕ)
    → (m ≤ above u.fd m)
      × (o.number < above u.fd m)
      × ((l : ℕ) → m ≤ l → o.number < l → above u.fd m ≤ l)
above-bounds u o m = rw (above-open u o m) (ground arith, ground arith, λ l h h'. ground arith)

add_rounds-Adds :
    (left i : ℕ) (ufds : ℕ → Pollfd) (s : FdSets)
    → ((j : ℕ) → i ≤ j → j < i + left → IsOpen (ufds j))
    → (s' : FdSets) × (add_rounds left i ufds s ≡ some s') × Adds left i ufds s s'
unfolding add_rounds
add_rounds-Adds zero i ufds s opened = (
  s,
  refl,
  record {
    readfds = λ k. refl;
    writefds = λ k. refl;
    exceptfds = λ k. refl;
    kept = omega arith;
    above = λ j n from to at. absurd (omega arith);
    least = λ m h all. h;
  },
)
add_rounds-Adds (suc left) i ufds s opened =
    let u = ufds i in
    let o = opened i (omega arith) (omega arith) in
    let (grows, over, lowest) = above-bounds u o s.maxfd in
    let (s', ran, a) =
      add_rounds-Adds left (suc i) ufds (joined u s o)
        (λ j from to. opened j (omega arith) (omega arith)) in
    (
      s',
      rw (add_fd-joined u s o) ran,
      record {
        readfds = λ k.
            a.readfds k
            ∙ ap (λ b. if any_of (asks pollin k) left (suc i) ufds then true else b)
                (with_fd-asks pollin k u s.readfds o)
            ∙ if_if (asks pollin k u) (any_of (asks pollin k) left (suc i) ufds) (s.readfds k);
        writefds = λ k.
            a.writefds k
            ∙ ap (λ b. if any_of (asks pollout k) left (suc i) ufds then true else b)
                (with_fd-asks pollout k u s.writefds o)
            ∙ if_if (asks pollout k u) (any_of (asks pollout k) left (suc i) ufds) (s.writefds k);
        exceptfds = λ k.
            a.exceptfds k
            ∙ ap
                (λ b.
                  if any_of (λ u. is_pos u.fd k) left (suc i) ufds
                  then true
                  else (if b then true else s.exceptfds k))
                (is_pos-open u o k)
            ∙ if_if (is_pos u.fd k) (any_of (λ u. is_pos u.fd k) left (suc i) ufds) (s.exceptfds k);
        kept = omega (arith, grows, a.kept);
        above = λ j n from to at. elim (Bool-cases (j == i)) [
          | inl same ↦
              let here =
                pos_inj (sym o.fd ∙ ap (λ k. (ufds k).fd) (sym ((==_iff j i).0 same)) ∙ at) in
              omega (arith, over, a.kept, here)
          | inr differs ↦ let later : suc i ≤ j = ground arith in a.above j n later (omega arith) at
        ];
        least = λ m h all.
            a.least m (lowest m h (all i o.number (omega arith) (omega arith) o.fd))
              (λ j n from to at. all j n (omega arith) (omega arith) at);
      },
    )

-- When every index is open with a descriptor in the sets' memory, the first loop succeeds.
pub add_rounds-Asked :
    (nfds : ℕ) (ufds : ℕ → Pollfd)
    → ((j : ℕ) → j < nfds → IsOpen (ufds j))
    → (s : FdSets) × (add_rounds nfds 0 ufds no_fds ≡ some s) × Asked nfds ufds s
add_rounds-Asked nfds ufds opened =
    let (s, ran, a) = add_rounds-Adds nfds 0 ufds no_fds (λ j from to. opened j (omega arith)) in
    (
      s,
      ran,
      record {
        readfds = λ k. a.readfds k ∙ if_true (any_of (asks pollin k) nfds 0 ufds);
        writefds = λ k. a.writefds k ∙ if_true (any_of (asks pollout k) nfds 0 ufds);
        exceptfds = λ k. a.exceptfds k ∙ if_true (any_of (λ u. is_pos u.fd k) nfds 0 ufds);
        above = λ j n h at. a.above j n (omega arith) (omega arith) at;
        least = λ m all. a.least m (omega arith) (λ j n from to at. all j n (omega arith) at);
      },
    )
  where
    if_true : (b : Bool) → (if b then true else false) ≡ b
    if_true true = refl
    if_true false = refl
