-- ===== src/Sock/Poll/Laws.antt =====
-- The loops of `poll` in supp_src/lib_poll.c.
use cosimus.Base.{
  ℕ, zero, suc, ◌+◌, ◌<◌, ◌≤◌, ◌≡◌, refl, sym, ap, ap₂, subst, ◌∙◌, Bool-cases, inl, inr, Bool,
  Option, none, some, bit_and, lt→ltb, ◌==◌, ==_iff, if◌then◌else◌, ◌>>=◌, arith, ℤ, pos, negsuc,
}
use cosimus.Sock.{Pollfd, pollin, pollout}
use cosimus.Sock.Poll.Sets.{IsOpen, Asked, add_rounds-Asked}
use cosimus.Sock.Poll.{
  fd_setsize, fd_set, fd_isset, FdSets, no_fds, above, add_fd, add_rounds, events_of, happened,
  read_rounds, poll,
}

bind_none {ℓ κ} :
    {A : Type ℓ} {B : Type κ} (o : Option A) (f : A → Option B)
    → ((a : A) → f a ≡ none)
    → (o >>= f) ≡ none
bind_none none f h = refl
bind_none (some a) f h = h a

add_fd-closed : (u : Pollfd) (s : FdSets) (n : ℕ) → u.fd ≡ negsuc n → add_fd u s ≡ none
unfolding add_fd fd_set
add_fd-closed u s n closed =
    bind_none (if bit_and u.events pollin == 0 then some s.readfds else fd_set u.fd s.readfds) _
      (λ r.
        bind_none
          (if bit_and u.events pollout == 0 then some s.writefds else fd_set u.fd s.writefds) _
          (λ w.
            ap
              (λ z. fd_set z s.exceptfds >>= λ x.
                some
                  (record { readfds = r; writefds = w; exceptfds = x; maxfd = above u.fd s.maxfd }))
              closed))

-- A closed index is outside the sets.
add_rounds-closed :
    (left i j n : ℕ) (ufds : ℕ → Pollfd) (s : FdSets)
    → j < left
    → (ufds (i + j)).fd ≡ negsuc n
    → add_rounds left i ufds s ≡ none
unfolding add_rounds
add_rounds-closed zero i j n ufds s h closed = absurd (omega arith)
add_rounds-closed (suc left) i zero n ufds s h closed =
    rw (add_fd-closed (ufds i) s n (ap (λ k. (ufds k).fd) here ∙ closed)) refl
  where
    here : i ≡ i + 0
    here = omega arith
add_rounds-closed (suc left) i (suc j) n ufds s h closed = bind_none (add_fd (ufds i) s) _ (λ s'.
    add_rounds-closed left (suc i) j n ufds s' (omega arith)
      (ap (λ k. (ufds k).fd) further ∙ closed))
  where
    further : suc i + j ≡ i + suc j
    further = omega arith

-- When one of the indices is closed, whose descriptor is -1, `poll` reaches outside the set of
-- descriptors in which it looks for errors, whatever `select` would answer.
pub poll_closed :
    (select : FdSets → ℤ × FdSets) (nfds j n : ℕ) (ufds : ℕ → Pollfd)
    → j < nfds
    → (ufds j).fd ≡ negsuc n
    → poll select nfds ufds ≡ none
unfolding poll
poll_closed select nfds j n ufds h closed =
    rw (add_rounds-closed nfds 0 j n ufds no_fds h (ap (λ k. (ufds k).fd) from_zero ∙ closed)) refl
  where
    from_zero : 0 + j ≡ j
    from_zero = omega arith

-- What `select` answered for a descriptor.
abbrev pub answered : FdSets → ℕ → ℕ
answered s n = events_of (s.readfds n) (s.writefds n) (s.exceptfds n)

happened-run :
    (u : Pollfd) (s : FdSets) (n : ℕ)
    → u.fd ≡ pos n
    → n < fd_setsize
    → happened u s ≡ some (record u { revents = answered s n })
unfolding happened fd_isset
happened-run u s n at small =
    let isset : (t : ℕ → Bool) → fd_isset u.fd t ≡ some (t n) =
      λ t. ap (λ z. fd_isset z t) at ∙ (rw (lt→ltb n fd_setsize small) refl) in
    rw (isset s.readfds, isset s.writefds, isset s.exceptfds) refl

-- The indices from `i` on get the answer of `select`, and the others stay.
record Reads (left i : ℕ) (s : FdSets) (u u' : ℕ → Pollfd) : Type 0 where
  inside :
      (j n : ℕ)
      → i ≤ j
      → j < i + left
      → (u j).fd ≡ pos n
      → u' j ≡ record (u j) { revents = answered s n }
  outside : (j : ℕ) → j < i → u' j ≡ u j

read_rounds-run :
    (left i : ℕ) (s : FdSets) (u : ℕ → Pollfd)
    → ((j : ℕ) → i ≤ j → j < i + left → IsOpen (u j))
    → (u' : ℕ → Pollfd) × (read_rounds left i s u ≡ some u') × Reads left i s u u'
unfolding read_rounds
read_rounds-run zero i s u opened =
    (u, refl, record { inside = λ j n from to at. absurd (omega arith); outside = λ j h. refl })
read_rounds-run (suc left) i s u opened =
    let o = opened i (omega arith) (omega arith) in
    let now = record (u i) { revents = answered s o.number } in
    let v : ℕ → Pollfd = λ j. if j == i then now else u j in
    let other : (j : ℕ) → suc i ≤ j → v j ≡ u j = λ j h. differ j (omega arith) now in
    let (u', run, reads) =
      read_rounds-run left (suc i) s v
        (λ j from to. subst IsOpen (sym (other j from)) (opened j (omega arith) (omega arith))) in
    (
      u',
      rw (happened-run (u i) s o.number o.fd o.small) run,
      record {
        inside = λ j n from to at. elim (Bool-cases (j == i)) [
          | inl same ↦
              let ji : j ≡ i = (==_iff j i).0 same in
              reads.outside j (omega arith)
              ∙ ap (λ b. if b then now else u j) same
              ∙ ap₂ (λ (q : Pollfd) (k : ℕ). record q { revents = answered s k }) (ap u (sym ji))
                  (pos_inj (sym o.fd ∙ ap (λ k. (u k).fd) (sym ji) ∙ at))
          | inr differs ↦
              let later : suc i ≤ j = ground arith in
              reads.inside j n later (omega arith) (ap (λ q. q.fd) (other j later) ∙ at)
              ∙ ap (λ (q : Pollfd). record q { revents = answered s n }) (other j later)
        ];
        outside = λ j h. reads.outside j (omega arith) ∙ below j h now;
      },
    )
  where
    differ : (j : ℕ) → i < j → (x : Pollfd) → (if j == i then x else u j) ≡ u j
    differ j h x = ground arith

    pos_inj : {a b : ℕ} → pos a ≡ pos b → a ≡ b
    pos_inj e = ap (λ z. elim z [ pos n ↦ n | negsuc n ↦ n ]) e

    below : (j : ℕ) → j < i → (x : Pollfd) → (if j == i then x else u j) ≡ u j
    below j h x = ground arith

-- When every index is open with a descriptor in the sets' memory, `poll` reaches outside none of them.
-- `select` is handed the sets that hold a descriptor exactly if an index waits to read from it, waits to
-- write to it, or has it at all, with the least number above all descriptors; each index gets the events
-- that `select` answers for its descriptor, and keeps its other fields.
pub poll_lem :
    (select : FdSets → ℤ × FdSets) (nfds j n : ℕ) (ufds : ℕ → Pollfd)
    → ((k : ℕ) → k < nfds → IsOpen (ufds k))
    → j < nfds
    → (ufds j).fd ≡ pos n
    → (s : FdSets) × (u' : ℕ → Pollfd) × Asked nfds ufds s
      × (poll select nfds ufds ≡ some ((select s).0, u'))
      × (u' j ≡ record (ufds j) { revents = answered (select s).1 n })
unfolding poll
poll_lem select nfds j n ufds opened h at =
    let (s, run, asked) = add_rounds-Asked nfds ufds opened in
    let (u', ran, reads) =
      read_rounds-run nfds 0 (select s).1 ufds (λ k from to. opened k (omega arith)) in
    (s, u', asked, rw (run, ran) refl, reads.inside j n (omega arith) (omega arith) at)
