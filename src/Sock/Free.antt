-- ===== src/Sock/Free.antt =====
-- Free indices of supp_src/lib_sock.c.
use cosimus.Base.{
  ℕ, zero, suc, ◌+◌, ◌-◌, ◌<◌, ◌≤◌, ◌≡◌, ◌≢◌, refl, ap, ◌∙◌, ◌⊎◌, inl, inr, true, false, Option,
  none, some, leb, ◌==◌, pos, negsuc, bit_or, lt→ltb, if◌then◌else◌, arith, ℤ, Bool-cases,
}
use cosimus.Sock.{
  Socks, Pollfd, Host, Conndata, blank_conn, pollin, pollout, max_fds, poll_at, set_poll, set_conn,
  Connecting, no_socket, no_host, at_once, in_progress, connect_failed,
}
use cosimus.Sock.Index.{
  is_closed, free_from, sock_get_free_index, init_idx, connect_pending, connect_answer,
  initiate_connect,
}

-- None of the `n` indices from `i` on is closed.
abbrev pub NoneClosed : Socks → ℕ → ℕ → Type 0
NoneClosed st i zero = Unit
NoneClosed st i (suc n) = (is_closed (st.ufds i).fd ≡ false) × NoneClosed st (suc i) n

-- The first closed index among the `n` from `i` on, or none.
abbrev pub FirstClosed : Socks → ℕ → ℕ → Option ℕ → Type 0
FirstClosed st i n none = NoneClosed st i n
FirstClosed st i n (some j) =
    (k : ℕ) × (k < n) × (j ≡ i + k) × NoneClosed st i k × (is_closed (st.ufds j).fd ≡ true)

free_from-first :
    (left i : ℕ) (st : Socks)
    → i + left ≤ max_fds
    → (r : Option ℕ) × (free_from left i st ≡ some r) × FirstClosed st i left r
unfolding free_from poll_at
free_from-first zero i st h = (none, refl, tt)
free_from-first (suc left) i st h = elim (Bool-cases (is_closed (st.ufds i).fd)) [
  | inl closed ↦ (
    some i,
    rw (lt→ltb i max_fds (omega arith), closed) refl,
    (0, omega arith, omega arith, tt, closed),
  )
  | inr open_one ↦
      let (r, run, first) = free_from-first left (suc i) st (omega arith) in
      (r, rw (lt→ltb i max_fds (omega arith), open_one) run, further r open_one first)
]
  where
    further :
        (r : Option ℕ)
        → is_closed (st.ufds i).fd ≡ false
        → FirstClosed st (suc i) left r
        → FirstClosed st i (suc left) r
    further none e first = (e, first)
    further (some j) e (k, lt, at, before, closed) =
        (suc k, omega arith, omega arith, (e, before), closed)

-- `sock_get_free_index` from an index in use on gives the first closed index and changes nothing, or,
-- if none is closed, the number of indices, which it raises by one.
pub sock_get_free_index_lem :
    (minimum : ℕ) (st : Socks)
    → minimum ≤ st.nfds
    → st.nfds ≤ max_fds
    → (i : ℕ) × (st' : Socks) × (sock_get_free_index minimum st ≡ some (i, st'))
      × ((FirstClosed st minimum (st.nfds - minimum) (some i) × (st' ≡ st))
          ⊎ (NoneClosed st minimum (st.nfds - minimum)
              × (i ≡ st.nfds)
              × (st' ≡ record st { nfds = st.nfds + 1 })))
unfolding sock_get_free_index
sock_get_free_index_lem minimum st h room =
    let (r, run, first) = free_from-first (st.nfds - minimum) minimum st (omega arith) in
    from r run first
  where
    from :
        (r : Option ℕ)
        → free_from (st.nfds - minimum) minimum st ≡ some r
        → FirstClosed st minimum (st.nfds - minimum) r
        → (i : ℕ) × (st' : Socks) × (sock_get_free_index minimum st ≡ some (i, st'))
          × ((FirstClosed st minimum (st.nfds - minimum) (some i) × (st' ≡ st))
              ⊎ (NoneClosed st minimum (st.nfds - minimum)
                  × (i ≡ st.nfds)
                  × (st' ≡ record st { nfds = st.nfds + 1 })))
    from none run first =
        (st.nfds, record st { nfds = st.nfds + 1 }, rw run refl, inr (first, refl, refl))
    from (some i) run first = (i, st, rw run refl, inl (first, refl))

-- A step inside the arrays leaves the number of indices.
abbrev Kept : Option Socks → Socks → Type 0
Kept r st = (st' : Socks) × (r ≡ some st') × (st'.nfds ≡ st.nfds)

set_poll-Kept : (f : Pollfd → Pollfd) (i : ℕ) (st : Socks) → i < max_fds → Kept (set_poll f i st) st
unfolding set_poll
set_poll-Kept f i st h = (
  record st { ufds = λ j. if j == i then f (st.ufds j) else st.ufds j },
  rw (lt→ltb i max_fds h) refl,
  refl,
)

set_conn-Kept :
    (f : Conndata → Conndata) (i : ℕ) (st : Socks) → i < max_fds → Kept (set_conn f i st) st
unfolding set_conn
set_conn-Kept f i st h = (
  record st { cdata = λ j. if j == i then f (st.cdata j) else st.cdata j },
  rw (lt→ltb i max_fds h) refl,
  refl,
)

init_idx-Kept : (i : ℕ) (st : Socks) → i < max_fds → Kept (init_idx i st) st
unfolding init_idx
init_idx-Kept i st h =
    let (st1, run, same) = set_poll-Kept (λ u. record u { events = pollin }) i st h in
    let (st2, run', same') = set_conn-Kept (λ c. blank_conn) i st1 h in
    (st2, rw run run', same' ∙ same)

connect_pending-run :
    (s : ℕ) (st : Socks)
    → st.nfds < max_fds
    → (ret : ℤ) × (st' : Socks) × (connect_pending s st ≡ some (ret, st')) × (st'.nfds ≤ max_fds)
unfolding connect_pending
connect_pending-run s st h =
    let (i, st1, run, cases) = sock_get_free_index_lem 0 st (omega arith) (omega arith) in
    let (inside, bound) = below i st1 cases in
    let (st2, run2, same2) = init_idx-Kept i st1 inside in
    let (st3, run3, same3) =
      set_poll-Kept (λ u. record u { fd = pos s; events = bit_or u.events pollout }) i st2 inside in
    let (st4, run4, same4) =
      set_conn-Kept (λ c. record c { connected = false; inbound = false }) i st3 inside in
    (pos i, st4, rw (run, run2, run3, run4) refl, omega (arith, bound, same2, same3, same4))
  where
    below :
        (i : ℕ) (st1 : Socks)
        → (FirstClosed st 0 (st.nfds - 0) (some i) × (st1 ≡ st))
          ⊎ (NoneClosed st 0 (st.nfds - 0)
              × (i ≡ st.nfds)
              × (st1 ≡ record st { nfds = st.nfds + 1 }))
        → (i < max_fds) × (st1.nfds ≤ max_fds)
    below i st1 (inl ((k, lt, at, before, closed), same)) =
        (omega (arith, lt, at), omega (arith, ap (λ s. s.nfds) same))
    below i st1 (inr (all, at, more)) = (omega arith, omega (arith, ap (λ s. s.nfds) more))

-- `initiate_connect`, unless the host has no address, which the code does not test for, stays inside
-- the arrays, and keeps the number of indices within them.
pub initiate_connect-bounded :
    (host : Host) (st : Socks)
    → st.nfds ≤ max_fds
    → host.connect st ≢ no_host
    → (ret : ℤ) × (st' : Socks) × (initiate_connect host st ≡ some (ret, st'))
      × (st'.nfds ≤ max_fds)
unfolding initiate_connect connect_answer
initiate_connect-bounded host st h known =
    rw (le→leb st.nfds max_fds h) (elim (Bool-cases (st.nfds == max_fds)) [
      | inl full ↦ (negsuc 0, st, rw full refl, h)
      | inr room ↦ rw room (answered (ground arith) (host.connect st) known)
    ])
  where
    le→leb : (a b : ℕ) → a ≤ b → leb a b ≡ true
    le→leb a b h = ground arith

    answered :
        st.nfds < max_fds
        → (c : Connecting) → c ≢ no_host
        → (ret : ℤ) × (st' : Socks) × (connect_answer c st ≡ some (ret, st')) × (st'.nfds ≤ max_fds)
    answered lt no_socket ne = (negsuc 0, st, refl, h)
    answered lt no_host ne = absurd (ne refl)
    answered lt at_once ne = (negsuc 0, st, refl, h)
    answered lt (in_progress s) ne = connect_pending-run s st lt
    answered lt connect_failed ne = (negsuc 0, st, refl, h)
