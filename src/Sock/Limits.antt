-- ===== src/Sock/Limits.antt =====
-- The number of indices of supp_src/lib_sock.c: how it grows, and that it does not shrink.
use cosimus.Base.{
  ℕ, zero, suc, ◌+◌, ◌-◌, ◌<◌, ◌≤◌, ◌≡◌, refl, ap, ◌∙◌, ◌⊎◌, inl, inr, true, false, Option, none,
  some, ℤ, pos, negsuc, is_pos, ltb, lt→ltb, le→ltb, ◌==◌, if◌then◌else◌, arith, Bool-cases,
  bit_and, ◌&&◌, not,
}
use cosimus.Sock.{Pollfd, Socks, Host, max_fds, conn_at, poll_at, set_poll, pollin, pollout}
use cosimus.Sock.Index.{is_closed, free_from, sock_get_free_index}
use cosimus.Sock.Events.{sock_tcp_listener_pollin}
use cosimus.Sock.Cycle.{
  remove_closed_fd, remove_rounds, sock_remove_closed_fds, one_socket, cycle_rounds, after_poll,
  sock_one_cycle, has_event, on_listener, on_either,
}

-- A closed descriptor is no index.
closed-is_pos : (z : ℤ) (k : ℕ) → is_closed z ≡ true → is_pos z k ≡ false
closed-is_pos (pos n) k e = cc
closed-is_pos (negsuc n) k e = refl

remove_closed_fd-run :
    (i : ℕ) (st : Socks)
    → i < max_fds
    → (st' : Socks) × (remove_closed_fd i st ≡ some st') × (st'.nfds ≡ st.nfds)
unfolding remove_closed_fd poll_at set_poll
remove_closed_fd-run i st h =
    let inside = lt→ltb i max_fds h in
    let still = record st {
      ufds = λ j. if j == i then record (st.ufds j) { events = 0 } else st.ufds j;
    } in
    elim (Bool-cases (is_closed (st.ufds i).fd)) [
      | inl closed ↦
          let never = closed-is_pos (st.ufds i).fd (st.nfds - 1) closed in
          (still, rw (inside, closed, never) refl, refl)
      | inr stays ↦ (st, rw (inside, stays) refl, refl)
    ]

remove_rounds-run :
    (left : ℕ) (st : Socks)
    → left ≤ max_fds
    → (st' : Socks) × (remove_rounds left st ≡ some st') × (st'.nfds ≡ st.nfds)
unfolding remove_rounds
remove_rounds-run zero st h = (st, refl, refl)
remove_rounds-run (suc left) st h =
    let (st1, ran1, same1) = remove_closed_fd-run left st (omega arith) in
    let (st2, ran2, same2) = remove_rounds-run left st1 (omega arith) in
    (st2, rw ran1 ran2, same2 ∙ same1)

-- `sock_remove_closed_fds` ends and never makes the number of indices smaller, whatever is closed.
pub remove_closed_keeps :
    (st : Socks)
    → st.nfds ≤ max_fds
    → (st' : Socks) × (sock_remove_closed_fds st ≡ some st') × (st'.nfds ≡ st.nfds)
unfolding sock_remove_closed_fds
remove_closed_keeps st h = remove_rounds-run st.nfds st h

-- Every index below `n` is open.
abbrev pub AllOpen : Socks → ℕ → Type 0
AllOpen st n = (j : ℕ) → j < n → is_closed (st.ufds j).fd ≡ false

free_from-none :
    (left i n : ℕ) (st : Socks)
    → i + left ≤ n
    → n ≤ max_fds
    → AllOpen st n
    → free_from left i st ≡ some none
unfolding free_from poll_at
free_from-none zero i n st h small opened = refl
free_from-none (suc left) i n st h small opened =
    rw (lt→ltb i max_fds (omega arith), opened i (omega arith))
      (free_from-none left (suc i) n st (omega arith) small opened)

one_socket-outside :
    (host : Host) (i n : ℕ) (st : Socks) → ltb i max_fds ≡ false → one_socket host i (n, st) ≡ none
unfolding one_socket conn_at
one_socket-outside host i n st outside = rw outside refl

Option-cases {ℓ} : {A : Type ℓ} (m : Option A) → (m ≡ none) ⊎ ((a : A) × (m ≡ some a))
Option-cases none = inl refl
Option-cases (some a) = inr (a, refl)

-- The loop of `sock_one_cycle` cannot pass the end of the array.
cycle_rounds-none :
    (host : Host) (left i : ℕ) (acc : ℕ × Socks)
    → i ≤ max_fds
    → max_fds < i + left
    → cycle_rounds host left i acc ≡ none
unfolding cycle_rounds
cycle_rounds-none host zero i acc h more = absurd (omega arith)
cycle_rounds-none host (suc left) i (n, st) h more = elim (Bool-cases (ltb i max_fds)) [
  | inr outside ↦ rw (one_socket-outside host i n st outside) refl
  | inl inside ↦ elim (Option-cases (one_socket host i (n, st))) [
    | inl stuck ↦ rw stuck refl
    | inr (acc', ran) ↦
        rw ran (cycle_rounds-none host left (suc i) acc' (ground arith) (omega arith))
  ]
]

-- Nothing happened on any index.
abbrev pub Quiet : Socks → Type 0
Quiet st = (j : ℕ) → (st.ufds j).revents ≡ 0

has_event-Quiet :
    (event i : ℕ) (st : Socks)
    → bit_and 0 event ≡ 0
    → i < max_fds
    → Quiet st
    → has_event event i st ≡ some false
unfolding has_event poll_at
has_event-Quiet event i st apart h quiet = rw (lt→ltb i max_fds h, quiet i, apart) refl

-- The body of the loop of `sock_one_cycle` on an index of the array on which nothing happened.
one_socket-Quiet :
    (host : Host) (i n : ℕ) (st : Socks)
    → i < max_fds
    → Quiet st
    → (st' : Socks) × (one_socket host i (n, st) ≡ some (n, st')) × Quiet st'
unfolding one_socket conn_at on_listener on_either set_poll
one_socket-Quiet host i n st h quiet =
    let inside = lt→ltb i max_fds h in
    let no_in = has_event-Quiet pollin i st refl h quiet in
    let no_out = has_event-Quiet pollout i st refl h quiet in
    let cleared = λ (u : Pollfd). record u { revents = 0 } in
    elim (Bool-cases ((st.cdata i).listener && not (st.cdata i).is_udp)) [
      | inl listens ↦ (st, rw (inside, listens, no_in) refl, quiet)
      | inr other ↦ (
        record st { ufds = λ j. if j == i then cleared (st.ufds j) else st.ufds j },
        rw (inside, other, no_in, no_out) refl,
        (λ j. elim (Bool-cases (j == i)) [
          | inl same ↦ rw same refl
          | inr differs ↦ rw differs (quiet j)
        ]),
      )
    ]

cycle_rounds-Quiet :
    (host : Host) (left i n : ℕ) (st : Socks)
    → i + left ≤ max_fds
    → Quiet st
    → (st' : Socks) × (cycle_rounds host left i (n, st) ≡ some (n, st'))
unfolding cycle_rounds
cycle_rounds-Quiet host zero i n st h quiet = (st, refl)
cycle_rounds-Quiet host (suc left) i n st h quiet =
    let (st1, ran, quiet1) = one_socket-Quiet host i n st (omega arith) quiet in
    let (st', rest) = cycle_rounds-Quiet host left (suc i) n st1 (omega arith) quiet1 in
    (st', rw ran rest)

-- A connection was refused: only the event of the listener is cleared, and one index more is counted.
abbrev pub refused : ℕ → Socks → Socks
refused i st = record st {
  ufds = λ j. if j == i then record (st.ufds j) { revents = 0 } else st.ufds j;
  nfds = max_fds + 1;
}

-- Nothing happens.
abbrev pub hushed : Socks → Socks
hushed st = record st { ufds = λ j. record (st.ufds j) { revents = 0 } }

-- When all indices of the array are open, one more connection is refused, which changes no connection,
-- but it is counted as an index. In the next cycle, when nothing happens on any index, the loop gets
-- through all indices of the array, and then reaches `cdata` behind its end.
pub listener_overflow :
    (host : Host) (i : ℕ) (st : Socks)
    → i < max_fds
    → st.nfds ≡ max_fds
    → AllOpen st max_fds
    → ((s : Socks) → host.poll s ≡ some (λ j. 0))
    → (sock_tcp_listener_pollin host i st ≡ some (refused i st))
      × ((st' : Socks) × (cycle_rounds host max_fds 0 (0, hushed (refused i st)) ≡ some (0, st'))
          × (conn_at max_fds st' ≡ none))
      × (sock_one_cycle host (refused i st) ≡ none)
unfolding sock_tcp_listener_pollin sock_get_free_index set_poll sock_one_cycle after_poll conn_at
listener_overflow host i st h full opened polled =
    let quiet = λ (u : Pollfd). record u { revents = 0 } in
    let st1 = record st { ufds = λ j. if j == i then quiet (st.ufds j) else st.ufds j } in
    let opened1 : AllOpen st1 max_fds = λ (j : ℕ) (l : j < max_fds). elim (Bool-cases (j == i)) [
      | inl e ↦ rw e (opened j l)
      | inr e ↦ rw e (opened j l)
    ] in
    let none_free : free_from (st.nfds - 0) 0 st1 ≡ some none =
      ap (λ k. free_from k 0 st1) (omega (arith, full))
      ∙ free_from-none max_fds 0 max_fds st1 (omega arith) (omega arith) opened1 in
    let crowded : ltb (st.nfds + 1) max_fds ≡ false = le→ltb _ _ (omega (arith, full)) in
    let (st', ran) =
      cycle_rounds-Quiet host max_fds 0 0 (hushed (refused i st)) (omega arith) (λ j. refl) in
    (
      rw (lt→ltb i max_fds h, none_free, crowded)
          (ap (λ k. some (record st1 { nfds = k + 1 })) full),
      (st', ran, refl),
      ap (after_poll host (refused i st)) (polled (refused i st))
          ∙ rw
              (cycle_rounds-none host (max_fds + 1) 0 (0, hushed (refused i st)) (omega arith)
                (omega arith))
              refl,
    )
