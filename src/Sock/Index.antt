-- ===== src/Sock/Index.antt =====
-- Indices of supp_src/lib_sock.c: finding a free one, listeners and outbound connections.
use cosimus.Base.{
  ℕ, zero, suc, ◌+◌, ◌-◌, Bool, true, false, Option, none, some, bit_or, ℤ, pos, negsuc, leb, ◌==◌,
  if◌then◌else◌, ◌>>=◌,
}
use cosimus.Sock.{
  Socks, Host, blank_conn, max_fds, poll_at, set_conn, set_poll, pollin, pollout, Connecting,
  no_socket, no_host, at_once, in_progress, connect_failed,
}

abbrev pub is_closed : ℤ → Bool
is_closed (negsuc zero) = true
is_closed (negsuc (suc n)) = false
is_closed (pos n) = false

-- The loop of `sock_get_free_index`, with the indices that are left.
unfoldable pub free_from : ℕ → ℕ → Socks → Option (Option ℕ)
free_from zero i st = some none
free_from (suc left) i st =
    poll_at i st >>= λ u. if is_closed u.fd then some (some i) else free_from left (suc i) st

-- `sock_get_free_index(minimum)`
unfoldable pub sock_get_free_index : ℕ → Socks → Option (ℕ × Socks)
sock_get_free_index minimum st = free_from (st.nfds - minimum) minimum st >>= λ found.
    some (elim found [ none ↦ (st.nfds, record st { nfds = st.nfds + 1 }) | some i ↦ (i, st) ])

-- `init_idx(idx)`
unfoldable pub init_idx : ℕ → Socks → Option Socks
init_idx i st = set_poll (λ u. record u { events = pollin }) i st >>= set_conn (λ c. blank_conn) i

-- The rest of `initiate_connect` when the connection is in progress.
unfoldable pub connect_pending : ℕ → Socks → Option (ℤ × Socks)
connect_pending s st = do
  (i, st1) ← sock_get_free_index 0 st
  st2 ← init_idx i st1
  st3 ← set_poll (λ u. record u { fd = pos s; events = bit_or u.events pollout }) i st2
  st4 ← set_conn (λ c. record c { connected = false; inbound = false }) i st3
  some (pos i, st4)

unfoldable pub connect_answer : Connecting → Socks → Option (ℤ × Socks)
connect_answer no_socket st = some (negsuc 0, st)
connect_answer no_host st = none
connect_answer at_once st = some (negsuc 0, st)
connect_answer (in_progress s) st = connect_pending s st
connect_answer connect_failed st = some (negsuc 0, st)

-- `initiate_connect(addr, port)`
unfoldable pub initiate_connect : Host → Socks → Option (ℤ × Socks)
initiate_connect host st =
    if leb st.nfds max_fds
    then (if st.nfds == max_fds then some (negsuc 0, st) else connect_answer (host.connect st) st)
    else none

-- `bind_socket_listener_specific(newidx, s, addr, port)`: the program ends if `bind` fails.
unfoldable pub bind_socket_listener_specific : Host → ℕ → ℕ → ℕ → Socks → Option Socks
bind_socket_listener_specific host i s port st =
    if host.bind st s
    then (init_idx i st
        >>= set_conn (λ c. record c { listener = true; listen_port = port }) i
        >>= set_poll (λ u. record u { fd = pos s; events = pollin }) i)
    else none

-- `bind_udp_listener_specific(addr, port, remote)`: `resolved` says whether the remote host, if any,
-- can be connected to.
unfoldable pub bind_udp_listener_specific : Host → Bool → ℕ → Socks → Option (ℕ × Socks)
bind_udp_listener_specific host resolved port st = do
  s ← host.new_socket st
  (i, st1) ← sock_get_free_index st.biggest_udp_idx st
  st2 ← bind_socket_listener_specific host i s port st1
  st3 ← set_conn (λ c. record c { is_udp = true }) i (record st2 { biggest_udp_idx = i })
  st4 ←
      (if resolved
        then set_conn (λ c. record c { connected = true; inbound = true }) i st3
        else none)
  some (i, st4)

-- `bind_tcp_listener_specific(addr, port)`: `listens` is the answer of `listen`.
unfoldable pub bind_tcp_listener_specific : Host → Bool → ℕ → Socks → Option (ℕ × Socks)
bind_tcp_listener_specific host listens port st = do
  s ← host.new_socket st
  (i, st1) ← sock_get_free_index 0 st
  st2 ← bind_socket_listener_specific host i s port st1
  st3 ← set_conn (λ c. record c { is_udp = false }) i st2
  (if listens then some (i, st3) else none)
