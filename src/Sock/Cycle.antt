-- ===== src/Sock/Cycle.antt =====
-- The main loop of supp_src/lib_sock.c.
use cosimus.Base.{
  ℕ, zero, suc, ◌+◌, ◌-◌, Bool, not, ◌&&◌, Option, none, some, bit_and, ℤ, pos, negsuc, is_pos,
  ◌==◌, if◌then◌else◌, ◌>>=◌,
}
use cosimus.Sock.{Socks, Host, conn_at, poll_at, set_poll, pollin, pollout}
use cosimus.Sock.Index.{is_closed}
use cosimus.Sock.Events.{
  sock_tcp_listener_pollin, sock_unconnected_pollinout, sock_connected_pollin,
  sock_connected_pollout,
}

-- One round of `sock_remove_closed_fds`.
unfoldable pub remove_closed_fd : ℕ → Socks → Option Socks
remove_closed_fd i st = poll_at i st >>= λ u.
    if is_closed u.fd
    then (set_poll (λ u. record u { events = 0 }) i st >>= λ st1.
        some (if is_pos u.fd (st1.nfds - 1) then record st1 { nfds = st1.nfds - 1 } else st1))
    else some st

-- The loop, from index `left - 1` down to 0.
unfoldable pub remove_rounds : ℕ → Socks → Option Socks
remove_rounds zero st = some st
remove_rounds (suc left) st = remove_closed_fd left st >>= remove_rounds left

-- `sock_remove_closed_fds()`
unfoldable pub sock_remove_closed_fds : Socks → Option Socks
sock_remove_closed_fds st = remove_rounds st.nfds st

-- `ufds[i].revents & event`
unfoldable pub has_event : ℕ → ℕ → Socks → Option Bool
has_event event i st = poll_at i st >>= λ u. some (not (bit_and u.revents event == 0))

-- A socket on which something happened: the handler for the state it is in.
unfoldable pub on_either :
    Host → (ℕ → Socks → Option Socks) → ℕ → ℕ → ℕ × Socks → Option (ℕ × Socks)
on_either host connected_event event i (n, st) = has_event event i st >>= λ happened.
    if happened
    then (conn_at i st >>= λ c.
        (if c.connected then connected_event i st else sock_unconnected_pollinout host i st)
        >>= λ st1. some (n + 1, st1))
    else some (n, st)

unfoldable pub on_listener : Host → ℕ → ℕ × Socks → Option (ℕ × Socks)
on_listener host i (n, st) = has_event pollin i st >>= λ happened.
    if happened
    then (sock_tcp_listener_pollin host i st >>= λ st1. some (n + 1, st1))
    else some (n, st)

-- The body of the loop of `sock_one_cycle`.
unfoldable pub one_socket : Host → ℕ → ℕ × Socks → Option (ℕ × Socks)
one_socket host i (n, st) = conn_at i st >>= λ c.
    if c.listener && not c.is_udp
    then on_listener host i (n, st)
    else (on_either host (sock_connected_pollin host) pollin i (n, st)
        >>= on_either host (sock_connected_pollout host) pollout i
        >>= λ (n', st'). set_poll (λ u. record u { revents = 0 }) i st' >>= λ st''. some (n', st''))

-- The loop, with the indices that are left.
unfoldable pub cycle_rounds : Host → ℕ → ℕ → ℕ × Socks → Option (ℕ × Socks)
cycle_rounds host zero i acc = some acc
cycle_rounds host (suc left) i acc = one_socket host i acc >>= cycle_rounds host left (suc i)

unfoldable pub after_poll : Host → Socks → Option (ℕ → ℕ) → Option (ℤ × Socks)
after_poll host st none = some (negsuc 0, st)
after_poll host st (some happened) =
    cycle_rounds host st.nfds 0
      (0, record st { ufds = λ i. record (st.ufds i) { revents = happened i } })
    >>= λ (n, st1). sock_remove_closed_fds st1 >>= λ st2. some (pos n, st2)

-- `sock_one_cycle()`: `poll` says what happened on each index, or fails.
unfoldable pub sock_one_cycle : Host → Socks → Option (ℤ × Socks)
sock_one_cycle host st = after_poll host st (host.poll st)
