-- ===== src/Sock/Events.antt =====
-- The events of supp_src/lib_sock.c: connections, data and negotiation.
use cosimus.Base.{
  ℕ, zero, suc, ◌+◌, Bool, true, false, Option, none, some, length, poke_all, bit_or, ℤ, pos,
  negsuc, lt_ℤ, is_pos, ltb, leb, ◌==◌, if◌then◌else◌, ◌>>=◌,
}
use cosimus.Dbuf.{Block, Dbuf, dalloc}
use cosimus.Dbuf.Store.{put}
use cosimus.Sock.{
  Socks, Host, blank_conn, max_fds, conn_at, set_conn, set_poll, with_unlock, pollin, pollout,
  SslError, ssl_none, ssl_zero_return, ssl_want_read, ssl_want_write, ssl_other,
}
use cosimus.Sock.Close.{call_event, close_idx}
use cosimus.Sock.Send.{send_last, stop_pollout}
use cosimus.Sock.Index.{sock_get_free_index, init_idx}

-- `ev_channel_ready(idx)`
unfoldable pub ev_channel_ready : Host → ℕ → Socks → Option Socks
ev_channel_ready host i st = conn_at i st >>= λ c. call_event host c.handlers.ev_channel_ready i st

-- The end of `ev_newconn` and `ev_newoutconn`.
unfoldable pub ready_unless_ssl : Host → ℕ → Socks → Option Socks
ready_unless_ssl host i st =
    conn_at i st >>= λ c. if c.do_ssl then some st else ev_channel_ready host i st

unfoldable pub call_newconn : Host → ℕ → ℕ → ℤ → Socks → Option Socks
call_newconn host f i parent st = if f == 0 then some st else host.on_newconn f i parent st

-- `ev_newconn(idx, parent)`
unfoldable pub ev_newconn : Host → ℕ → ℕ → Socks → Option (ℤ × Socks)
ev_newconn host i parent st = do
  st1 ← set_conn (λ c. record blank_conn { connected = true; inbound = true }) i st
  let st2 = record st1 { nconnections = st1.nconnections + 1 }
  p ← conn_at parent st2
  st3 ← call_newconn host p.handlers.ev_newconn i (pos parent) st2
  st4 ← ready_unless_ssl host i st3
  some (pos 0, st4)

-- `ev_newoutconn(idx, -1)`
unfoldable pub ev_newoutconn : Host → ℕ → Socks → Option Socks
ev_newoutconn host i st = do
  st1 ←
      set_conn (λ c. record c { connected = true; inbound = false; l7state = 0; recv_list = 0 }) i
        st
  let st2 = record st1 { nconnections = st1.nconnections + 1 }
  c ← conn_at i st2
  st3 ← call_newconn host c.handlers.ev_newconn i (negsuc 0) st2
  ready_unless_ssl host i st3

-- A connection that was accepted on descriptor `s`. `ev_newconn` does not return a negative number.
unfoldable pub accepted : Host → ℕ → ℕ → ℤ → Socks → Option Socks
accepted host i new s st = do
  st1 ← init_idx new st
  st2 ← set_poll (λ u. record u { fd = s }) new st1
  (ret, st3) ← ev_newconn host new i st2
  (if lt_ℤ ret (pos 0)
      then set_poll (λ u. record u { fd = negsuc 0; revents = 0 }) new st3
      else some st3)

-- `sock_tcp_listener_pollin(i)`
unfoldable pub sock_tcp_listener_pollin : Host → ℕ → Socks → Option Socks
sock_tcp_listener_pollin host i st = do
  st1 ← set_poll (λ u. record u { revents = 0 }) i st
  (new, st2) ← sock_get_free_index 0 st1
  (if ltb st2.nfds max_fds then accepted host i new (host.accept st1 i) st2 else some st2)

-- `sock_unconnected_pollinout(i)`, when `getsockopt` succeeds.
unfoldable pub sock_unconnected_pollinout : Host → ℕ → Socks → Option Socks
sock_unconnected_pollinout host i st =
    if host.so_error st i == 0
    then (set_conn (λ c. record c { connected = true }) i st >>= ev_newoutconn host i)
    else set_poll (λ u. record u { fd = negsuc 0 }) i st

-- `SSL_new` and `SSL_set_fd`, if there is no SSL object yet; a code if they fail.
unfoldable pub make_ssl : Host → ℕ → Socks → Option (Option ℤ × Socks)
make_ssl host i st = conn_at i st >>= λ c.
    if c.ssl == 0
    then (if host.ssl_new st == 0
        then some (some (negsuc 99), st)
        else (if host.ssl_set_fd st i
            then (set_conn (λ c. record c { ssl = host.ssl_new st }) i st >>= λ st1.
                some (none, st1))
            else some (some (negsuc 100), st)))
    else some (none, st)

-- After `SSL_accept` or `SSL_connect` has answered.
unfoldable pub after_handshake : ℕ → ℤ → Socks → Option (ℤ × Socks)
after_handshake i (pos (suc n)) st =
    set_conn (λ c. record c { is_ssl = true }) i st >>= λ st1. some (pos 1, st1)
after_handshake i (pos zero) st = some (pos 0, st)
after_handshake i (negsuc n) st = some (negsuc n, st)

unfoldable pub handshake : Host → ℕ → Bool → Option ℤ × Socks → Option (ℤ × Socks)
handshake host i is_server (some code, st) = some (code, st)
handshake host i is_server (none, st) = after_handshake i (host.ssl_handshake st i is_server) st

-- `ssl_negotiate(idx, is_server)`. The certificates are looked at for the log only.
unfoldable pub ssl_negotiate : Host → ℕ → Bool → Socks → Option (ℤ × Socks)
ssl_negotiate host i is_server st = conn_at i st >>= λ c.
    if c.is_ssl
    then some (pos 1, st)
    else (if c.is_udp
        then some (pos 0, st)
        else (make_ssl host i st >>= handshake host i is_server))

-- `sock_ssl_check_error(i, ret)`
unfoldable pub sock_ssl_check_error : Host → ℕ → SslError → Socks → Option Socks
sock_ssl_check_error host i ssl_none st = set_poll (λ u. record u { events = pollin }) i st
sock_ssl_check_error host i ssl_zero_return st = close_idx host i st
sock_ssl_check_error host i ssl_want_read st =
    set_poll (λ u. record u { events = bit_or u.events pollin }) i st
sock_ssl_check_error host i ssl_want_write st =
    set_poll (λ u. record u { events = bit_or u.events pollout }) i st
sock_ssl_check_error host i ssl_other st = close_idx host i st

-- `sock_ssl_pollinout(i)`
unfoldable pub sock_ssl_pollinout : Host → ℕ → Socks → Option Socks
sock_ssl_pollinout host i st = do
  c ← conn_at i st
  (ret, st1) ← ssl_negotiate host i c.inbound st
  (if is_pos ret 1
      then (set_conn (λ c. record c { do_ssl = false }) i st1
          >>= set_poll (λ u. record u { events = pollin }) i
          >>= ev_channel_ready host i)
      else sock_ssl_check_error host i (host.ssl_get_error st1 i ret) st1)

-- `sock_receive_data(i, d)` for the buffer at `p`: what it returns. After an error the data size is -1,
-- which nothing looks at but `dunlock`, to which it is as good as 0.
unfoldable pub sock_receive_data : Host → ℕ → ℕ → Dbuf → Socks → Option (ℤ × Socks)
sock_receive_data host i p d st = do
  st1 ←
      set_conn
        (λ c. record c {
          rx_count = c.rx_count + 1;
          remote_addr = if c.is_udp then (host.sender st i).0 else c.remote_addr;
          remote_port = if c.is_udp then (host.sender st i).1 else c.remote_port;
        })
        i st
  elim (host.receive st i d.size) [
    | none ↦ some (negsuc 0, st1)
    | some bytes ↦
        if leb (length bytes) d.size
        then (poke_all d.buf 0 bytes >>= λ m. some (
          pos (length bytes),
          record st1 {
            dbufs = put p (some (record d { buf = m; dsize = length bytes })) st1.dbufs;
          },
        ))
        else none
  ]

-- `ev_read(idx, d)`
unfoldable pub ev_read : Host → ℕ → ℕ → Socks → Option (ℤ × Socks)
ev_read host i p st = conn_at i st >>= λ c.
    if c.handlers.ev_read == 0 then some (pos 0, st) else host.on_read c.handlers.ev_read i p st

-- What was received is handled, or the socket is closed.
unfoldable pub after_receive : Host → ℕ → ℕ → ℤ → Socks → Option Socks
after_receive host i p (pos zero) st = close_idx host i st
after_receive host i p (pos (suc n)) st =
    ev_read host i p st >>= λ (ret, st1). if is_pos ret 0 then close_idx host i st1 else some st1
after_receive host i p (negsuc n) st = some st

abbrev pub chunk_sz : ℕ
chunk_sz = 20480

unfoldable pub receive_into : Host → ℕ → Option (ℕ × Block) → Socks → Option Socks
receive_into host i none st = some st
receive_into host i (some (p, b)) st = dalloc (some b) true chunk_sz >>= λ fresh. fresh >>= λ d.
    sock_receive_data host i p d (record st { dbufs = put p (some d) st.dbufs }) >>= λ (n, st1).
    after_receive host i p n st1 >>= with_unlock p

-- `sock_connected_pollin(i)`
unfoldable pub sock_connected_pollin : Host → ℕ → Socks → Option Socks
sock_connected_pollin host i st = conn_at i st >>= λ c.
    if c.do_ssl
    then sock_ssl_pollinout host i st
    else receive_into host i (host.buffer st chunk_sz) st

-- `sock_connected_pollout(i)`
unfoldable pub sock_connected_pollout : Host → ℕ → Socks → Option Socks
sock_connected_pollout host i st = conn_at i st >>= λ c.
    if c.do_ssl
    then sock_ssl_pollinout host i st
    else ((if c.xmit_list == 0 then some st else send_last host i c st) >>= stop_pollout i)
