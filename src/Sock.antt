-- ===== src/Sock.antt =====
-- supp_src/lib_sock.c: sockets, their buffers and their handlers.
-- `cdata` and `ufds` are functions from the index, looked at below `max_fds` only. The lists are those
-- of supp_src/lib_lists.c in `heap`, and hold the addresses of buffers. What the operating system and
-- OpenSSL answer, and the handlers, are fields of `Host`. `sent` records the bytes that the system
-- took on each index. `none` is a failed assertion, an access outside an array or through a bad
-- pointer, or the end of the program.
pub mod Close
pub mod Send
pub mod Index
pub mod Events
pub mod Cycle
pub mod Queue
pub mod Limits
pub mod Free
pub mod Poll
use cosimus.Base.{
  ℕ, zero, suc, ◌+◌, ◌-◌, Bool, true, false, not, ◌&&◌, ◌||◌, Option, none, some, List, [], ◌∷◌,
  ◌++◌, take, peek_all, bit_and, bit_or, ℤ, pos, negsuc, ◌+ℤ◌, lt_ℤ, is_pos, minus, ltb, leb, ◌==◌,
  if◌then◌else◌, ◌>>=◌,
}
use cosimus.Dbuf.{Block, Dbuf, dcheckusig}
use cosimus.Dbuf.Store.{Dbufs, lock_at, unlock_at}
use cosimus.LinkedList.{Heap, Malloc, lpush, rpop, rpeek}

abbrev pub max_fds : ℕ
max_fds = 10000

-- The events of `poll`.
abbrev pub pollin : ℕ
pollin = 1

abbrev pub pollout : ℕ
pollout = 4

-- `sock_handlers_t`: the addresses of the functions, or NULL.
pub record SockHandlers : Type 0 where
  pub ev_channel_ready : ℕ
  pub ev_read : ℕ
  pub ev_closed : ℕ
  pub ev_newconn : ℕ

abbrev pub no_handlers : SockHandlers
no_handlers = record { ev_channel_ready = 0; ev_read = 0; ev_closed = 0; ev_newconn = 0 }

-- `conndata_t`. `ssl` is an address.
pub record Conndata : Type 0 where
  pub xmit_list : ℕ
  pub written : ℤ
  pub connected : Bool
  pub inbound : Bool
  pub listener : Bool
  pub listen_port : ℕ
  pub is_udp : Bool
  pub rx_count : ℕ
  pub tx_count : ℕ
  pub do_ssl : Bool
  pub is_ssl : Bool
  pub ssl : ℕ
  pub remote_addr : ℕ
  pub remote_port : ℕ
  pub apptype : ℕ
  pub appdata : ℕ
  pub l7state : ℕ
  pub recv_list : ℕ
  pub handlers : SockHandlers

-- All zeros.
abbrev pub blank_conn : Conndata
blank_conn = record {
  xmit_list = 0;
  written = pos 0;
  connected = false;
  inbound = false;
  listener = false;
  listen_port = 0;
  is_udp = false;
  rx_count = 0;
  tx_count = 0;
  do_ssl = false;
  is_ssl = false;
  ssl = 0;
  remote_addr = 0;
  remote_port = 0;
  apptype = 0;
  appdata = 0;
  l7state = 0;
  recv_list = 0;
  handlers = no_handlers;
}

-- `struct pollfd`
pub record Pollfd : Type 0 where
  pub fd : ℤ
  pub events : ℕ
  pub revents : ℕ

-- The variables of the file, and the memory it works on.
pub record Socks : Type 0 where
  pub ufds : ℕ → Pollfd
  pub cdata : ℕ → Conndata
  pub nfds : ℕ
  pub nclients : ℤ
  pub nconnections : ℕ
  pub biggest_udp_idx : ℕ
  pub heap : Heap
  pub dbufs : Dbufs
  pub sent : ℕ → List ℕ

-- `cdata[i]`
unfoldable pub conn_at : ℕ → Socks → Option Conndata
conn_at i st = if ltb i max_fds then some (st.cdata i) else none

-- Assignments to the fields of `cdata[i]`.
unfoldable pub set_conn : (Conndata → Conndata) → ℕ → Socks → Option Socks
set_conn f i st =
    if ltb i max_fds
    then some (record st { cdata = λ j. if j == i then f (st.cdata j) else st.cdata j })
    else none

-- `ufds[i]`
unfoldable pub poll_at : ℕ → Socks → Option Pollfd
poll_at i st = if ltb i max_fds then some (st.ufds i) else none

-- Assignments to the fields of `ufds[i]`.
unfoldable pub set_poll : (Pollfd → Pollfd) → ℕ → Socks → Option Socks
set_poll f i st =
    if ltb i max_fds
    then some (record st { ufds = λ j. if j == i then f (st.ufds j) else st.ufds j })
    else none

-- What `SSL_get_error` answers.
pub data SslError : Type 0 where
  ssl_none ssl_zero_return ssl_want_read ssl_want_write ssl_other : SslError

-- How an attempt to connect goes: no socket, no such host, at once, in progress on a descriptor, or
-- an error.
pub data Connecting : Type 0 where
  no_socket no_host at_once : Connecting
  in_progress : ℕ → Connecting
  connect_failed : Connecting

-- The answers from outside: of `malloc` to `lpush` and `dalloc`; how many of the bytes offered on an
-- index the system takes, or a negative number (`sendto`, `SSL_write`, `write`); what it has
-- received (`recvfrom`, `SSL_read`, `read`), none for an error, and from where; the handlers; OpenSSL's
-- functions; and the system calls. `rounds` bounds the loop of `ev_closed`.
pub record Host : Type 0 where
  pub malloc : Heap → Malloc
  pub buffer : Socks → ℕ → Option (ℕ × Block)
  pub send : Socks → ℕ → List ℕ → ℤ
  pub receive : Socks → ℕ → ℕ → Option (List ℕ)
  pub sender : Socks → ℕ → ℕ × ℕ
  pub on_read : ℕ → ℕ → ℕ → Socks → Option (ℤ × Socks)
  pub on_event : ℕ → ℕ → Socks → Option Socks
  pub on_newconn : ℕ → ℕ → ℤ → Socks → Option Socks
  pub ssl_new : Socks → ℕ
  pub ssl_set_fd : Socks → ℕ → Bool
  pub ssl_handshake : Socks → ℕ → Bool → ℤ
  pub ssl_get_error : Socks → ℕ → ℤ → SslError
  pub accept : Socks → ℕ → ℤ
  pub so_error : Socks → ℕ → ℕ
  pub new_socket : Socks → Option ℕ
  pub bind : Socks → ℕ → Bool
  pub connect : Socks → Connecting
  pub poll : Socks → Option (ℕ → ℕ)
  pub rounds : ℕ

-- `*li` after an operation on the list at `cdata[i].xmit_list`.
unfoldable pub with_xmit : ℕ → Option ℕ → Heap → Socks → Option Socks
with_xmit i none h st = some (record st { heap = h })
with_xmit i (some head) h st =
    set_conn (λ c. record c { xmit_list = head }) i (record st { heap = h })

unfoldable pub with_lock : ℕ → Socks → Option Socks
with_lock p st = lock_at p st.dbufs >>= λ s. some (record st { dbufs = s })

unfoldable pub with_unlock : ℕ → Socks → Option Socks
with_unlock p st = unlock_at p st.dbufs >>= λ s. some (record st { dbufs = s })

-- `dsend(idx, d)`, for the buffer at `p`.
unfoldable pub dsend : Host → ℕ → ℕ → Socks → Option Socks
dsend host i p st = do
  d ← st.dbufs p
  c ← conn_at i st
  (li, head, h) ← lpush (some c.xmit_list) p (host.malloc st.heap) st.heap
  st1 ← with_xmit i head h st
  st2 ← set_poll (λ u. record u { events = bit_or u.events pollout }) i st1
  with_lock p st2

-- `cdata_get_appdata_dbuf(idx, appdata_sig)`
unfoldable pub cdata_get_appdata_dbuf : ℕ → ℕ → Socks → Option ℕ
cdata_get_appdata_dbuf i sig st = conn_at i st >>= λ c.
    if c.appdata == 0
    then some 0
    else (st.dbufs c.appdata >>= λ d. some (if dcheckusig (some d) sig then c.appdata else 0))

-- `cdata_set_appdata_dbuf(idx, d)`
unfoldable pub cdata_set_appdata_dbuf : ℕ → ℕ → Socks → Option Socks
cdata_set_appdata_dbuf i p = set_conn (λ c. record c { appdata = p }) i

-- `cdata_get_handlers(idx)`, of which only the fields are used.
cdata_get_handlers : ℕ → Socks → Option SockHandlers
cdata_get_handlers i st = conn_at i st >>= λ c. some c.handlers

-- `cdata_get_remote4(idx, addr, port)`, for pointers that are not NULL.
unfoldable pub cdata_get_remote4 : ℕ → Socks → Option (ℕ × ℕ)
cdata_get_remote4 i st = conn_at i st >>= λ c. some (c.remote_addr, c.remote_port)

-- `cdata_set_remote4(idx, addr, port)`: NULL leaves the field.
unfoldable pub cdata_set_remote4 : ℕ → Option ℕ → Option ℕ → Socks → Option Socks
cdata_set_remote4 i addr port =
    set_conn
      (λ c. record c {
        remote_addr = elim addr [ none ↦ c.remote_addr | some a ↦ a ];
        remote_port = elim port [ none ↦ c.remote_port | some p ↦ p ];
      })
      i

-- `cdata_check_remote4(idx, addr, port)`
cdata_check_remote4 : ℕ → ℕ → ℕ → Socks → Option Bool
unfolding cdata_get_remote4
cdata_check_remote4 i addr port st =
    cdata_get_remote4 i st >>= λ (a, p). some (a == addr && p == port)
