-- ===== src/Sock/Send.antt =====
-- Sending in supp_src/lib_sock.c.
use cosimus.Base.{
  ℕ, zero, suc, ◌+◌, ◌-◌, true, not, ◌&&◌, Option, none, some, List, ◌++◌, take, peek_all, bit_and,
  ℤ, pos, negsuc, ◌+ℤ◌, lt_ℤ, is_pos, minus, leb, ◌==◌, if◌then◌else◌, ◌>>=◌,
}
use cosimus.Dbuf.{Dbuf}
use cosimus.Dbuf.Append.{dsubstrcpy}
use cosimus.Dbuf.Store.{put}
use cosimus.LinkedList.{rpop, rpeek}
use cosimus.Sock.Close.{close_idx}
use cosimus.Sock.{Conndata, Socks, Host, conn_at, set_conn, set_poll, with_xmit, with_unlock, dsend}

-- `&d->buf[written]` with `d->dsize - written` bytes.
unfoldable pub offered : Dbuf → ℤ → Option (List ℕ)
offered d (pos w) = if leb w d.dsize then peek_all d.buf w (d.dsize - w) else none
offered d (negsuc w) = none

-- The bytes that were taken are recorded.
unfoldable pub take_sent : ℕ → ℤ → List ℕ → Socks → Socks
take_sent i (pos n) bytes st = record st {
  sent = λ j. if j == i then st.sent j ++ take n bytes else st.sent j;
}
take_sent i (negsuc n) bytes st = st

-- `sock_send_data(i, d)`: the three ways of sending differ in the function called only.
unfoldable pub sock_send_data : Host → ℕ → Dbuf → Socks → Option (ℤ × Socks)
sock_send_data host i d st = conn_at i st >>= λ c. offered d c.written >>= λ bytes.
    some (host.send st i bytes, take_sent i (host.send st i bytes) bytes st)

-- What is left is queued: the whole buffer, or a copy of what was not written.
unfoldable pub queue_rest : Host → ℕ → ℕ → Dbuf → ℤ → Socks → Option Socks
queue_rest host i p d (negsuc n) st = dsend host i p st
queue_rest host i p d (pos zero) st = dsend host i p st
queue_rest host i p d (pos (suc n)) st =
    let answer = host.buffer st (d.dsize - suc n) in
    dsubstrcpy (answer >>= λ (a, b). some b) true d (suc n) (d.dsize - suc n) >>= λ t.
    answer >>= λ (a, b). dsend host i a (record st { dbufs = put a t st.dbufs }) >>= with_unlock p

-- `sock_write_data(i, d)`, for the buffer at `p`.
unfoldable pub sock_write_data : Host → ℕ → ℕ → Socks → Option (ℤ × Socks)
sock_write_data host i p st = do
  d ← st.dbufs p
  (n, st1) ← sock_send_data host i d st
  st2 ← (if lt_ℤ n (pos d.dsize) then queue_rest host i p d n st1 else some st1)
  some (n, st2)

-- The bytes that `sock_connected_pollout` gets rid of: a UDP socket that has received nothing drops
-- its data.
unfoldable pub send_or_drop : Host → ℕ → Dbuf → Conndata → Socks → Option (ℤ × Socks)
send_or_drop host i d c st =
    if c.is_udp && c.rx_count == 0
    then some (pos d.dsize +ℤ elim c.written [ pos w ↦ minus 0 w | negsuc w ↦ pos (w + 1) ], st)
    else sock_send_data host i d st

-- `dunlock(d); rpop(&cdata[i].xmit_list); cdata[i].written = 0; cdata[i].tx_count++;`
unfoldable pub drop_sent : ℕ → ℕ → Socks → Option Socks
drop_sent i p st = do
  st1 ← with_unlock p st
  c ← conn_at i st1
  (q, head, h) ← rpop (some c.xmit_list) st1.heap
  st2 ← with_xmit i head h st1
  set_conn (λ c. record c { written = pos 0; tx_count = c.tx_count + 1 }) i st2

unfoldable pub after_send : ℕ → ℕ → Dbuf → ℤ → Socks → Option Socks
after_send i p d n st = conn_at i st >>= λ c.
    if is_pos (n +ℤ c.written) d.dsize
    then drop_sent i p st
    else (if lt_ℤ n (pos d.dsize)
        then set_conn (λ c. record c { written = c.written +ℤ n }) i st
        else some st)

-- The last buffer of the list is sent, or, if it is empty, the socket is closed.
unfoldable pub send_last : Host → ℕ → Conndata → Socks → Option Socks
send_last host i c st = rpeek (some c.xmit_list) st.heap >>= λ p. st.dbufs p >>= λ d.
    if d.dsize == 0
    then close_idx host i st
    else (send_or_drop host i d c st >>= λ (n, st1). after_send i p d n st1)

-- `ufds[i].events &= ~POLLOUT` when nothing is left.
unfoldable pub stop_pollout : ℕ → Socks → Option Socks
stop_pollout i st = conn_at i st >>= λ c.
    if c.xmit_list == 0 && not c.do_ssl
    then set_poll (λ u. record u { events = bit_and u.events 65531 }) i st
    else some st
