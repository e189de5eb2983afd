-- ===== src/Sock/Close.antt =====
-- Closing a socket of supp_src/lib_sock.c.
use cosimus.Base.{ℕ, zero, suc, Option, none, some, negsuc, ◌+ℤ◌, ◌==◌, if◌then◌else◌, ◌>>=◌}
use cosimus.LinkedList.{rpop}
use cosimus.Sock.{Socks, Host, conn_at, set_conn, set_poll, with_xmit, with_unlock}

-- `while((d = rpop(&cdata[idx].xmit_list))) dunlock(d);`, for so many rounds at most.
unfoldable pub drain_rounds : ℕ → ℕ → Socks → Option Socks
drain_rounds zero i st = none
drain_rounds (suc left) i st = conn_at i st >>= λ c.
    rpop (some c.xmit_list) st.heap >>= λ (p, head, h). with_xmit i head h st >>= λ st1.
    let rest = with_unlock p st1 >>= drain_rounds left i in if p == 0 then some st1 else rest

-- `SSL_shutdown(…); SSL_free(…); cdata[idx].ssl = NULL;`
unfoldable pub free_ssl : ℕ → Socks → Option Socks
free_ssl i st =
    conn_at i st >>= λ c. if c.is_ssl then set_conn (λ c. record c { ssl = 0 }) i st else some st

-- A handler, if there is one.
unfoldable pub call_event : Host → ℕ → ℕ → Socks → Option Socks
call_event host f i st = if f == 0 then some st else host.on_event f i st

-- `ev_closed(idx)`
unfoldable pub ev_closed : Host → ℕ → Socks → Option Socks
ev_closed host i st = do
  st1 ← free_ssl i st
  st2 ← drain_rounds host.rounds i st1
  c2 ← conn_at i st2
  st3 ← call_event host c2.handlers.ev_closed i st2
  c3 ← conn_at i st3
  st4 ← with_unlock c3.appdata st3
  c4 ← conn_at i st4
  some (if c4.inbound then record st4 { nclients = st4.nclients +ℤ negsuc 0 } else st4)

-- `close_idx(idx)`
unfoldable pub close_idx : Host → ℕ → Socks → Option Socks
close_idx host i st = ev_closed host i st >>= set_poll (λ u. record u { fd = negsuc 0 }) i
