-- ===== src/Sock/Queue/Pollout.antt =====
-- `sock_connected_pollout` of supp_src/lib_sock.c takes the stream of a socket further.
use cosimus.Base.{
  ℕ, ◌+◌, ◌-◌, ◌<◌, ◌≤◌, ◌≡◌, refl, sym, ap, subst, ◌∙◌, inl, inr, true, false, none, some, [], ◌∷◌,
  ◌++◌, take, drop, pos, negsuc, ◌+ℤ◌, is_pos, ==_iff, ◌==◌, ◌>>=◌, arith, Bool-cases, ◌&&◌,
}
use mathlib.Core.Option.{some_inj}
use cosimus.Dbuf.{Dbuf}
use cosimus.Dbuf.Grow.{IsDbuf, content}
use cosimus.LinkedList.Seg.{Cells, IsList}
use cosimus.LinkedList.Push.{not_null}
use cosimus.LinkedList.Find.{peek_ends}
use cosimus.Sock.{Conndata, Socks, Host, max_fds}
use cosimus.Sock.Send.{
  take_sent, offered, sock_send_data, send_or_drop, after_send, send_last, stop_pollout,
}
use cosimus.Sock.Events.{sock_connected_pollout}
use cosimus.Sock.Queue.{
  NotIn, AllHeld-split, last_datum_snoc, IsQueue, conn_at-run, assign, set_conn-run, offered-run,
  stop_pollout-run,
}
use cosimus.Sock.Queue.Out.{sent_on, nonempty_head, send_data-run, Advances, after_all, after_part}

-- `sock_connected_pollout` comes to a transmission of the last buffer.
pollout-run :
    (host : Host) (i : ℕ) (st : Socks) (xs : Cells) (q p : ℕ) (d : Dbuf)
    → i < max_fds
    → IsList st.heap (st.cdata i).xmit_list (xs ++ (q, p) ∷ [])
    → st.dbufs p ≡ some d
    → 0 < d.dsize
    → (st.cdata i).do_ssl ≡ false
    → ((st.cdata i).is_udp && (st.cdata i).rx_count == 0) ≡ false
    → sock_connected_pollout host i st
      ≡ (sock_send_data host i d st >>= (λ (n, st1). after_send i p d n st1) >>= stop_pollout i)
unfolding sock_connected_pollout send_last send_or_drop
pollout-run host i st xs q p d inside linked at more plain tcp =
    let head = not_null (st.cdata i).xmit_list (nonempty_head xs q p linked) in
    let (first, last) = peek_ends (xs ++ (q, p) ∷ []) linked in
    let some_data = not_null d.dsize (omega arith) in
    rw (conn_at-run i st inside, plain, head, last, last_datum_snoc 0 q p xs, at, some_data, tcp)
      refl

-- `sock_connected_pollout` on a socket that does not negotiate and, if it is a UDP socket, has received
-- something, when the last buffer of its list has bytes left and is in the list once, and the system
-- takes `n` of the bytes offered, goes on in the stream of the buffers that wait, first come first
-- sent: `n` bytes more are sent, and what was sent and what is still to be sent make the same stream
-- as before.
pub pollout-Advances :
    (host : Host) (i : ℕ) (st : Socks) (xs : Cells) (q p w n : ℕ) (d : Dbuf)
    → IsQueue st i (xs ++ (q, p) ∷ []) w
    → st.dbufs p ≡ some d
    → NotIn p xs
    → w < d.dsize
    → (st.cdata i).do_ssl ≡ false
    → ((st.cdata i).is_udp && (st.cdata i).rx_count == 0) ≡ false
    → host.send st i (drop w (content d)) ≡ pos n
    → n ≤ d.dsize - w
    → Advances
        (sock_connected_pollout host i st)
        st
        i
        (xs ++ (q, p) ∷ [])
        w
        (take n (drop w (content d)))
pollout-Advances host i st xs q p w n d v at out more plain tcp answer fits =
    let (held, ((d0, at0, valid0, locked0, nonnull), rest)) =
      AllHeld-split st.dbufs xs ((q, p) ∷ []) v.held in
    let same : d0 ≡ d = some_inj.0 (sym at0 ∙ at) in
    let valid : IsDbuf d = subst IsDbuf same valid0 in
    let locked : 0 < d.lock = subst (λ e. 0 < e.lock) same locked0 in
    let gone = take n (drop w (content d)) in
    let st1 = sent_on i gone st in
    let sent = send_data-run host i d st w n v.inside valid v.written (omega arith) answer in
    let step : Advances (after_send i p d (pos n) st1) st i (xs ++ (q, p) ∷ []) w gone =
      elim (Bool-cases (n + w == d.dsize)) [
        | inl all ↦
            after_all i st xs q p w n d v at valid locked nonnull out
              ((==_iff (n + w) d.dsize).0 all)
        | inr part ↦ after_part i st xs q p w n d v at valid (ground arith)
      ] in
    let (st2, xs', w', ran, queue, went, stream) = step in
    let (u, stopped) = stop_pollout-run i st2 queue.inside in
    (
      record st2 { ufds = u },
      xs',
      w',
      pollout-run host i st xs q p d v.inside v.linked at (omega arith) plain tcp
          ∙ rw (sent, ran) stopped,
      record {
        inside = queue.inside;
        linked = queue.linked;
        held = queue.held;
        written = queue.written;
      },
      went,
      stream,
    )

-- On such a socket, when sending fails on a buffer with data of which nothing was sent,
-- `sock_connected_pollout` counts the error as bytes, and its next call reads in front of the buffer.
pub pollout_error :
    (host : Host) (i : ℕ) (st : Socks) (xs : Cells) (q p k : ℕ) (d : Dbuf)
    → IsQueue st i (xs ++ (q, p) ∷ []) 0
    → st.dbufs p ≡ some d
    → 0 < d.dsize
    → (st.cdata i).do_ssl ≡ false
    → ((st.cdata i).is_udp && (st.cdata i).rx_count == 0) ≡ false
    → host.send st i (content d) ≡ negsuc k
    → (st' : Socks) × (sock_connected_pollout host i st ≡ some st')
      × ((st'.cdata i).written ≡ negsuc k)
      × (sock_send_data host i d st' ≡ none)
      × (sock_connected_pollout host i st' ≡ none)
unfolding sock_send_data take_sent after_send offered
pollout_error host i st xs q p k d v at more plain tcp answer =
    let (held, ((d0, at0, valid0, locked0, nonnull), rest)) =
      AllHeld-split st.dbufs xs ((q, p) ∷ []) v.held in
    let same : d0 ≡ d = some_inj.0 (sym at0 ∙ at) in
    let valid : IsDbuf d = subst IsDbuf same valid0 in
    let move = λ (c : Conndata). record c { written = c.written +ℤ negsuc k } in
    let st1 = assign move i st in
    let here : (i == i) ≡ true = ground arith in
    let test : is_pos (negsuc k +ℤ (st.cdata i).written) d.dsize ≡ false =
      ap (λ z. is_pos (negsuc k +ℤ z) d.dsize) v.written ∙ (ground arith) in
    let (u, stopped) = stop_pollout-run i st1 v.inside in
    let st' = record st1 { ufds = u } in
    let below : (st'.cdata i).written ≡ negsuc k =
      rw here (ap (λ z. z +ℤ negsuc k) v.written ∙ (ground arith)) in
    (
      st',
      pollout-run host i st xs q p d v.inside v.linked at more plain tcp
          ∙ rw
              (
                conn_at-run i st v.inside,
                offered-run d (st.cdata i).written 0 valid v.written (omega arith),
                answer,
                conn_at-run i st v.inside,
                test,
                set_conn-run move i st v.inside,
              )
              stopped,
      below,
      rw (conn_at-run i st' v.inside) (
          ap
            (λ z. offered d z >>= (λ bytes.
              some (host.send st' i bytes, take_sent i (host.send st' i bytes) bytes st')))
            below),
      pollout-run host i st' xs q p d v.inside (rw here v.linked) at more (rw here plain)
            (rw here tcp)
          ∙ rw (conn_at-run i st' v.inside) (
              ap
                (λ z.
                  offered d z
                  >>= (λ bytes.
                      some (host.send st' i bytes, take_sent i (host.send st' i bytes) bytes st'))
                  >>= (λ (n, st1). after_send i p d n st1)
                  >>= stop_pollout i)
                below),
    )
