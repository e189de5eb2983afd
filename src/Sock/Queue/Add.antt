-- ===== src/Sock/Queue/Add.antt =====
-- `dsend` of supp_src/lib_sock.c puts a buffer at the end of the stream.
use cosimus.Base.{
  ℕ, ◌+◌, ◌≤◌, ◌≡◌, ◌≢◌, refl, ap₂, ◌∙◌, true, none, some, ◌∷◌, ◌++◌, length, drop, drop-append_le,
  lt→ltb, ◌==◌, if◌then◌else◌, arith, bit_or,
}
use cosimus.Dbuf.{Dbuf}
use cosimus.Dbuf.Grow.{IsDbuf, content}
use cosimus.Dbuf.Lock.{with_lock-IsDbuf}
use cosimus.Dbuf.Store.{put, put_here, lock_at-run}
use cosimus.LinkedList.{Listitem}
use cosimus.LinkedList.Seg.{Cells}
use cosimus.LinkedList.Push.{lpush_lem}
use cosimus.Sock.{Pollfd, Socks, Host, max_fds, pollout, set_poll, with_xmit, with_lock, dsend}
use cosimus.Sock.Queue.{
  NotIn, content_of, payload, payload-put, AllHeld-put, IsQueue, remaining, conn_at-run, assign,
  set_conn-run,
}

-- `dsend` of a valid buffer that is not in the queue, when `malloc` answers, puts its bytes at the end
-- of the stream, locks it and asks for `POLLOUT`; nothing is sent by it.
pub dsend-IsQueue :
    (host : Host) (i : ℕ) (st : Socks) (xs : Cells) (p w : ℕ) (d : Dbuf) (a : ℕ) (junk : Listitem)
    → IsQueue st i xs w
    → w ≤ length (payload st.dbufs xs)
    → st.dbufs p ≡ some d
    → IsDbuf d
    → p ≢ 0
    → NotIn p xs
    → host.malloc st.heap ≡ some (a, junk)
    → st.heap a ≡ none
    → a ≢ 0
    → (st' : Socks) × (dsend host i p st ≡ some st')
      × IsQueue st' i ((a, p) ∷ xs) w
      × (remaining st' ((a, p) ∷ xs) w ≡ remaining st xs w ++ content d)
      × (st'.sent ≡ st.sent)
      × ((st'.ufds i).events ≡ bit_or (st.ufds i).events pollout)
unfolding dsend with_xmit set_poll with_lock
dsend-IsQueue host i st xs p w d a junk v short at valid nonnull out answered unused na =
    let (h, pushed, list, spared) = lpush_lem xs a p junk v.linked unused na in
    let st1 = assign (λ c. record c { xmit_list = a }) i (record st { heap = h }) in
    let asks = λ (u : Pollfd). record u { events = bit_or u.events pollout } in
    let d' = record d { lock = d.lock + 1 } in
    let s' = put p (some d') st.dbufs in
    let st' = record st1 {
      ufds = λ j. if j == i then asks (st.ufds j) else st.ufds j;
      dbufs = s';
    } in
    let here : (i == i) ≡ true = ground arith in
    (
      st',
      rw
          (
            at,
            conn_at-run i st v.inside,
            answered,
            pushed,
            set_conn-run (λ c. record c { xmit_list = a }) i (record st { heap = h }) v.inside,
            lt→ltb i max_fds v.inside,
            lock_at-run p st.dbufs d nonnull at valid,
          )
          refl,
      record {
        inside = v.inside;
        linked = rw here list;
        held = (
          (
            d',
            put_here p (some d') st.dbufs,
            with_lock-IsDbuf (d.lock + 1) valid,
            omega arith,
            nonnull,
          ),
          AllHeld-put st.dbufs p (some d') xs out v.held,
        );
        written = rw here v.written;
      },
      ap₂ (λ t c. drop w (t ++ content_of c)) (payload-put st.dbufs p (some d') xs out)
            (put_here p (some d') st.dbufs)
          ∙ drop-append_le w (payload st.dbufs xs) (content d) short,
      refl,
      rw here refl,
    )
