-- ===== src/Sock/Queue/Out.antt =====
-- `sock_connected_pollout` of supp_src/lib_sock.c takes the stream of a socket further: its parts.
use cosimus.Base.{
  ℕ, ◌+◌, ◌<◌, ◌≤◌, ◌≡◌, ◌≢◌, refl, sym, ap, ap₂, ◌∙◌, true, false, Option, some, List, [], ◌∷◌,
  ◌++◌, append_assoc, length, take, drop, take-all, take-append-drop, drop_add, drop-append_le,
  length-take_le, length-drop, pos, ◌+ℤ◌, is_pos, ltb, lt→ltb, ==_iff, ◌==◌, if◌then◌else◌, arith,
}
use cosimus.Dbuf.{Dbuf}
use cosimus.Dbuf.Grow.{IsDbuf, content}
use cosimus.Dbuf.Store.{put, unlock_at-run}
use cosimus.LinkedList.{Heap}
use cosimus.LinkedList.Seg.{Cells, IsList, first_or, Seg-first}
use cosimus.LinkedList.Pop.Back.{rpop_lem}
use cosimus.Sock.{Conndata, Socks, Host, max_fds, with_xmit, with_unlock}
use cosimus.Sock.Send.{take_sent, sock_send_data, drop_sent, after_send}
use cosimus.Sock.Queue.{
  NotIn, content_of, payload, payload_snoc, payload-put, AllHeld-put, AllHeld-split, IsQueue,
  remaining, conn_at-run, assign, set_conn-run, offered-run,
}

-- The state after the system took bytes on index `i`.
abbrev pub sent_on : ℕ → List ℕ → Socks → Socks
sent_on i bytes st = record st { sent = λ j. if j == i then st.sent j ++ bytes else st.sent j }

pub nonempty_head :
    {h : Heap} {head : ℕ} (xs : Cells) (q p : ℕ) → IsList h head (xs ++ (q, p) ∷ []) → head ≢ 0
nonempty_head [] q p v = let (here, ne, out, s) = Seg-first v.linked in λ e. ne (sym v.at ∙ e)
nonempty_head ((r, o) ∷ xs) q p v =
    let (here, ne, out, s) = Seg-first v.linked in λ e. ne (sym v.at ∙ e)

-- The buffer that goes first, and the rest of the queue.
pub send_data-run :
    (host : Host) (i : ℕ) (d : Dbuf) (st : Socks) (w n : ℕ)
    → i < max_fds
    → IsDbuf d
    → (st.cdata i).written ≡ pos w
    → w ≤ d.dsize
    → host.send st i (drop w (content d)) ≡ pos n
    → sock_send_data host i d st ≡ some (pos n, sent_on i (take n (drop w (content d))) st)
unfolding sock_send_data take_sent
send_data-run host i d st w n inside v written fits answer =
    rw (conn_at-run i st inside, offered-run d (st.cdata i).written w v written fits, answer) refl

-- `drop_sent` takes the last buffer away.
drop_sent-run :
    (i : ℕ) (st : Socks) (xs : Cells) (q p w : ℕ) (d : Dbuf)
    → IsQueue st i (xs ++ (q, p) ∷ []) w
    → st.dbufs p ≡ some d
    → IsDbuf d
    → 0 < d.lock
    → p ≢ 0
    → NotIn p xs
    → (st' : Socks) × (drop_sent i p st ≡ some st')
      × IsQueue st' i xs 0
      × (payload st'.dbufs xs ≡ payload st.dbufs xs)
      × (st'.sent ≡ st.sent)
unfolding drop_sent with_unlock with_xmit
drop_sent-run i st xs q p w d v at valid locked nonnull out =
    let (c, unlocked) = unlock_at-run p st.dbufs d nonnull at valid locked in
    let st1 = record st { dbufs = put p c st.dbufs } in
    let (h, popped, list, freed, spared) = rpop_lem xs q p v.linked in
    let st2 = assign (λ c. record c { xmit_list = first_or 0 xs }) i (record st1 { heap = h }) in
    let done = λ (c : Conndata). record c { written = pos 0; tx_count = c.tx_count + 1 } in
    let st3 = assign done i st2 in
    let here : (i == i) ≡ true = ground arith in
    let (held, one) = AllHeld-split st.dbufs xs ((q, p) ∷ []) v.held in
    (
      st3,
      rw
          (
            unlocked,
            conn_at-run i st1 v.inside,
            popped,
            set_conn-run (λ c. record c { xmit_list = first_or 0 xs }) i (record st1 { heap = h })
                v.inside,
            set_conn-run done i st2 v.inside,
          )
          refl,
      record {
        inside = v.inside;
        linked = rw here list;
        held = AllHeld-put st.dbufs p c xs out held;
        written = rw here refl;
      },
      payload-put st.dbufs p c xs out,
      refl,
    )

-- What one transmission leaves: a queue, and the bytes `gone` sent; nothing is lost, repeated or moved.
abbrev pub Advances : Option Socks → Socks → ℕ → Cells → ℕ → List ℕ → Type 0
Advances r st i xs w gone =
    (st' : Socks) × (xs' : Cells) × (w' : ℕ) × (r ≡ some st')
    × IsQueue st' i xs' w'
    × (st'.sent i ≡ st.sent i ++ gone)
    × (st'.sent i ++ remaining st' xs' w' ≡ st.sent i ++ remaining st xs w)

-- The end of the last buffer was sent.
pub after_all :
    (i : ℕ) (st : Socks) (xs : Cells) (q p w n : ℕ) (d : Dbuf)
    → IsQueue st i (xs ++ (q, p) ∷ []) w
    → st.dbufs p ≡ some d
    → IsDbuf d
    → 0 < d.lock
    → p ≢ 0
    → NotIn p xs
    → n + w ≡ d.dsize
    → Advances
        (after_send i p d (pos n) (sent_on i (take n (drop w (content d))) st))
        st
        i
        (xs ++ (q, p) ∷ [])
        w
        (take n (drop w (content d)))
unfolding after_send
after_all i st xs q p w n d v at valid locked nonnull out all =
    let gone = take n (drop w (content d)) in
    let st1 = sent_on i gone st in
    let (st', ran, queue, same, kept) =
      drop_sent-run i st1 xs q p w d
        (record { inside = v.inside; linked = v.linked; held = v.held; written = v.written }) at
        valid locked nonnull out in
    let test : is_pos (pos n +ℤ (st.cdata i).written) d.dsize ≡ true =
      ap (λ z. is_pos (pos n +ℤ z) d.dsize) v.written ∙ (==_iff (n + w) d.dsize).1 all in
    let here : (i == i) ≡ true = ground arith in
    let sent' : st'.sent i ≡ st.sent i ++ gone = ap (λ f. f i) kept ∙ rw here refl in
    let size : length (content d) ≡ d.dsize =
      length-take_le d.dsize d.buf (omega (arith, valid.sized, valid.fits)) in
    let whole : gone ≡ drop w (content d) =
      take-all n (drop w (content d)) (omega (arith, length-drop w (content d), size, all)) in
    (
      st',
      xs,
      0,
      rw (conn_at-run i st1 v.inside, test) ran,
      queue,
      sent',
      ap₂ (λ a b. a ++ b) sent' same
          ∙ append_assoc (st.sent i) gone (payload st.dbufs xs)
          ∙ ap (λ t. st.sent i ++ t)
              (ap (λ g. g ++ payload st.dbufs xs) whole
                ∙ sym
                    (drop-append_le w (content d) (payload st.dbufs xs) (omega (arith, size, all)))
                ∙ ap (λ c. drop w (content_of c ++ payload st.dbufs xs)) (sym at)
                ∙ ap (drop w) (sym (payload_snoc st.dbufs xs q p))),
    )

-- A part of the last buffer was sent.
pub after_part :
    (i : ℕ) (st : Socks) (xs : Cells) (q p w n : ℕ) (d : Dbuf)
    → IsQueue st i (xs ++ (q, p) ∷ []) w
    → st.dbufs p ≡ some d
    → IsDbuf d
    → n + w < d.dsize
    → Advances
        (after_send i p d (pos n) (sent_on i (take n (drop w (content d))) st))
        st
        i
        (xs ++ (q, p) ∷ [])
        w
        (take n (drop w (content d)))
unfolding after_send
after_part i st xs q p w n d v at valid part =
    let gone = take n (drop w (content d)) in
    let st1 = sent_on i gone st in
    let move = λ (c : Conndata). record c { written = c.written +ℤ pos n } in
    let st' = assign move i st1 in
    let test : is_pos (pos n +ℤ (st.cdata i).written) d.dsize ≡ false =
      ap (λ z. is_pos (pos n +ℤ z) d.dsize) v.written ∙ (ground arith) in
    let less : ltb n d.dsize ≡ true = lt→ltb n d.dsize (omega arith) in
    let here : (i == i) ≡ true = ground arith in
    let size : length (content d) ≡ d.dsize =
      length-take_le d.dsize d.buf (omega (arith, valid.sized, valid.fits)) in
    let behind = payload st.dbufs xs in
    let snoc : payload st.dbufs (xs ++ (q, p) ∷ []) ≡ content d ++ behind =
      payload_snoc st.dbufs xs q p ∙ ap (λ c. content_of c ++ behind) at in
    let sent' : st'.sent i ≡ st.sent i ++ gone = rw here refl in
    (
      st',
      xs ++ (q, p) ∷ [],
      w + n,
      rw (conn_at-run i st1 v.inside, test, less, set_conn-run move i st1 v.inside) refl,
      record {
        inside = v.inside;
        linked = rw here v.linked;
        held = v.held;
        written = rw here (ap (λ z. z +ℤ pos n) v.written);
      },
      sent',
      ap₂ (λ a b. a ++ drop (w + n) b) sent' snoc
          ∙ append_assoc (st.sent i) gone (drop (w + n) (content d ++ behind))
          ∙ ap (λ t. st.sent i ++ t)
              (ap (λ t. gone ++ t)
                  (drop-append_le (w + n) (content d) behind (omega (arith, size, part))
                    ∙ ap (λ t. t ++ behind) (sym (drop_add w n (content d))))
                ∙ sym (append_assoc gone (drop n (drop w (content d))) behind)
                ∙ ap (λ t. t ++ behind) (take-append-drop n (drop w (content d)))
                ∙ sym (drop-append_le w (content d) behind (omega (arith, size, part)))
                ∙ ap (drop w) (sym snoc)),
    )
