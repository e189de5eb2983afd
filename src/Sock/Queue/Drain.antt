-- ===== src/Sock/Queue/Drain.antt =====
-- Closing a socket of supp_src/lib_sock.c gives up what was still to be sent.
use cosimus.Base.{
  ℕ, zero, suc, ◌<◌, ◌≡◌, ◌≢◌, refl, sym, ap, ◌∙◌, inl, inr, Bool, true, false, some, [], ◌∷◌, ◌++◌,
  length, length-append, lt→ltb, ◌==◌, if◌then◌else◌, arith, negsuc, ◌+ℤ◌, Bool-cases,
}
use cosimus.Dbuf.Store.{put, unlock_at, unlock_at-run}
use cosimus.LinkedList.{rpop}
use cosimus.LinkedList.Seg.{Cells, IsList, first_or, Cells-cases}
use cosimus.LinkedList.Push.{not_null}
use cosimus.LinkedList.Pop.Back.{rpop_lem}
use cosimus.Sock.{Conndata, Pollfd, Socks, Host, max_fds, set_poll, with_xmit, with_unlock}
use cosimus.Sock.Close.{drain_rounds, free_ssl, call_event, ev_closed, close_idx}
use cosimus.Sock.Queue.{
  AllHeld, NotIn, AllHeld-put, AllHeld-split, conn_at-run, assign, set_conn-run,
}

-- No buffer is in the list twice.
abbrev pub AllDistinct : Cells → Type 0
AllDistinct [] = Unit
AllDistinct ((q, p) ∷ xs) = NotIn p xs × AllDistinct xs

NotIn-split : (r : ℕ) (xs : Cells) (q p : ℕ) → NotIn r (xs ++ (q, p) ∷ []) → NotIn r xs × (p ≢ r)
NotIn-split r [] q p out = (tt, out.0)
NotIn-split r ((a, o) ∷ xs) q p out =
    let (rest, last) = NotIn-split r xs q p out.1 in ((out.0, rest), last)

AllDistinct-split :
    (xs : Cells) (q p : ℕ) → AllDistinct (xs ++ (q, p) ∷ []) → NotIn p xs × AllDistinct xs
AllDistinct-split [] q p d = (tt, tt)
AllDistinct-split ((a, o) ∷ xs) q p d =
    let (out, rest) = AllDistinct-split xs q p d.1 in
    let (before, last) = NotIn-split o xs q p d.0 in (((λ e. last (sym e)), out), (before, rest))

abbrev pub emptied : Conndata → Conndata
emptied c = record c { xmit_list = 0 }

-- The list of index `i`, with nothing said of the bytes that are gone.
pub record IsWaiting (st : Socks) (i : ℕ) (xs : Cells) : Type 0 where
  pub inside : i < max_fds
  pub linked : IsList st.heap (st.cdata i).xmit_list xs
  pub held : AllHeld st.dbufs xs
  pub distinct : AllDistinct xs

drain_end :
    (fuel i : ℕ) (st : Socks)
    → i < max_fds
    → IsList st.heap (st.cdata i).xmit_list []
    → (st' : Socks) × (drain_rounds (suc fuel) i st ≡ some st')
      × (st'.cdata i ≡ emptied (st.cdata i))
      × (st'.nclients ≡ st.nclients)
unfolding drain_rounds with_xmit rpop
drain_end fuel i st inside linked =
    let here : (i == i) ≡ true = ground arith in
    let none_left : ((st.cdata i).xmit_list == 0) ≡ true = ap (λ k. k == 0) linked.at in
    (
      assign (λ c. record c { xmit_list = (st.cdata i).xmit_list }) i
          (record st { heap = st.heap }),
      rw
          (
            conn_at-run i st inside,
            none_left,
            set_conn-run (λ c. record c { xmit_list = (st.cdata i).xmit_list }) i
                (record st { heap = st.heap }) inside,
          )
          refl,
      rw here (ap (λ k. record (st.cdata i) { xmit_list = k }) linked.at),
      refl,
    )

drain_step :
    (fuel i : ℕ) (st : Socks) (ys : Cells) (q p : ℕ)
    → IsWaiting st i (ys ++ (q, p) ∷ [])
    → (st1 : Socks) × (drain_rounds (suc fuel) i st ≡ drain_rounds fuel i st1)
      × IsWaiting st1 i ys
      × (st1.cdata i ≡ record (st.cdata i) { xmit_list = first_or 0 ys })
      × (emptied (st1.cdata i) ≡ emptied (st.cdata i))
      × (st1.nclients ≡ st.nclients)
unfolding drain_rounds with_xmit with_unlock
drain_step fuel i st ys q p v =
    let (held, ((d, at, valid, locked, nonnull), rest)) =
      AllHeld-split st.dbufs ys ((q, p) ∷ []) v.held in
    let (out, distinct) = AllDistinct-split ys q p v.distinct in
    let (h, popped, list, freed, spared) = rpop_lem ys q p v.linked in
    let (c, unlocked) = unlock_at-run p st.dbufs d nonnull at valid locked in
    let head = λ (c : Conndata). record c { xmit_list = first_or 0 ys } in
    let st0 = assign head i (record st { heap = h }) in
    let st1 = record st0 { dbufs = put p c st.dbufs } in
    let here : (i == i) ≡ true = ground arith in
    (
      st1,
      rw
          (
            conn_at-run i st v.inside,
            popped,
            set_conn-run head i (record st { heap = h }) v.inside,
            unlocked,
            not_null p nonnull,
          )
          refl,
      record {
        inside = v.inside;
        linked = rw here list;
        held = AllHeld-put st.dbufs p c ys out held;
        distinct = distinct;
      },
      rw here refl,
      rw here refl,
      refl,
    )

-- The loop of `ev_closed` ends when no buffer is left.
pub drain-run :
    (fuel i : ℕ) (st : Socks) (xs : Cells)
    → IsWaiting st i xs
    → length xs < fuel
    → (st' : Socks) × (drain_rounds fuel i st ≡ some st')
      × (st'.cdata i ≡ emptied (st.cdata i))
      × (st'.nclients ≡ st.nclients)
drain-run zero i st xs v enough = absurd (omega arith)
drain-run (suc fuel) i st xs v enough = elim (Cells-cases xs) [
  | inl e ↦ drain_end fuel i st v.inside (rw e at v.linked)
  | inr (ys, (q, p), e) ↦
      let (st1, ran, w, kept, short, count) = drain_step fuel i st ys q p (rw e at v) in
      let (st', rest, empty, same) =
        drain-run fuel i st1 ys w
          (omega (arith, enough, ap length e, length-append ys ((q, p) ∷ []))) in
      (st', ran ∙ rest, empty ∙ short, same ∙ count)
]

if_either : (P : Socks → Type 0) (b : Bool) (x y : Socks) → P x → P y → P (if b then x else y)
if_either P true x y h k = h
if_either P false x y h k = k

-- `close_idx` of a socket without handler, SSL and application data, on which fewer buffers wait than
-- the rounds allowed, all of them valid, locked and queued once, ends; no buffer is left in its list, its descriptor is closed, and the number of
-- clients is one less if the connection was inbound.
pub close_idx-empty :
    (host : Host) (i : ℕ) (st : Socks) (xs : Cells)
    → IsWaiting st i xs
    → length xs < host.rounds
    → (st.cdata i).is_ssl ≡ false
    → (st.cdata i).handlers.ev_closed ≡ 0
    → (st.cdata i).appdata ≡ 0
    → (st' : Socks) × (close_idx host i st ≡ some st')
      × (st'.cdata i ≡ emptied (st.cdata i))
      × ((st'.ufds i).fd ≡ negsuc 0)
      × (st'.nclients ≡ (if (st.cdata i).inbound then st.nclients +ℤ negsuc 0 else st.nclients))
unfolding close_idx ev_closed free_ssl call_event with_unlock set_poll unlock_at
close_idx-empty host i st xs v enough plain quiet bare =
    let (st1, ran, empty, same) = drain-run host.rounds i st xs v enough in
    let no_handler : ((st1.cdata i).handlers.ev_closed == 0) ≡ true =
      ap (λ c. c.handlers.ev_closed == 0) empty ∙ ap (λ k. k == 0) quiet in
    let no_data : ((st1.cdata i).appdata == 0) ≡ true =
      ap (λ c. c.appdata == 0) empty ∙ ap (λ k. k == 0) bare in
    let inbound : (st1.cdata i).inbound ≡ (st.cdata i).inbound = ap (λ c. c.inbound) empty in
    let left =
      if (st.cdata i).inbound then record st1 { nclients = st1.nclients +ℤ negsuc 0 } else st1 in
    let shut = λ (u : Pollfd). record u { fd = negsuc 0 } in
    let here : (i == i) ≡ true = ground arith in
    (
      record left { ufds = λ j. if j == i then shut (left.ufds j) else left.ufds j },
      rw
          (
            conn_at-run i st v.inside,
            plain,
            ran,
            conn_at-run i st1 v.inside,
            no_handler,
            conn_at-run i st1 v.inside,
            no_data,
            conn_at-run i st1 v.inside,
            inbound,
            lt→ltb i max_fds v.inside,
          )
          refl,
      if_either (λ s. s.cdata i ≡ emptied (st.cdata i)) (st.cdata i).inbound
          (record st1 { nclients = st1.nclients +ℤ negsuc 0 }) st1 empty empty,
      rw here refl,
      elim (Bool-cases (st.cdata i).inbound) [
        | inl e ↦ rw e (ap (λ z. z +ℤ negsuc 0) same)
        | inr e ↦ rw e same
      ],
    )
