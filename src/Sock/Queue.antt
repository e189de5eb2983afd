-- ===== src/Sock/Queue.antt =====
-- The buffers that wait for transmission in supp_src/lib_sock.c, as one stream of bytes.
pub mod Out
pub mod Pollout
pub mod Add
pub mod Drain
use cosimus.Base.{
  ℕ, zero, suc, ◌+◌, ◌-◌, ◌<◌, ◌≤◌, ◌≡◌, ◌≢◌, refl, sym, ap, ◌∙◌, ◌⊎◌, inl, inr, Bool, true, false,
  Option, none, some, List, [], ◌∷◌, ◌++◌, append_assoc, append-nil, length, take, drop, peek_all,
  peek_all-drop, drop-take, All, ℤ, pos, ltb, leb, lt→ltb, ◌==◌, if◌then◌else◌, ◌>>=◌, arith,
  Bool-cases, not, ◌&&◌, bit_and,
}
use cosimus.Dbuf.{Dbuf}
use cosimus.Dbuf.Grow.{IsDbuf, content}
use cosimus.Dbuf.Store.{Dbufs, put, put_here, put_there}
use cosimus.LinkedList.Seg.{Cells, IsList, first_or, Seg-first}
use cosimus.LinkedList.Find.{last_datum}
use cosimus.Sock.{Conndata, Pollfd, Socks, max_fds, conn_at, set_conn, set_poll}
use cosimus.Sock.Send.{offered, stop_pollout}

-- The buffer at `p` is valid and locked.
abbrev pub Held : Dbufs → ℕ → Type 0
Held s p = (d : Dbuf) × (s p ≡ some d) × IsDbuf d × (0 < d.lock) × (p ≢ 0)

abbrev pub AllHeld : Dbufs → Cells → Type 0
AllHeld s [] = Unit
AllHeld s ((q, p) ∷ xs) = Held s p × AllHeld s xs

-- The buffer at `p` is none of those in the list.
abbrev pub NotIn : ℕ → Cells → Type 0
NotIn p [] = Unit
NotIn p ((q, r) ∷ xs) = (r ≢ p) × NotIn p xs

abbrev pub content_of : Option Dbuf → List ℕ
content_of none = []
content_of (some d) = content d

-- The bytes of the list: the last buffer goes first.
abbrev pub payload : Dbufs → Cells → List ℕ
payload s [] = []
payload s ((q, p) ∷ xs) = payload s xs ++ content_of (s p)

pub payload_snoc :
    (s : Dbufs) (xs : Cells) (q p : ℕ)
    → payload s (xs ++ (q, p) ∷ []) ≡ content_of (s p) ++ payload s xs
payload_snoc s [] q p = sym (append-nil (content_of (s p)))
payload_snoc s ((r, o) ∷ xs) q p =
    ap (λ t. t ++ content_of (s o)) (payload_snoc s xs q p)
    ∙ append_assoc (content_of (s p)) (payload s xs) (content_of (s o))

-- A change of another buffer.
pub payload-put :
    (s : Dbufs) (p : ℕ) (c : Option Dbuf) (xs : Cells)
    → NotIn p xs
    → payload (put p c s) xs ≡ payload s xs
payload-put s p c [] out = refl
payload-put s p c ((q, r) ∷ xs) out = rw (payload-put s p c xs out.1, put_there p r c s out.0) refl

pub AllHeld-put :
    (s : Dbufs) (p : ℕ) (c : Option Dbuf) (xs : Cells)
    → NotIn p xs
    → AllHeld s xs
    → AllHeld (put p c s) xs
AllHeld-put s p c [] out held = tt
AllHeld-put s p c ((q, r) ∷ xs) out ((d, at, v, locked, ne), rest) =
    ((d, put_there p r c s out.0 ∙ at, v, locked, ne), AllHeld-put s p c xs out.1 rest)

pub AllHeld-split : (s : Dbufs) (xs ys : Cells) → AllHeld s (xs ++ ys) → AllHeld s xs × AllHeld s ys
AllHeld-split s [] ys h = (tt, h)
AllHeld-split s (x ∷ xs) ys h = let (a, b) = AllHeld-split s xs ys h.1 in ((h.0, a), b)

pub last_datum_snoc : (e q p : ℕ) (xs : Cells) → last_datum e (xs ++ (q, p) ∷ []) ≡ p
last_datum_snoc e q p [] = refl
last_datum_snoc e q p ((r, o) ∷ xs) = last_datum_snoc o q p xs

-- The list of index `i` is `xs`, of the buffers that it holds, and `w` bytes of the last one are gone.
pub record IsQueue (st : Socks) (i : ℕ) (xs : Cells) (w : ℕ) : Type 0 where
  pub inside : i < max_fds
  pub linked : IsList st.heap (st.cdata i).xmit_list xs
  pub held : AllHeld st.dbufs xs
  pub written : (st.cdata i).written ≡ pos w

-- What is still to be sent.
abbrev pub remaining : Socks → Cells → ℕ → List ℕ
remaining st xs w = drop w (payload st.dbufs xs)

pub conn_at-run : (i : ℕ) (st : Socks) → i < max_fds → conn_at i st ≡ some (st.cdata i)
unfolding conn_at
conn_at-run i st h = rw (lt→ltb i max_fds h) refl

-- The connection at index `i` after assignments.
abbrev pub assign : (Conndata → Conndata) → ℕ → Socks → Socks
assign f i st = record st { cdata = λ j. if j == i then f (st.cdata j) else st.cdata j }

pub set_conn-run :
    (f : Conndata → Conndata) (i : ℕ) (st : Socks)
    → i < max_fds
    → set_conn f i st ≡ some (assign f i st)
unfolding set_conn
set_conn-run f i st h = rw (lt→ltb i max_fds h) refl

pub offered-run :
    (d : Dbuf) (z : ℤ) (w : ℕ)
    → IsDbuf d
    → z ≡ pos w
    → w ≤ d.dsize
    → offered d z ≡ some (drop w (content d))
unfolding offered
offered-run d z w v e h =
    let fits : leb w d.dsize ≡ true = ground arith in
    ap (offered d) e
    ∙ rw fits (
        peek_all-drop d.buf w (d.dsize - w) (omega (arith, v.sized, v.fits))
        ∙ ap some (sym (drop-take w d.dsize d.buf)))

-- `stop_pollout` changes the events at most.
pub stop_pollout-run :
    (i : ℕ) (st : Socks)
    → i < max_fds
    → (u : ℕ → Pollfd) × (stop_pollout i st ≡ some (record st { ufds = u }))
unfolding stop_pollout set_poll
stop_pollout-run i st h =
    let c = st.cdata i in
    elim (Bool-cases (c.xmit_list == 0 && not c.do_ssl)) [
      | inl stops ↦ (
        (λ j.
            if j == i
            then record (st.ufds j) { events = bit_and (st.ufds j).events 65531 }
            else st.ufds j),
        rw (conn_at-run i st h, stops, lt→ltb i max_fds h) refl,
      )
      | inr goes_on ↦ (st.ufds, rw (conn_at-run i st h, goes_on) refl)
    ]
