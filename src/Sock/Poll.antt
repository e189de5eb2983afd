-- ===== src/Sock/Poll.antt =====
-- supp_src/lib_poll.c: `poll` by means of `select`.
-- A set of descriptors is a function; a descriptor that is negative or not less than `fd_setsize` is
-- outside its memory. `none` is an access there.
pub mod Sets
pub mod Laws
use cosimus.Base.{
  ℕ, zero, suc, ◌+◌, ◌-◌, ◌<◌, ◌≤◌, ◌≡◌, refl, sym, ap, ap₂, subst, ◌∙◌, Bool-cases, inl, inr, Bool,
  true, false, not, Option, none, some, bit_and, bit_or, ltb, lt→ltb, ◌==◌, ==_iff, if◌then◌else◌,
  ◌>>=◌, arith, ℤ, pos, negsuc,
}
use cosimus.Sock.{Pollfd, pollin, pollout}

abbrev pub fd_setsize : ℕ
fd_setsize = 1024

-- `FD_SET(fd, &set)`
unfoldable pub fd_set : ℤ → (ℕ → Bool) → Option (ℕ → Bool)
fd_set (pos n) s = if ltb n fd_setsize then some (λ k. if k == n then true else s k) else none
fd_set (negsuc n) s = none

-- `FD_ISSET(fd, &set)`
unfoldable pub fd_isset : ℤ → (ℕ → Bool) → Option Bool
fd_isset (pos n) s = if ltb n fd_setsize then some (s n) else none
fd_isset (negsuc n) s = none

pub record FdSets : Type 0 where
  pub readfds : ℕ → Bool
  pub writefds : ℕ → Bool
  pub exceptfds : ℕ → Bool
  pub maxfd : ℕ

abbrev pub no_fds : FdSets
no_fds = record { readfds = λ k. false; writefds = λ k. false; exceptfds = λ k. false; maxfd = 0 }

abbrev pub above : ℤ → ℕ → ℕ
above (pos n) maxfd = if ltb maxfd (n + 1) then n + 1 else maxfd
above (negsuc n) maxfd = maxfd

-- The body of the first loop.
unfoldable pub add_fd : Pollfd → FdSets → Option FdSets
add_fd u s = do
  r ← (if bit_and u.events pollin == 0 then some s.readfds else fd_set u.fd s.readfds)
  w ← (if bit_and u.events pollout == 0 then some s.writefds else fd_set u.fd s.writefds)
  x ← fd_set u.fd s.exceptfds
  some (record { readfds = r; writefds = w; exceptfds = x; maxfd = above u.fd s.maxfd })

-- The first loop, with the indices that are left.
unfoldable pub add_rounds : ℕ → ℕ → (ℕ → Pollfd) → FdSets → Option FdSets
add_rounds zero i ufds s = some s
add_rounds (suc left) i ufds s = add_fd (ufds i) s >>= add_rounds left (suc i) ufds

-- `POLLIN`, `POLLOUT` and `POLLHUP | POLLERR`.
abbrev pub events_of : Bool → Bool → Bool → ℕ
events_of r w x =
    bit_or (bit_or (if r then pollin else 0) (if w then pollout else 0)) (if x then 24 else 0)

-- The body of the second loop.
unfoldable pub happened : Pollfd → FdSets → Option Pollfd
happened u s = do
  r ← fd_isset u.fd s.readfds
  w ← fd_isset u.fd s.writefds
  x ← fd_isset u.fd s.exceptfds
  some (record u { revents = events_of r w x })

unfoldable pub read_rounds : ℕ → ℕ → FdSets → (ℕ → Pollfd) → Option (ℕ → Pollfd)
read_rounds zero i s ufds = some ufds
read_rounds (suc left) i s ufds =
    happened (ufds i) s >>= λ u. read_rounds left (suc i) s (λ j. if j == i then u else ufds j)

-- `poll(ufds, nfds, timeout)`: `select` gets the sets and answers a number and sets.
unfoldable pub poll : (FdSets → ℤ × FdSets) → ℕ → (ℕ → Pollfd) → Option (ℤ × (ℕ → Pollfd))
poll select nfds ufds = add_rounds nfds 0 ufds no_fds >>= λ s.
    read_rounds nfds 0 (select s).1 ufds >>= λ ufds'. some ((select s).0, ufds')
