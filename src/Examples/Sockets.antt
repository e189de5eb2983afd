-- ===== src/Examples/Sockets.antt =====
-- Tests: sockets at concrete states.
use cosimus.Base.{
  ℕ, ◌≤◌, ◌≢◌, ◌+◌, ◌≡◌, refl, true, false, none, some, [], ◌∷◌, ◌++◌, take, drop, ◌==◌,
  if◌then◌else◌, arith, ℤ, pos, negsuc, ◌+ℤ◌, bit_or,
}
use cosimus.Dbuf.Grow.{content}
use cosimus.Dbuf.Store.{Dbufs}
use cosimus.LinkedList.{Heap}
use cosimus.LinkedList.Seg.{Cells, item, IsList, nil, cons}
use cosimus.Sock.{
  Pollfd, Host, Socks, Conndata, blank_conn, max_fds, dsend, no_socket, no_host, in_progress,
  pollout, ssl_other,
}
use cosimus.Sock.Close.{close_idx}
use cosimus.Sock.Send.{sock_send_data}
use cosimus.Sock.Events.{sock_connected_pollout, sock_tcp_listener_pollin}
use cosimus.Sock.Cycle.{sock_remove_closed_fds, sock_one_cycle}
use cosimus.Sock.Queue.{IsQueue, remaining}
use cosimus.Sock.Queue.Out.{Advances}
use cosimus.Sock.Queue.Pollout.{pollout-Advances, pollout_error}
use cosimus.Sock.Queue.Add.{dsend-IsQueue}
use cosimus.Sock.Queue.Drain.{IsWaiting, emptied, close_idx-empty}
use cosimus.Sock.Index.{initiate_connect, sock_get_free_index}
use cosimus.Sock.Free.{initiate_connect-bounded, sock_get_free_index_lem, FirstClosed, NoneClosed}
use cosimus.Base.{◌⊎◌, ◌-◌}
use cosimus.Sock.Poll.{FdSets, poll}
use cosimus.Sock.Poll.Sets.{Asked}
use cosimus.Sock.Poll.Laws.{answered, poll_lem, poll_closed}
use cosimus.Sock.Limits.{remove_closed_keeps, listener_overflow, refused, hushed}
use cosimus.Sock.{conn_at}
use cosimus.Sock.Cycle.{cycle_rounds}
use cosimus.Examples.{two_bytes, two_bytes-IsDbuf}

-- A system whose `send` answers `n`.
abbrev system : ℤ → Host
system n = record {
  malloc = λ h. some (64, item 1 2 3);
  buffer = λ st n. none;
  send = λ st i bytes. n;
  receive = λ st i n. none;
  sender = λ st i. (0, 0);
  on_read = λ f i p st. some (pos 1, st);
  on_event = λ f i st. some st;
  on_newconn = λ f i p st. some st;
  ssl_new = λ st. 0;
  ssl_set_fd = λ st i. false;
  ssl_handshake = λ st i b. negsuc 0;
  ssl_get_error = λ st i n. ssl_other;
  accept = λ st i. pos 9;
  so_error = λ st i. 0;
  new_socket = λ st. none;
  bind = λ st i. false;
  connect = λ st. no_socket;
  poll = λ st. some (λ i. 0);
  rounds = 5;
}

-- One connection, at index 0, which waits to send the buffer at 5.
abbrev one_item : Heap
one_item a = if a == 16 then some (item 0 16 5) else none

abbrev queue : Cells
queue = (16, 5) ∷ []

abbrev two_buffers : Dbufs
two_buffers a = if a == 5 then some two_bytes else (if a == 6 then some two_bytes else none)

abbrev client : Conndata
client = record blank_conn { xmit_list = 16; connected = true; inbound = true }

abbrev waiting : Socks
waiting = record {
  ufds = λ j. record { fd = pos 5; events = 1; revents = 0 };
  cdata = λ j. client;
  nfds = 1;
  nclients = pos 0;
  nconnections = 1;
  biggest_udp_idx = 0;
  heap = one_item;
  dbufs = two_buffers;
  sent = λ j. 1 ∷ [];
}

queue-IsList : IsList one_item 16 queue
queue-IsList = record { at = refl; linked = cons refl (omega arith) tt nil }

waiting-IsQueue : IsQueue waiting 0 queue 0
waiting-IsQueue = record {
  inside = omega arith;
  linked = queue-IsList;
  held = ((two_bytes, refl, two_bytes-IsDbuf, omega arith, omega arith), tt);
  written = refl;
}

waiting-IsWaiting : IsWaiting waiting 0 queue
waiting-IsWaiting = record {
  inside = omega arith;
  linked = queue-IsList;
  held = ((two_bytes, refl, two_bytes-IsDbuf, omega arith, omega arith), tt);
  distinct = (tt, tt);
}

pollout_example :
    Advances
      (sock_connected_pollout (system (pos 1)) 0 waiting)
      waiting
      0
      queue
      0
      (take 1 (drop 0 (content two_bytes)))
pollout_example =
    pollout-Advances (system (pos 1)) 0 waiting [] 16 5 0 1 two_bytes waiting-IsQueue refl tt
      (omega arith) refl refl refl (omega arith)

pollout_error_example :
    (st' : Socks) × (sock_connected_pollout (system (negsuc 0)) 0 waiting ≡ some st')
    × ((st'.cdata 0).written ≡ negsuc 0)
    × (sock_send_data (system (negsuc 0)) 0 two_bytes st' ≡ none)
    × (sock_connected_pollout (system (negsuc 0)) 0 st' ≡ none)
pollout_error_example =
    pollout_error (system (negsuc 0)) 0 waiting [] 16 5 0 two_bytes waiting-IsQueue refl
      (omega arith) refl refl refl

dsend_example :
    (st' : Socks) × (dsend (system (pos 1)) 0 6 waiting ≡ some st')
    × IsQueue st' 0 ((64, 6) ∷ queue) 0
    × (remaining st' ((64, 6) ∷ queue) 0 ≡ remaining waiting queue 0 ++ content two_bytes)
    × (st'.sent ≡ waiting.sent)
    × ((st'.ufds 0).events ≡ bit_or (waiting.ufds 0).events pollout)
dsend_example =
    dsend-IsQueue (system (pos 1)) 0 waiting queue 6 0 two_bytes 64 (item 1 2 3) waiting-IsQueue
      (omega arith) refl two_bytes-IsDbuf (omega arith) ((omega arith), tt) refl refl (omega arith)

close_idx_example :
    (st' : Socks) × (close_idx (system (pos 1)) 0 waiting ≡ some st')
    × (st'.cdata 0 ≡ emptied (waiting.cdata 0))
    × ((st'.ufds 0).fd ≡ negsuc 0)
    × (st'.nclients
        ≡ (if (waiting.cdata 0).inbound then waiting.nclients +ℤ negsuc 0 else waiting.nclients))
close_idx_example =
    close_idx-empty (system (pos 1)) 0 waiting queue waiting-IsWaiting (omega arith) refl refl refl

remove_closed_example :
    (st' : Socks) × (sock_remove_closed_fds waiting ≡ some st') × (st'.nfds ≡ waiting.nfds)
remove_closed_example = remove_closed_keeps waiting (omega arith)

abbrev full : Socks
full = record waiting { nfds = 10000 }

listener_overflow_example :
    (sock_tcp_listener_pollin (system (pos 1)) 3 full ≡ some (refused 3 full))
    × ((st' : Socks) × (cycle_rounds (system (pos 1)) max_fds 0 (0, hushed (refused 3 full))
          ≡ some (0, st'))
        × (conn_at max_fds st' ≡ none))
    × (sock_one_cycle (system (pos 1)) (refused 3 full) ≡ none)
listener_overflow_example =
    listener_overflow (system (pos 1)) 3 full (omega arith) refl (λ j h. refl) (λ s. refl)

abbrev connecting : Host
connecting = record (system (pos 1)) { connect = λ st. in_progress 7 }

differs : in_progress 7 ≢ no_host
differs e = absurd cc

initiate_connect_example :
    (ret : ℤ) × (st' : Socks) × (initiate_connect connecting waiting ≡ some (ret, st'))
    × (st'.nfds ≤ max_fds)
initiate_connect_example = initiate_connect-bounded connecting waiting (omega arith) differs

-- `select` answers what it was asked.
abbrev echo : FdSets → ℤ × FdSets
echo s = (pos 1, s)

poll_example :
    (s : FdSets) × (u' : ℕ → Pollfd) × Asked 1 waiting.ufds s
    × (poll echo 1 waiting.ufds ≡ some ((echo s).0, u'))
    × (u' 0 ≡ record (waiting.ufds 0) { revents = answered (echo s).1 5 })
poll_example =
    poll_lem echo 1 0 5 waiting.ufds (λ k h. record { number = 5; fd = refl; small = omega arith })
      (omega arith) refl

abbrev one_closed : ℕ → Pollfd
one_closed j = record { fd = if j == 1 then negsuc 0 else pos 5; events = 1; revents = 0 }

poll_closed_example : poll echo 2 one_closed ≡ none
poll_closed_example = poll_closed echo 2 1 0 one_closed (omega arith) refl

free_index_example :
    (i : ℕ) × (st' : Socks) × (sock_get_free_index 0 waiting ≡ some (i, st'))
    × ((FirstClosed waiting 0 (1 - 0) (some i) × (st' ≡ waiting))
        ⊎ (NoneClosed waiting 0 (1 - 0) × (i ≡ 1) × (st' ≡ record waiting { nfds = 1 + 1 })))
free_index_example = sock_get_free_index_lem 0 waiting (omega arith) (omega arith)
