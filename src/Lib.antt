-- ===== src/Lib.antt =====
-- Data buffers, lists, hash tables, timers, packets, sockets and the HTTP server of cosimus, a
-- simulator of a virtual world.
--
-- Base holds the numbers, lists and memory that the other files share. Dbuf and the files under it
-- model supp_src/lib_dbuf.c: the buffer with its block, growth (Grow), appending (Append), scanning
-- (Scan) and the lock count (Lock). LinkedList models supp_src/lib_lists.c on a memory of items: Seg
-- says when a memory holds a list, and Push, Pop and Find are about the operations. HashTable models
-- supp_src/lib_hash.c. Fmv and the files under it model fmv_src/sta_fmv.c: the writing position
-- (Cursor), the fields of a packet (Unsigned, Signed, Floats, Vectors, Blobs, Uuid), the header
-- (Header), the acknowledgements (Acks) and zero coding (ZeroCode). Packets are held by buffers.
-- Timers models supp_src/lib_timers.c on top of LinkedList, with its array of entries (Array),
-- starting and stopping (Control) and firing (Tick); Pool, Deactivate and Grab are about the queue of
-- inactive entries, Start, Stop and Fire about the timers. BitPack models the bit writer of
-- pktsmv_src/pktsmv.c on a buffer: Stream reads the bits as a number, Write is about the writers.
-- Sock models supp_src/lib_sock.c, with the connections, lists and buffers in one state (Dbuf.Store
-- holds buffers by address): closing (Close), sending (Send), indices (Index), events (Events) and the
-- main loop (Cycle); Poll models supp_src/lib_poll.c. Queue sees the buffers that wait as one stream
-- of bytes, Free and Limits are about the number of indices. Http models supp_src/lib_httpd.c: Parse
-- finds and parses a request, Session answers it and keeps the state of the connection. The system,
-- OpenSSL, handlers, dispatchers and `atoi` are parameters.
-- Examples applies theorems to concrete values.
--
-- An operation has the name of the C function in lower case. A failed assertion and an access
-- outside a block are the result `none`. What `malloc` and `realloc` answer is an argument. Loops
-- recurse on the rounds that are left, so that nothing bounds them but the code's own conditions; only
-- these run on fuel: `lbelongs`, which follows pointers; `dpack_Nbit`, which gets more rounds than there
-- are bits; `timer_tick_processor`, which callbacks and short periods can keep going; the loop of
-- `ev_closed`, which empties a list; and the loops over the line feeds, the headers and the lines of
-- a request, which get a round more than it has bytes. For `lbelongs` and `ev_closed` more rounds
-- than the list has items are enough.
-- The hash function is a parameter, and calls of the user's functions are recorded.
--
-- The C types int and size_t are unbounded numbers here, in sizes, lengths and counts of locks;
-- that they are below 2^31 is a condition of the results on growth, on the lock count and on
-- zero-decoding, and is left to the reader elsewhere. Handlers and dispatchers of the HTTP
-- server are functions of the application data and do not change it. `strstr` is used at one place
-- at a time, and how many entries the array of timers grows by is what `realloc` answers.
--
-- Not modelled: the compression of height maps and quaternions, which are float arithmetic; loading
-- of certificates, creation of sockets, printing, logging and the Lua bindings, which are input and
-- output; the text form of identifiers; the cookies of a request, which nothing uses.
pub mod Base
pub mod Dbuf
pub mod Fmv
pub mod LinkedList
pub mod HashTable
pub mod Timers
pub mod Sock
pub mod Http
pub mod BitPack
pub mod Examples
