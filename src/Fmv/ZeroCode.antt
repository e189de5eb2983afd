-- ===== src/Fmv/ZeroCode.antt =====
-- The zero coding of fmv_src/sta_fmv.c: a run of zero bytes behind the six bytes of the header goes
-- as a zero and the length of the run. `none` is an access outside a block, or through a pointer to
-- a block that `realloc` has taken away.
pub mod RunLength
pub mod Emit
pub mod Encode
pub mod Packet
pub mod Decode
pub mod Unpack
pub mod Moved
pub mod RoundTrip
use cosimus.Base.{
  ℕ, zero, suc, ◌+◌, ◌-◌, ◌*◌, Bool, true, false, Option, none, some, List, [], ◌∷◌, u8, peek, poke,
  poke_all, peek_all, ltb, ◌==◌, if◌then◌else◌, ◌>>=◌,
}
use cosimus.Dbuf.{Block, Dbuf, dalloc}
use cosimus.Dbuf.Grow.{dgrow}
use cosimus.Dbuf.Lock.{dlock}
use cosimus.Fmv.Header.{has_acks, is_zero_coded}

-- `dest` and `zerolen`.
pub record Output : Type 0 where
  pub dest : List ℕ
  pub zerolen : ℕ

-- `dest[zerolen++] = b`
unfoldable pub emit : ℕ → Output → Option Output
emit b o = poke o.dest o.zerolen b >>= λ m. some (record { dest = m; zerolen = o.zerolen + 1 })

-- `if(zerocount != 0) { dest[zerolen++] = 0x00; dest[zerolen++] = (unsigned char)zerocount; }`
unfoldable pub flush : ℕ → Output → Option Output
flush zerocount o = if zerocount == 0 then some o else (emit 0 o >>= emit zerocount)

-- One round of the encoder's loop on the byte `b`; `zerocount` is an unsigned char.
unfoldable pub encode_byte : ℕ → ℕ → Output → Option (ℕ × Output)
encode_byte b zerocount o =
    if b == 0
    then (let counted = u8 (zerocount + 1) in
        if counted == 0
        then (emit 0 o >>= emit 0xff >>= λ o'. some (u8 (counted + 1), o'))
        else some (counted, o))
    else (flush zerocount o >>= emit b >>= λ o'. some (0, o'))

-- `for(i = zerolen; i < bodylen; i++)`, with the rounds that are left.
unfoldable pub encode_loop : ℕ → ℕ → List ℕ → ℕ → Output → Option (ℕ × Output)
encode_loop zero i src zerocount o = some (zerocount, o)
encode_loop (suc left) i src zerocount o =
    peek src i >>= λ b. encode_byte b zerocount o >>= λ (z, o'). encode_loop left (suc i) src z o'

-- `for(; i < srclen; i++) dest[zerolen++] = src[i]`, with the rounds that are left.
unfoldable pub copy_loop : ℕ → ℕ → List ℕ → Output → Option Output
copy_loop zero i src o = some o
copy_loop (suc left) i src o = peek src i >>= λ b. emit b o >>= copy_loop left (suc i) src

-- `src[srclen - 1]`
unfoldable pub last_byte : List ℕ → ℕ → Option ℕ
last_byte src zero = none
last_byte src (suc n) = peek src n

-- The bytes before the appended acknowledgements. It is only compared with positions from 6 on, so
-- that a negative length counts as 0.
unfoldable pub body_length : List ℕ → ℕ → Option ℕ
body_length src srclen = has_acks src >>= λ acks.
    if acks then (last_byte src srclen >>= λ n. some (srclen - (n * 4 + 1))) else some srclen

-- The work of `ZeroEncodePacket` in a block of `srclen` bytes; the result's `zerolen` is the new
-- packet's data size.
unfoldable pub encode_into : List ℕ → ℕ → List ℕ → Option Output
encode_into src srclen block = do
  header ← peek_all src 0 6
  dest ← poke_all block 0 header
  bodylen ← body_length src srclen
  (z, o) ← encode_loop (bodylen - 6) 6 src 0 (record { dest = dest; zerolen = 6 })
  o' ← flush z o
  copy_loop (srclen - (6 + (bodylen - 6))) (6 + (bodylen - 6)) src o'

-- What is done with the new buffer.
unfoldable pub encode_dbuf : Dbuf → Option Dbuf → Option (Option Dbuf)
encode_dbuf d none = some none
encode_dbuf d (some d1) = encode_into d.buf d.dsize d1.buf >>= λ o.
    some (some (record d1 { buf = o.dest; dsize = o.zerolen }))

-- `ZeroEncodePacket(d)`; `mem` and `header` answer the allocation.
unfoldable pub zero_encode_packet : Option Block → Bool → Dbuf → Option (Option Dbuf)
zero_encode_packet mem header d = dalloc mem header d.dsize >>= encode_dbuf d

-- What `realloc` answers to a request for a larger block for a buffer.
abbrev pub Realloc : Type 0
Realloc = Dbuf → ℕ → Option Block

-- `if(!dgrow(d, 1024)) { assert(0 == "DGrow failed"); }`
unfoldable pub must_grow : Bool × Dbuf → Option Dbuf
must_grow (true, d) = some d
must_grow (false, d) = none

-- `checkspace(d, size)`
unfoldable pub checkspace : Realloc → Dbuf → ℕ → Option Dbuf
unfolding must_grow
checkspace realloc d size =
    if ltb d.size (size + 10)
    then (dgrow (realloc d (d.size + 1024)) d 1024 >>= must_grow)
    else some d

-- `d1` and `zerolen`.
pub record Unpacked : Type 0 where
  pub out : Dbuf
  pub zerolen : ℕ

-- `dest[zerolen++] = b; checkspace(d1, zerolen);` where `dest` is the address that `d1->buf` had at
-- the start.
unfoldable pub put : Realloc → ℕ → ℕ → Unpacked → Option Unpacked
put realloc dest b u =
    if u.out.addr == dest
    then (poke u.out.buf u.zerolen b >>= λ m.
        checkspace realloc (record u.out { buf = m }) (u.zerolen + 1) >>= λ d.
        some (record { out = d; zerolen = u.zerolen + 1 }))
    else none

-- `for (j = 0; j < n; j++)`
unfoldable pub put_zeros : Realloc → ℕ → ℕ → Unpacked → Option Unpacked
put_zeros realloc dest zero u = some u
put_zeros realloc dest (suc n) u = put realloc dest 0 u >>= put_zeros realloc dest n

-- One round of the decoder's loop at `i`, and whether it moves `i` on by itself.
unfoldable pub decode_byte : Realloc → ℕ → List ℕ → ℕ → Unpacked → Option (Bool × Unpacked)
decode_byte realloc dest src i u = peek src i >>= λ b.
    if b == 0
    then (peek src (suc i) >>= λ n. put_zeros realloc dest n u >>= λ u'. some (true, u'))
    else (put realloc dest b u >>= λ u'. some (false, u'))

-- `for (i = zerolen; i < bodylen; i++)`, with the positions that are left. `true` says that the last
-- round has moved past this one.
unfoldable pub decode_loop : Realloc → ℕ → List ℕ → ℕ → ℕ → Bool × Unpacked → Option Unpacked
decode_loop realloc dest src zero i (skip, u) = some u
decode_loop realloc dest src (suc left) i (true, u) =
    decode_loop realloc dest src left (suc i) (false, u)
decode_loop realloc dest src (suc left) i (false, u) =
    decode_byte realloc dest src i u >>= decode_loop realloc dest src left (suc i)

-- The work of `ZeroDecodePacket` in the new buffer. `bodylen` is the whole length, so that nothing
-- is left for the loop that copies acknowledgements.
unfoldable pub decode_dbuf : Realloc → Dbuf → Option Dbuf → Option (Option Dbuf)
decode_dbuf realloc d none = some none
decode_dbuf realloc d (some d1) = do
  header ← peek_all d.buf 0 6
  dest ← poke_all d1.buf 0 header
  u ←
      decode_loop realloc d1.addr d.buf (d.dsize - 6) 6
        (false, record { out = record d1 { buf = dest }; zerolen = 6 })
  some (some (record u.out { dsize = u.zerolen }))

-- `PacketNew()`
unfoldable pub packet_new : Option Block → Bool → Option (Option Dbuf)
packet_new mem header = dalloc mem header 3000

-- `ZeroDecodePacket(d)`
unfoldable pub zero_decode_packet : Option Block → Bool → Realloc → Dbuf → Option (Option Dbuf)
zero_decode_packet mem header realloc d = dalloc mem header 3000 >>= decode_dbuf realloc d

-- `MaybeZeroEncodePacket(d)` and `MaybeZeroDecodePacket(d)`
unfoldable pub maybe_zero_encode_packet : Option Block → Bool → Dbuf → Option (Option Dbuf)
maybe_zero_encode_packet mem header d = is_zero_coded d.buf >>= λ coded.
    if coded then zero_encode_packet mem header d else dlock (some d)

unfoldable pub maybe_zero_decode_packet :
    Option Block → Bool → Realloc → Dbuf → Option (Option Dbuf)
maybe_zero_decode_packet mem header realloc d = is_zero_coded d.buf >>= λ coded.
    if coded then zero_decode_packet mem header realloc d else dlock (some d)
