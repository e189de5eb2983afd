-- ===== src/Fmv/Blobs/RoundTrip.antt =====
-- The fields of bytes of fmv_src/sta_fmv.c are read back as they were written, and a field that does
-- not fit is refused.
use cosimus.Base.{
  ℕ, suc, ◌+◌, ◌*◌, ◌/◌, ◌%◌, ◌≤◌, ◌<◌, ◌≡◌, refl, sym, ap, ap₂, ◌∙◌, true, false, none, some, List,
  [], ◌∷◌, ◌++◌, u8, pos, peek_all, ltb, leb, if◌then◌else◌, length, take, take-all, length-append,
  overwrite, length-overwrite, overwrite-overwrite, peek_all-take, peek_all-overwrite_part, arith,
  inl, inr, Bool-cases,
}
use cosimus.Fmv.Cursor.{Cursor, refuse, written, back_to, put_bytes-written, byte_at, first_byte}
use cosimus.Fmv.Blobs.{
  fixed_udp, udp_fixed, put_counted, variable2_udp, variable1_udp, copy_length, get_counted,
  udp_variable2, udp_variable1,
}

leb-no : (a b : ℕ) → b < a → leb a b ≡ false
leb-no a b h = ground arith

leb-yes : (a b : ℕ) → a ≤ b → leb a b ≡ true
leb-yes a b h = ground arith

put_counted-written :
    (c : Cursor) (header val : List ℕ) (n : ℕ)
    → length val ≡ n
    → c.pos + (length header + n) ≤ length c.mem
    → put_counted c header val n ≡ some (pos 0, written c (header ++ val))
unfolding put_counted
put_counted-written c header val n len h =
    rw
      (
        put_bytes-written c header (omega arith),
        peek_all-take val n (omega (arith, len)),
        take-all n val (omega (arith, len)),
        put_bytes-written (written c header) val (rw length-overwrite (omega (arith, len))),
      )
      (ap₂ (λ m p. some (pos 0, record { mem = m; pos = p }))
        (overwrite-overwrite c.mem c.pos header val) (omega (arith, length-append header val)))

get_counted-written :
    (c : Cursor) (header val : List ℕ) (n m h : ℕ)
    → length val ≡ n
    → length header ≡ h
    → c.pos + (h + n) ≤ length c.mem
    → get_counted true (suc m) (back_to c (written c (header ++ val))) h n
      ≡ some (n, some (take m val), written c (header ++ val))
unfolding get_counted copy_length
get_counted-written c header val n m h len hlen room =
    let k = if ltb m n then m else n in
    let fewer : k ≤ length val = ground arith in
    let copied : peek_all (overwrite c.mem c.pos (header ++ val)) (c.pos + h) k
        ≡ some (take k val) =
      ap₂ (λ t i. peek_all t i k) (sym (overwrite-overwrite c.mem c.pos header val))
        (omega (arith, hlen))
      ∙ peek_all-overwrite_part (overwrite c.mem c.pos header) (c.pos + length header) k val
          (rw length-overwrite (omega (arith, len, hlen))) fewer in
    let same : take k val ≡ take m val = elim (Bool-cases (ltb m n)) [
      | inl less ↦ rw less refl
      | inr more ↦
          rw more (take-all n val (omega (arith, len)) ∙ sym (take-all m val (ground arith)))
    ] in
    rw (copied, same)
      (ap (λ p. some (n, some (take m val), record (written c (header ++ val)) { pos = p }))
        (omega (arith, length-append header val, len, hlen)))

-- `Variable2_UDP` of at most 65535 bytes that fit writes their number, low byte first, and the bytes.
-- `UDP_Variable2` returns the number, stores as many of the bytes as leave room for a zero byte, and
-- moves behind the field; for NULL it only returns the number, and does not move.
pub variable2_round_trip :
    (val : List ℕ) (n m : ℕ) (c : Cursor) (datasz : ℕ)
    → length val ≡ n
    → n ≤ 65535
    → datasz ≤ length c.mem
    → c.pos + n + 2 < datasz
    → (variable2_udp (pos n) val c datasz ≡ some (pos 0, written c (n % 256 ∷ n / 256 ∷ val)))
      × (udp_variable2 true (suc m) (back_to c (written c (n % 256 ∷ n / 256 ∷ val)))
          ≡ some (n, some (take m val), written c (n % 256 ∷ n / 256 ∷ val)))
      × (udp_variable2 false m (back_to c (written c (n % 256 ∷ n / 256 ∷ val)))
          ≡ some (n, none, back_to c (written c (n % 256 ∷ n / 256 ∷ val))))
unfolding variable2_udp udp_variable2
variable2_round_trip val n m c datasz len small room fits =
    let header = n % 256 ∷ n / 256 ∷ [] in
    let bytes = n % 256 ∷ n / 256 ∷ val in
    let at = byte_at c bytes (omega (arith, len)) in
    let number : n % 256 + n / 256 * 256 ≡ n = omega arith in
    let low : u8 (n % 256) ≡ n % 256 = omega arith in
    let high : u8 (n / 256) ≡ n / 256 = omega arith in
    (
      rw (leb-no datasz (c.pos + n + 2) fits, leb-yes n 65535 small, low, high)
          (put_counted-written c header val n len (omega arith)),
      rw (at 0 (omega arith), at 1 (omega arith), number)
          (get_counted-written c header val n m 2 len refl (omega arith)),
      rw (at 0 (omega arith), at 1 (omega arith), number) (unfold get_counted in refl),
    )

-- `Variable1_UDP` of at most 255 bytes that fit writes their number and the bytes. `UDP_Variable1`
-- returns the number, stores as many of the bytes as leave room for a zero byte, and moves behind the
-- field; for NULL it only returns the number, and does not move.
pub variable1_round_trip :
    (val : List ℕ) (n m : ℕ) (c : Cursor) (datasz : ℕ)
    → length val ≡ n
    → n ≤ 255
    → datasz ≤ length c.mem
    → c.pos + n + 1 < datasz
    → (variable1_udp (pos n) val c datasz ≡ some (pos 0, written c (n ∷ val)))
      × (udp_variable1 true (suc m) (back_to c (written c (n ∷ val)))
          ≡ some (n, some (take m val), written c (n ∷ val)))
      × (udp_variable1 false m (back_to c (written c (n ∷ val)))
          ≡ some (n, none, back_to c (written c (n ∷ val))))
unfolding variable1_udp udp_variable1
variable1_round_trip val n m c datasz len small room fits =
    let at = first_byte c (n ∷ val) (omega (arith, len)) (omega arith) in
    let byte : u8 n ≡ n = omega arith in
    (
      rw (leb-no datasz (c.pos + n + 1) fits, leb-yes n 255 small, byte)
          (put_counted-written c (n ∷ []) val n len (omega arith)),
      rw at (get_counted-written c (n ∷ []) val n m 1 len refl (omega arith)),
      rw at (unfold get_counted in refl),
    )

-- `Fixed_UDP` of a block writes it if it leaves at least one byte free, and otherwise returns -1 and
-- changes nothing. Where it stands within the data, `UDP_Fixed` reads it back.
pub fixed_round_trip :
    (val : List ℕ) (c : Cursor) (datasz : ℕ)
    → datasz ≤ length c.mem
    → c.pos + length val ≤ length c.mem
    → (fixed_udp (length val) val c datasz
        ≡ (if ltb (c.pos + length val) datasz then some (pos 0, written c val) else refuse c))
      × (udp_fixed (length val) true (back_to c (written c val)) ≡ some (some val, written c val))
unfolding fixed_udp udp_fixed
fixed_round_trip val c datasz room fits = (
  rw
      (
        peek_all-take val (length val) (omega arith),
        take-all (length val) val (omega arith),
        put_bytes-written c val fits,
      )
      refl,
  rw
      (
        peek_all-overwrite_part c.mem c.pos (length val) val fits (omega arith),
        take-all (length val) val (omega arith),
      )
      refl,
)
