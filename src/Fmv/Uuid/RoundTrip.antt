-- ===== src/Fmv/Uuid/RoundTrip.antt =====
-- An identifier of fmv_src/sta_fmv.c is read back as it was written.
use cosimus.Base.{
  ℕ, ◌+◌, ◌≤◌, ◌<◌, ◌≡◌, refl, sym, ap₂, ◌∙◌, some, [], ◌∷◌, u8, u16, u32, ◌<<<◌, ◌>>>◌, pos,
  peek_all, leb, length, overwrite, length-overwrite, overwrite-overwrite, peek_all-overwrite,
  if◌then◌else◌, arith,
}
use cosimus.Fmv.Cursor.{Cursor, refuse, written, back_to, put_bytes-written, byte_at}
use cosimus.Fmv.Uuid.{Uuid, uuid_bytes, lluuid_udp, udp_lluuid}

-- The fields within their widths.
pub record IsUuid (uu : Uuid) : Type 0 where
  pub low : uu.time_low < 4294967296
  pub mid : uu.time_mid < 65536
  pub high : uu.time_hi_and_version < 65536
  pub seq_high : uu.clock_seq_hi_and_reserved < 256
  pub seq_low : uu.clock_seq_low < 256
  pub six : length uu.node ≡ 6

four_bytes :
    (x : ℕ)
    → x < 4294967296
    → u32 (((u8 (x >>> 24) <<< 8 + u8 (x >>> 16)) <<< 8 + u8 (x >>> 8)) <<< 8 + u8 x) ≡ x
four_bytes x h = ground arith

two_bytes : (x : ℕ) → x < 65536 → u16 (u8 (x >>> 8) <<< 8 + u8 x) ≡ x
two_bytes x h = ground arith

one_byte : (x : ℕ) → x < 256 → u8 x ≡ x
one_byte x h = omega arith

-- `LLUUID_UDP` of an identifier that fits with one byte more writes its sixteen bytes, from which
-- `UDP_LLUUID` makes the same identifier again. One that does not fit is refused with -1.
pub uuid_round_trip :
    (uu : Uuid) (c : Cursor) (datasz : ℕ)
    → IsUuid uu
    → datasz ≤ length c.mem
    → c.pos + 16 ≤ length c.mem
    → (lluuid_udp uu c datasz
        ≡ (if leb datasz (c.pos + 16) then refuse c else some (pos 0, written c (uuid_bytes uu))))
      × (udp_lluuid (back_to c (written c (uuid_bytes uu))) ≡ some (uu, written c (uuid_bytes uu)))
unfolding lluuid_udp udp_lluuid uuid_bytes
uuid_round_trip uu c datasz v room fits =
    let bytes = uuid_bytes uu in
    let len : length bytes ≡ 16 = omega (arith, v.six) in
    let at = byte_at c bytes (omega (arith, len)) in
    let head =
      u8 (uu.time_low >>> 24)
      ∷ u8 (uu.time_low >>> 16)
      ∷ u8 (uu.time_low >>> 8)
      ∷ u8 uu.time_low
      ∷ u8 (uu.time_mid >>> 8)
      ∷ u8 uu.time_mid
      ∷ u8 (uu.time_hi_and_version >>> 8)
      ∷ u8 uu.time_hi_and_version
      ∷ u8 uu.clock_seq_hi_and_reserved
      ∷ u8 uu.clock_seq_low
      ∷ [] in
    let node : peek_all (overwrite c.mem c.pos bytes) (c.pos + 10) 6 ≡ some uu.node =
      ap₂ (λ m k. peek_all m (c.pos + 10) k) (sym (overwrite-overwrite c.mem c.pos head uu.node))
        (sym v.six)
      ∙ peek_all-overwrite (overwrite c.mem c.pos head) (c.pos + 10) uu.node
          (rw length-overwrite (omega (arith, v.six))) in
    (
      rw (put_bytes-written c bytes (omega (arith, len))) refl,
      rw
          (
            at 0 (omega (arith, len)),
            at 1 (omega (arith, len)),
            at 2 (omega (arith, len)),
            at 3 (omega (arith, len)),
            at 4 (omega (arith, len)),
            at 5 (omega (arith, len)),
            at 6 (omega (arith, len)),
            at 7 (omega (arith, len)),
            at 8 (omega (arith, len)),
            at 9 (omega (arith, len)),
            node,
            four_bytes uu.time_low v.low,
            two_bytes uu.time_mid v.mid,
            two_bytes uu.time_hi_and_version v.high,
            one_byte uu.clock_seq_hi_and_reserved v.seq_high,
            one_byte uu.clock_seq_low v.seq_low,
            len,
          )
          refl,
    )
