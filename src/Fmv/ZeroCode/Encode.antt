-- ===== src/Fmv/ZeroCode/Encode.antt =====
-- The loops of `ZeroEncodePacket` in fmv_src/sta_fmv.c emit the code of the bytes that they read.
use cosimus.Base.{
  ℕ, zero, suc, ◌<◌, ◌≡◌, refl, sym, ◌∙◌, inl, inr, false, Option, none, some, List, [], ◌∷◌, ◌++◌,
  length, drop, get_elem?_of_drop, drop-suc, ◌==◌, ==_iff, Bool-cases, ◌>>=◌, arith, >>=_ext,
  >>=_assoc, >>=_some,
}
use cosimus.Fmv.ZeroCode.{Output, emit, flush, encode_byte, encode_loop, copy_loop}
use cosimus.Fmv.ZeroCode.Emit.{emit_all, emit_all-append}
use cosimus.Fmv.ZeroCode.RunLength.{run, coded}

flush-run : (z : ℕ) (o : Output) → flush z o ≡ emit_all (run z) o
unfolding flush emit_all
flush-run zero o = refl
flush-run (suc z) o = rw positive (>>=_ext (emit 0 o) _ _ (λ o'. sym (>>=_some (emit (suc z) o'))))
  where
    positive : (suc z == 0) ≡ false
    positive = ground arith

-- One round, by the byte and the count.
round_full : (o : Output) → encode_byte 0 255 o ≡ (emit 0 o >>= emit 255 >>= λ o'. some (1, o'))
unfolding encode_byte
round_full o = refl

round_count : (z : ℕ) (o : Output) → z < 255 → encode_byte 0 z o ≡ some (suc z, o)
unfolding encode_byte
round_count z o h = ground arith

round_other :
    (b z : ℕ) (o : Output)
    → encode_byte (suc b) z o ≡ (flush z o >>= emit (suc b) >>= λ o'. some (0, o'))
unfolding encode_byte
round_other b z o = rw other
  where
    other : (suc b == 0) ≡ false
    other = ground arith

-- After a step that emits and sets the count, the rest goes on from there.
then_rest :
    (m : Option Output) (z : ℕ) (loop : ℕ × Output → Option (ℕ × Output))
    (last : ℕ × Output → Option Output) (g : Output → Option Output)
    → ((o : Output) → (loop (z, o) >>= last) ≡ g o)
    → ((m >>= λ o. some (z, o)) >>= loop >>= last) ≡ (m >>= g)
then_rest none z loop last g h = refl
then_rest (some o) z loop last g h = h o

-- The loop and the flush behind it emit the code.
pub encode_loop-coded :
    (xs tail src : List ℕ) (i z : ℕ) (o : Output)
    → drop i src ≡ xs ++ tail
    → z < 256
    → (encode_loop (length xs) i src z o >>= λ (z', o'). flush z' o') ≡ emit_all (coded z xs) o
unfolding encode_loop coded emit_all
encode_loop-coded [] tail src i z o e b = flush-run z o
encode_loop-coded (zero ∷ xs) tail src i z o e b =
    let later = λ (z' : ℕ) (o' : Output) (b' : z' < 256).
      encode_loop-coded xs tail src (suc i) z' o' (drop-suc src i e) b' in
    elim (Bool-cases (z == 255)) [
      | inl full ↦
          rw (get_elem?_of_drop src i e, (==_iff z 255).0 full, round_full o)
            (then_rest (emit 0 o >>= emit 255) 1 _ _ (emit_all (coded 1 xs))
                (λ o'. later 1 o' (omega arith))
              ∙ unfold emit_all in >>=_assoc (emit 0 o) (emit 255) (emit_all (coded 1 xs)))
      | inr more ↦
          rw (get_elem?_of_drop src i e, more, round_count z o (ground arith))
            (later (suc z) o (ground arith))
    ]
encode_loop-coded (suc x ∷ xs) tail src i z o e b =
    rw (get_elem?_of_drop src i e, round_other x z o)
      (then_rest (flush z o >>= emit (suc x)) 0 _ _ (emit_all (coded 0 xs))
          (λ o'. encode_loop-coded xs tail src (suc i) 0 o' (drop-suc src i e) (omega arith))
        ∙ >>=_assoc (flush z o) (emit (suc x)) (emit_all (coded 0 xs))
        ∙ rw (flush-run z o) (sym (emit_all-append (run z) (suc x ∷ coded 0 xs) o)))

pub copy_loop-emit_all :
    (xs tail src : List ℕ) (i : ℕ) (o : Output)
    → drop i src ≡ xs ++ tail
    → copy_loop (length xs) i src o ≡ emit_all xs o
unfolding copy_loop emit_all
copy_loop-emit_all [] tail src i o e = refl
copy_loop-emit_all (x ∷ xs) tail src i o e =
    rw (get_elem?_of_drop src i e)
      (>>=_ext (emit x o) _ _ (λ o'. copy_loop-emit_all xs tail src (suc i) o' (drop-suc src i e)))
