-- ===== src/Fmv/ZeroCode/Emit.antt =====
-- Bytes written one after the other through `dest[zerolen++]`: they are appended while there is
-- room, and the first one past the block is a fault.
use cosimus.Base.{
  ℕ, ◌+◌, ◌≤◌, ◌<◌, ◌≡◌, refl, sym, ap, ◌∙◌, inl, inr, Option, none, some, List, [], ◌∷◌, ◌++◌,
  length, take, ltb, Bool-cases, ◌>>=◌, arith, append_assoc, append-nil, lt→ltb, set, length-set,
  take-set, >>=_ext, >>=_assoc,
}
use native.Mathlib.Numerals.{add-one}
use cosimus.Fmv.ZeroCode.{Output, emit}

-- The bytes `bs` emitted one after the other.
unfoldable pub emit_all : List ℕ → Output → Option Output
emit_all [] o = some o
emit_all (b ∷ bs) o = emit b o >>= emit_all bs

pub emit_all-append :
    (xs ys : List ℕ) (o : Output) → emit_all (xs ++ ys) o ≡ (emit_all xs o >>= emit_all ys)
unfolding emit_all
emit_all-append [] ys o = refl
emit_all-append (x ∷ xs) ys o =
    >>=_ext (emit x o) _ _ (emit_all-append xs ys)
    ∙ sym (>>=_assoc (emit x o) (emit_all xs) (emit_all ys))

-- What emitting `bs` makes of an output with room for them.
pub record Emitted (o : Output) (bs : List ℕ) (o' : Output) : Type 0 where
  pub filled : take o'.zerolen o'.dest ≡ take o.zerolen o.dest ++ bs
  pub longer : o'.zerolen ≡ o.zerolen + length bs
  pub block : length o'.dest ≡ length o.dest

pub emit_all-Emitted :
    (bs : List ℕ) (o : Output)
    → o.zerolen + length bs ≤ length o.dest
    → (o' : Output) × (emit_all bs o ≡ some o') × Emitted o bs o'
unfolding emit_all emit
emit_all-Emitted [] o h = (
  o,
  refl,
  record { filled = sym (append-nil (take o.zerolen o.dest)); longer = omega arith; block = refl },
)
emit_all-Emitted (b ∷ bs) o h =
    let here : o.zerolen < length o.dest = omega arith in
    let next : Output = record { dest = set o.dest o.zerolen b; zerolen = o.zerolen + 1 } in
    let size : length next.dest ≡ length o.dest = length-set o.dest o.zerolen b in
    let (o', e, w) = emit_all-Emitted bs next (omega (arith, size)) in
    (
      o',
      rw (lt→ltb _ _ here) e,
      record {
        filled =
            w.filled
            ∙ ap (λ t. t ++ bs)
                (ap (λ n. take n next.dest) (add-one o.zerolen) ∙ take-set o.dest o.zerolen b here)
            ∙ append_assoc (take o.zerolen o.dest) (b ∷ []) bs;
        longer = omega (arith, w.longer);
        block = w.block ∙ size;
      },
    )

pub emit_all_fault :
    (bs : List ℕ) (o : Output)
    → o.zerolen ≤ length o.dest
    → length o.dest < o.zerolen + length bs
    → emit_all bs o ≡ none
unfolding emit_all emit
emit_all_fault [] o h full = absurd (omega arith)
emit_all_fault (b ∷ bs) o h full = elim (Bool-cases (ltb o.zerolen (length o.dest))) [
  | inl here ↦ rw here (
      emit_all_fault bs (record { dest = set o.dest o.zerolen b; zerolen = o.zerolen + 1 })
        (rw length-set (ground arith)) (rw length-set (omega arith)))
  | inr there ↦ rw there
]
