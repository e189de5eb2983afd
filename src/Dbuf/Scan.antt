-- ===== src/Dbuf/Scan.antt =====
-- `dmemscan` and `dmemcasescan` of supp_src/lib_dbuf.c. Their `char` argument is signed on the
-- target, x86, while the bytes are not: a negative one equals no byte.
use cosimus.Base.{
  ℕ, zero, suc, ◌+◌, ◌-◌, ◌≤◌, ◌≡◌, refl, subst, ◌⊎◌, inl, inr, Bool, true, false, ◌&&◌, Option,
  some, List, ◌∷◌, length, take, drop, All, peek, Bool-cases, drop-cons, get_elem?_of_drop, leb,
  ◌==◌, if◌then◌else◌, ◌>>=◌, arith, ℤ, pos, negsuc,
}
use cosimus.Dbuf.{Dbuf}
use cosimus.Dbuf.Grow.{IsDbuf}

-- `for(i = start; (i < d->dsize) && !stop(d->buf[i]); i++)`, with the rounds that are left.
unfoldable pub scan_rounds : (ℕ → Bool) → List ℕ → ℕ → ℕ → Option ℕ
scan_rounds stop buf zero i = some i
scan_rounds stop buf (suc left) i =
    peek buf i >>= λ b. if stop b then some i else scan_rounds stop buf left (suc i)

abbrev pub is_char : ℤ → ℕ → Bool
is_char (pos n) b = b == n
is_char (negsuc n) b = false

-- `tolower` of the C locale.
abbrev pub tolower : ℕ → ℕ
tolower b = if leb b'A' b && leb b b'Z' then b + 32 else b

abbrev pub lower_char : ℤ → ℤ
lower_char (pos n) = pos (tolower n)
lower_char (negsuc n) = negsuc n

-- `dmemscan(d, c, start)`
unfoldable pub dmemscan : Dbuf → ℤ → ℕ → Option ℕ
unfolding scan_rounds
dmemscan d c start = scan_rounds (is_char c) d.buf (d.dsize - start) start

-- `dmemcasescan(d, c, start)`
pub dmemcasescan : Dbuf → ℤ → ℕ → Option ℕ
unfolding scan_rounds
dmemcasescan d c start =
    scan_rounds (λ b. is_char (lower_char c) (tolower b)) d.buf (d.dsize - start) start

-- The first index from `start` on at which the test passes, or `end` if there is none before it.
pub record FirstStop (stop : ℕ → Bool) (buf : List ℕ) (start end i : ℕ) : Type 0 where
  pub from_start : start ≤ i
  pub to_end : i ≤ end
  pub passed : All (λ b. stop b ≡ false) (take (i - start) (drop start buf))
  pub found : (i ≡ end) ⊎ ((b : ℕ) × (peek buf i ≡ some b) × (stop b ≡ true))

FirstStop-here :
    (stop : ℕ → Bool) (buf : List ℕ) (start end : ℕ)
    → start ≤ end
    → (start ≡ end) ⊎ ((b : ℕ) × (peek buf start ≡ some b) × (stop b ≡ true))
    → FirstStop stop buf start end start
FirstStop-here stop buf start end h found = record {
  from_start = omega arith;
  to_end = h;
  passed = rw nothing_left tt;
  found = found;
}
  where
    nothing_left : start - start ≡ 0
    nothing_left = omega arith

FirstStop-later :
    (stop : ℕ → Bool) (buf : List ℕ) (start end i b : ℕ)
    → drop start buf ≡ b ∷ drop (suc start) buf
    → stop b ≡ false
    → FirstStop stop buf (suc start) end i
    → FirstStop stop buf start end i
FirstStop-later stop buf start end i b e miss f =
    let from = f.from_start in
    record {
      from_start = omega (arith, from);
      to_end = f.to_end;
      passed = rw (one_more from, e) (miss, f.passed);
      found = f.found;
    }
  where
    one_more : suc start ≤ i → i - start ≡ suc (i - suc start)
    one_more h = omega arith

pub scan_rounds_first :
    (stop : ℕ → Bool) (buf : List ℕ) (left start : ℕ)
    → start + left ≤ length buf
    → (i : ℕ) × (scan_rounds stop buf left start ≡ some i)
      × FirstStop stop buf start (start + left) i
unfolding scan_rounds
scan_rounds_first stop buf zero start h =
    (start, refl, FirstStop-here stop buf start (start + 0) (omega arith) (inl (omega arith)))
scan_rounds_first stop buf (suc left) start h =
    let (b, e) = drop-cons buf start (omega arith) in
    let here : peek buf start ≡ some b = get_elem?_of_drop buf start e in
    elim (Bool-cases (stop b)) [
      | inl hit ↦ (
        start,
        rw (here, hit),
        FirstStop-here stop buf start (start + suc left) (omega arith) (inr (b, here, hit)),
      )
      | inr miss ↦
          let (i, run, f) = scan_rounds_first stop buf left (suc start) (omega arith) in
          (
            i,
            rw (here, miss) run,
            FirstStop-later stop buf start (start + suc left) i b e miss
                (rw (shift start left) at f),
          )
    ]
  where
    shift : (a n : ℕ) → suc a + n ≡ a + suc n
    shift a n = omega arith

-- In a valid buffer `dmemscan` from a position within the data stays inside the block and returns
-- the first position with the wanted byte, or the data size if there is none from there on; a
-- negative `char` it never finds. `dmemcasescan` does the same up to the case of letters.
pub dmemscan_first :
    {d : Dbuf} (c : ℤ) (start : ℕ)
    → IsDbuf d
    → start ≤ d.dsize
    → ((i : ℕ) × (dmemscan d c start ≡ some i) × FirstStop (is_char c) d.buf start d.dsize i)
      × ((i : ℕ) × (dmemcasescan d c start ≡ some i)
          × FirstStop (λ b. is_char (lower_char c) (tolower b)) d.buf start d.dsize i)
unfolding dmemscan dmemcasescan
dmemscan_first {d} c start v h = (scan (is_char c), scan (λ b. is_char (lower_char c) (tolower b)))
  where
    scan :
        (stop : ℕ → Bool)
        → (i : ℕ) × (scan_rounds stop d.buf (d.dsize - start) start ≡ some i)
          × FirstStop stop d.buf start d.dsize i
    scan stop =
        let (i, e, f) =
          scan_rounds_first stop d.buf (d.dsize - start) start (omega (arith, v.sized, v.fits)) in
        let all : start + (d.dsize - start) ≡ d.dsize = omega arith in
        (i, e, subst (λ end. FirstStop stop d.buf start end i) all f)
