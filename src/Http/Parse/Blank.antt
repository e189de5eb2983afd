-- ===== src/Http/Parse/Blank.antt =====
-- Where a request ends: the loop of `http_request_check` of supp_src/lib_httpd.c.
use cosimus.Base.{
  ℕ, zero, suc, ◌+◌, ◌-◌, ◌≤◌, ◌<◌, ◌≡◌, refl, sym, ap, ◌∙◌, inl, inr, subst, Bool, true, false,
  ◌&&◌, ◌||◌, Option, none, some, List, [], ◌∷◌, ◌++◌, length, take, drop, All, peek, drop-cons,
  take-append-drop, take-take, drop-take, drop_add, length-take_le, length-drop, get_elem?_of_drop,
  get_elem?-take, ==_iff, Bool-cases, leb, ltb, ◌==◌, if◌then◌else◌, ◌>>=◌, arith, pos, lt→ltb,
  le→ltb,
}
use mathlib.Core.Option.{some_inj}
use cosimus.Dbuf.{Dbuf}
use cosimus.Dbuf.Grow.{IsDbuf, content}
use cosimus.Dbuf.Scan.{FirstStop, dmemscan_first, is_char}
use cosimus.Http.Parse.{ends_here, check_rounds}

-- Whether an empty line begins behind a line feed.
abbrev pub empty_line : List ℕ → Bool
empty_line [] = false
empty_line (b ∷ []) = b == 10
empty_line (b ∷ c ∷ xs) = b == 10 || (b == 13 && c == 10)

abbrev pub later : ℕ → Option ℕ → Option ℕ
later n none = none
later n (some i) = some (n + i)

-- The first line feed behind which there is an empty line.
unfoldable pub blank_line : List ℕ → Option ℕ
blank_line [] = none
blank_line (c ∷ xs) =
    let rest = later 1 (blank_line xs) in if c == 10 && empty_line xs then some 0 else rest

later-later : (m n : ℕ) (o : Option ℕ) → later m (later n o) ≡ later (m + n) o
later-later m n none = refl
later-later m n (some i) = ap some (omega arith)

blank_line-skip :
    (ys zs : List ℕ)
    → All (λ b. (b == 10) ≡ false) ys
    → blank_line (ys ++ zs) ≡ later (length ys) (blank_line zs)
unfolding blank_line
blank_line-skip [] zs all = keep (blank_line zs)
  where
    keep : (o : Option ℕ) → o ≡ later 0 o
    keep none = refl
    keep (some i) = ap some (omega arith)
blank_line-skip (y ∷ ys) zs (other, all) = rw other (
    ap (later 1) (blank_line-skip ys zs all)
    ∙ later-later 1 (length ys) (blank_line zs)
    ∙ ap (λ k. later k (blank_line zs)) one_more)
  where
    one_more : 1 + length ys ≡ suc (length ys)
    one_more = omega arith

-- Before the place where `dmemscan` stops there is no line feed.
skipped :
    {d : Dbuf} (start i : ℕ)
    → IsDbuf d
    → FirstStop (is_char (pos 10)) d.buf start d.dsize i
    → blank_line (drop start (content d)) ≡ later (i - start) (blank_line (drop i (content d)))
skipped {d} start i v f =
    let from = f.from_start in
    let to = f.to_end in
    let xs = drop start (content d) in
    let n = i - start in
    let long : length xs ≡ d.dsize - start =
      length-drop start (content d)
      ∙ omega (arith, length-take_le d.dsize d.buf (omega (arith, v.sized, v.fits))) in
    let same : take n xs ≡ take n (drop start d.buf) =
      ap (take n) (drop-take start d.dsize d.buf)
      ∙ take-take n (d.dsize - start) (drop start d.buf) (omega arith) in
    let there : start + n ≡ i = omega arith in
    sym (ap blank_line (take-append-drop n xs))
    ∙ blank_line-skip (take n xs) (drop n xs)
        (subst (All (λ b. (b == 10) ≡ false)) (sym same) f.passed)
    ∙ ap (λ k. later k (blank_line (drop n xs))) (length-take_le n xs (omega arith))
    ∙ ap (λ t. later n (blank_line t)) (drop_add start n (content d))
    ∙ ap (λ k. later n (blank_line (drop k (content d)))) there

-- `ends_here` looks at the bytes behind the line feed only.
ends_here-run :
    {d : Dbuf} (i : ℕ)
    → IsDbuf d
    → i + 1 < d.dsize
    → ends_here d i ≡ some (empty_line (drop (suc i) (content d)))
unfolding ends_here
ends_here-run {d} i v h =
    let long : length (content d) ≡ d.dsize =
      length-take_le d.dsize d.buf (omega (arith, v.sized, v.fits)) in
    let (b, e) = drop-cons (content d) (suc i) (omega arith) in
    let one : peek d.buf (i + 1) ≡ some b =
      ap (peek d.buf) plus_one
      ∙ sym (get_elem?-take d.dsize d.buf (suc i) (omega arith))
      ∙ get_elem?_of_drop (content d) (suc i) e in
    rw (one, e) (from b (drop (suc (suc i)) (content d)) refl)
  where
    rest_long : length (drop (suc (suc i)) (content d)) ≡ d.dsize - suc (suc i)
    rest_long =
        length-drop (suc (suc i)) (content d)
        ∙ omega (arith, length-take_le d.dsize d.buf (omega (arith, v.sized, v.fits)))

    past : length (drop (suc (suc i)) (content d)) ≡ 0 → ltb (i + 2) d.dsize ≡ false
    past e = le→ltb _ _ (omega (arith, rest_long))

    before : {n : ℕ} → length (drop (suc (suc i)) (content d)) ≡ suc n → ltb (i + 2) d.dsize ≡ true
    before e = lt→ltb _ _ (omega (arith, rest_long))

    two :
        {c : ℕ} {xs : List ℕ}
        → drop (suc (suc i)) (content d) ≡ c ∷ xs
        → peek d.buf (i + 2) ≡ some c
    two {c} {xs} e =
        ap (peek d.buf) plus_two
        ∙ sym (get_elem?-take d.dsize d.buf (suc (suc i)) (omega (arith, rest_long, ap length e)))
        ∙ get_elem?_of_drop (content d) (suc (suc i)) e
      where
        plus_two : i + 2 ≡ suc (suc i)
        plus_two = omega arith

    two_bytes :
        (b c : ℕ)
        → (if b == 10 then some true else (if true && b == 13 then some (c == 10) else some false))
          ≡ some (b == 10 || (b == 13 && c == 10))
    two_bytes b c = ground arith

    plus_one : i + 1 ≡ suc i
    plus_one = omega arith

    from :
        (b : ℕ) (xs : List ℕ)
        → drop (suc (suc i)) (content d) ≡ xs
        → (if b == 10
            then some true
            else (if ltb (i + 2) d.dsize && b == 13
                then (peek d.buf (i + 2) >>= λ c. some (c == 10))
                else some false))
          ≡ some (empty_line (b ∷ xs))
    from b [] e = rw (past (ap length e)) (none_left b)
      where
        none_left : (b : ℕ) → (if b == 10 then some true else some false) ≡ some (b == 10)
        none_left b = ground arith
    from b (c ∷ xs) e = rw (before (ap length e), two e) (two_bytes b c)

blank_line-short : (xs : List ℕ) → length xs ≤ 1 → blank_line xs ≡ none
unfolding blank_line
blank_line-short [] h = refl
blank_line-short (c ∷ []) h = rw (and_false (c == 10)) refl
  where
    and_false : (b : Bool) → (b && false) ≡ false
    and_false b = ground arith
blank_line-short (c ∷ b ∷ xs) h = absurd (omega arith)

feed_at :
    {d : Dbuf} (start i : ℕ)
    → IsDbuf d
    → FirstStop (is_char (pos 10)) d.buf start d.dsize i
    → i < d.dsize
    → drop i (content d) ≡ 10 ∷ drop (suc i) (content d)
feed_at {d} start i v f h =
    let long : length (content d) ≡ d.dsize =
      length-take_le d.dsize d.buf (omega (arith, v.sized, v.fits)) in
    let (b, e) = drop-cons (content d) i (omega arith) in
    elim f.found [
      | inl at_end ↦ absurd (omega (arith, at_end))
      | inr (c, at, hit) ↦
          let same : b ≡ c =
            some_inj.0
              (sym (get_elem?_of_drop (content d) i e) ∙ get_elem?-take d.dsize d.buf i h ∙ at) in
          e ∙ ap (λ k. k ∷ drop (suc i) (content d)) (same ∙ (==_iff c 10).0 hit)
    ]

check_rounds-from :
    {d : Dbuf} (left start : ℕ)
    → IsDbuf d
    → start ≤ d.dsize
    → d.dsize < left + start
    → check_rounds left d start ≡ some (later start (blank_line (drop start (content d))))
unfolding check_rounds blank_line
check_rounds-from zero start v h enough = absurd (omega arith)
check_rounds-from {d} (suc left) start v h enough =
    let ((offs, run, f), other) = dmemscan_first (pos 10) start v h in
    let from = f.from_start in
    let to = f.to_end in
    let long : length (content d) ≡ d.dsize =
      length-take_le d.dsize d.buf (omega (arith, v.sized, v.fits)) in
    let before = skipped start offs v f in
    elim (Bool-cases (leb (offs + 2) d.dsize)) [
      | inr last ↦
          rw
            (
              run,
              last,
              before,
              blank_line-short (drop offs (content d))
                  (omega (arith, length-drop offs (content d), long, (leb_false last))),
            )
            refl
      | inl room ↦
          let inside : offs + 1 < d.dsize = omega (arith, leb_true room) in
          rw (run, room, ends_here-run offs v inside, before, feed_at start offs v f (omega arith))
            (elim (Bool-cases (empty_line (drop (suc offs) (content d)))) [
              | inl empty ↦ rw empty (ap (λ k. some (some k)) (omega arith))
              | inr more ↦ rw more (
                  check_rounds-from left (suc offs) v (omega arith) (omega arith)
                  ∙ ap some (
                      sym (
                        ap (later start)
                          (later-later (offs - start) 1 (blank_line (drop (suc offs) (content d))))
                        ∙ later-later start (offs - start + 1)
                            (blank_line (drop (suc offs) (content d)))
                        ∙ ap (λ k. later k (blank_line (drop (suc offs) (content d))))
                            (omega arith))))
            ])
    ]
  where
    leb_true : {a b : ℕ} → leb a b ≡ true → a ≤ b
    leb_true e = ground arith

    leb_false : {a b : ℕ} → leb a b ≡ false → b < a
    leb_false e = ground arith

-- The loop of `http_request_check` on a valid buffer ends within a round more than it has bytes,
-- stays inside the block, and finds the first line feed behind which there is an empty line, which
-- ends with a line feed or with a carriage return and a line feed, or finds that there is none.
pub check_rounds-blank_line :
    {d : Dbuf} → IsDbuf d → check_rounds (suc d.dsize) d 0 ≡ some (blank_line (content d))
check_rounds-blank_line {d} v =
    check_rounds-from (suc d.dsize) 0 v (omega arith) (omega arith)
    ∙ ap some (zero_later (blank_line (content d)))
  where
    zero_later : (o : Option ℕ) → later 0 o ≡ o
    zero_later none = refl
    zero_later (some i) = ap some (omega arith)
