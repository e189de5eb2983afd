-- ===== src/Http/Parse/Headers.antt =====
-- The loops over the headers in `http_parse_headers` of supp_src/lib_httpd.c end and stay inside the
-- memory.
use cosimus.Base.{
  ℕ, zero, suc, ◌+◌, ◌-◌, ◌≤◌, ◌<◌, ◌≡◌, refl, subst, ◌∙◌, inl, inr, Bool, true, false, not, ◌&&◌,
  Option, none, some, List, length, length-set, set, Bool-cases, ltb, ◌==◌, arith, lt→ltb,
}
use cosimus.Http.{AppdataHttp, isblank_x}
use cosimus.Http.Parse.{Outside, with_header, header_value, one_header, header_rounds}
use cosimus.Http.Parse.Value.{c_string-run, lower_name-run, scan-run, value_rounds-run}

-- What a header leaves: as much memory, and the next header further on.
abbrev Onwards : (AppdataHttp → Type 0) → ℕ → ℕ → ℕ → Option (List ℕ × ℕ × AppdataHttp) → Type 0
Onwards P size e j none = Unit
Onwards P size e j (some (m, next, ad)) = (length m ≡ size) × (j < next) × (next ≤ e) × P ad

-- A header's value does not take the fields out of `P`.
abbrev pub Keeping : Outside → (AppdataHttp → Type 0) → Type 0
Keeping out P = (key val : List ℕ) (ad : AppdataHttp) → P ad → P (with_header out key val ad)

header_value-run :
    (out : Outside) (P : AppdataHttp → Type 0) (m : List ℕ) (e j k : ℕ) (ad : AppdataHttp)
    → Keeping out P
    → P ad
    → j ≤ k
    → k < e
    → e < length m
    → (r : Option (List ℕ × ℕ × AppdataHttp)) × (header_value out m e j k ad ≡ some r)
      × Onwards P (length m) e j r
unfolding header_value
header_value-run out P m e j k ad keeping p h inside room =
    let m2 = set m k 0 in
    let same : length m2 ≡ length m = length-set m k 0 in
    let (v, run, f) =
      scan-run (λ c. not (not (c == 0) && isblank_x c)) m2 (suc k) e (omega arith) (omega arith) in
    let from = f.from_start in
    let x = value_rounds-run (suc e) m2 e v f.to_end (omega arith) (omega arith) in
    let behind = x.behind in
    let onwards = x.onwards in
    let (key, has_key) = c_string-run x.memory j x.end (omega arith) x.ended in
    let (val, has_val) = c_string-run x.memory v x.end (omega arith) x.ended in
    rw (lt→ltb k (length m) (omega arith), run, x.run)
      (elim (Bool-cases (ltb x.end e)) [
        | inl before ↦ (
          some (x.memory, x.next, with_header out key val ad),
          rw (before, has_key, has_val) refl,
          (x.long ∙ same, omega arith, x.inside, keeping key val ad p),
        )
        | inr past ↦ (none, rw past refl, tt)
      ])

one_header-run :
    (out : Outside) (P : AppdataHttp → Type 0) (m : List ℕ) (e j : ℕ) (ad : AppdataHttp)
    → Keeping out P
    → P ad
    → j < e
    → e < length m
    → (r : Option (List ℕ × ℕ × AppdataHttp)) × (one_header out m e j ad ≡ some r)
      × Onwards P (length m) e j r
unfolding one_header
one_header-run out P m e j ad keeping p h room =
    let (m1, k, run, same, from, to) = lower_name-run (e - j) m j (omega arith) in
    rw run (elim (Bool-cases (ltb k e)) [
      | inl colon ↦
          let (r, ran, on) =
            header_value-run out P m1 e j k ad keeping p from (ground arith) (omega arith) in
          (r, rw colon ran, subst (λ n. Onwards P n e j r) same on)
      | inr none_left ↦
          let there : k ≡ e = ground arith in
          (some (m1, k, ad), rw none_left refl, (same, omega arith, omega arith, p))
    ])

pub header_rounds-run :
    (out : Outside) (P : AppdataHttp → Type 0) (left : ℕ) (m : List ℕ) (e j : ℕ) (ad : AppdataHttp)
    → Keeping out P
    → P ad
    → 0 < left
    → e < left + j
    → e < length m
    → (ok : Bool) × (ad' : AppdataHttp) × (header_rounds out left m e j ad ≡ some (ok, ad')) × P ad'
unfolding header_rounds
header_rounds-run out P zero m e j ad keeping p some_left enough room = absurd (omega arith)
header_rounds-run out P (suc left) m e j ad keeping p some_left enough room =
    elim (Bool-cases (ltb j e)) [
      | inr done ↦ (true, ad, rw done refl, p)
      | inl more ↦
          let (r, run, on) = one_header-run out P m e j ad keeping p (ground arith) room in
          rw (more, run)
            (from r on (λ m' n ad' lt le same p'.
              header_rounds-run out P left m' e n ad' keeping p' (omega arith) (omega arith)
                (omega arith)))
    ]
  where
    from :
        (r : Option (List ℕ × ℕ × AppdataHttp))
        → Onwards P (length m) e j r
        → ((m' : List ℕ) (n : ℕ) (ad' : AppdataHttp)
            → j < n
            → n ≤ e
            → length m' ≡ length m
            → P ad'
            → (ok : Bool) × (ad'' : AppdataHttp) × (header_rounds out left m' e n ad'
                ≡ some (ok, ad''))
              × P ad'')
        → (ok : Bool) × (ad'' : AppdataHttp) × ◌≡◌ {A = Option (Bool × AppdataHttp)}
            (elim r [
              | none ↦ some (false, ad)
              | some (m', next, ad') ↦ header_rounds out left m' e next ad'
            ])
            (some (ok, ad''))
          × P ad''
    from none on ih = (false, ad, refl, p)
    from (some (m', n, ad')) (same, lt, le, p') ih = ih m' n ad' lt le same p'

-- Whatever the memory of a request holds, the loop over its headers ends within a round more than it
-- has bytes, and neither it nor the loops inside it leave the memory, which has a byte more.
pub header_rounds-total :
    (out : Outside) (m : List ℕ) (e j : ℕ) (ad : AppdataHttp)
    → e < length m
    → (ok : Bool) × (ad' : AppdataHttp) × (header_rounds out (suc e) m e j ad ≡ some (ok, ad'))
header_rounds-total out m e j ad room =
    let (ok, ad', run, any) =
      header_rounds-run out (λ a. Unit) (suc e) m e j ad (λ key val a t. tt) tt (omega arith)
        (omega arith) room in
    (ok, ad', run)
