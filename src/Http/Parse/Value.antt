-- ===== src/Http/Parse/Value.antt =====
-- One value in `http_parse_headers` of supp_src/lib_httpd.c: the loop over its lines, and strings.
use cosimus.Base.{
  ℕ, zero, suc, ◌+◌, ◌-◌, ◌≤◌, ◌<◌, ◌≡◌, refl, sym, ap, subst, ◌∙◌, inl, inr, Bool, true, false,
  not, Option, some, List, [], ◌∷◌, length, length-set, set, take, drop, peek, poke, get_elem?-some,
  get_elem?-set_self, Bool-cases, ltb, ◌==◌, ◌>>=◌, arith, lt→ltb,
}
use mathlib.Core.Option.{some_inj}
use cosimus.Dbuf.Append.{strlen}
use cosimus.Dbuf.Scan.{FirstStop, scan_rounds, scan_rounds_first, tolower}
use cosimus.Http.{is_eol}
use cosimus.Http.Parse.{c_string, lower_name, value_rounds}

strlen-run : (m : List ℕ) (i : ℕ) → peek m i ≡ some 0 → (n : ℕ) × (strlen m ≡ some n)
unfolding strlen
strlen-run [] i e = absurd cc
strlen-run (zero ∷ m) i e = (0, refl)
strlen-run (suc c ∷ m) zero e = absurd (omega (arith, some_inj.0 e))
strlen-run (suc c ∷ m) (suc i) e = let (n, run) = strlen-run m i e in (suc n, rw run refl)

peek-drop : (m : List ℕ) (k n : ℕ) → peek (drop k m) n ≡ peek m (k + n)
peek-drop m zero n = ap (peek m) (omega arith)
peek-drop [] (suc k) n = empty n (suc k + n)
  where
    empty : (a b : ℕ) → peek {A = ℕ} [] a ≡ peek [] b
    empty a b = refl
peek-drop (x ∷ m) (suc k) n = peek-drop m k n ∙ ap (peek (x ∷ m)) shift
  where
    shift : suc (k + n) ≡ suc k + n
    shift = omega arith

-- A string that begins before a zero.
pub c_string-run :
    (m : List ℕ) (k i : ℕ) → k ≤ i → peek m i ≡ some 0 → (s : List ℕ) × (c_string m k ≡ some s)
unfolding c_string
c_string-run m k i h e =
    let (n, run) =
      strlen-run (drop k m) (i - k) (peek-drop m k (i - k) ∙ ap (peek m) (omega arith) ∙ e) in
    (take n (drop k m), rw run refl)

pub lower_name-run :
    (left : ℕ) (m : List ℕ) (k : ℕ)
    → k + left ≤ length m
    → (m' : List ℕ) × (k' : ℕ) × (lower_name left m k ≡ some (m', k'))
      × (length m' ≡ length m)
      × (k ≤ k')
      × (k' ≤ k + left)
unfolding lower_name
lower_name-run zero m k h = (m, k, refl, refl, omega arith, omega arith)
lower_name-run (suc left) m k h =
    let (b, at) = get_elem?-some m k (omega arith) in
    let m1 = set m k (tolower b) in
    let same : length m1 ≡ length m = length-set m k (tolower b) in
    let (m', k', run, long, lower, upper) = lower_name-run left m1 (suc k) (omega arith) in
    elim (Bool-cases (b == b':')) [
      | inl colon ↦ (m, k, rw (at, colon) refl, refl, omega arith, omega arith)
      | inr other ↦ (
        m',
        k',
        rw (at, other, lt→ltb k (length m) (omega arith)) run,
        long ∙ same,
        omega arith,
        omega arith,
      )
    ]

-- The place of the end of a value and of the next line.
pub record Value (m : List ℕ) (e i : ℕ) (r : Option (List ℕ × ℕ × ℕ)) : Type 0 where
  pub memory : List ℕ
  pub end : ℕ
  pub next : ℕ
  pub run : r ≡ some (memory, end, next)
  pub long : length memory ≡ length m
  pub behind : i ≤ end
  pub onwards : end ≤ next
  pub inside : next ≤ e
  pub ended : peek memory end ≡ some 0

pub scan-run :
    (stop : ℕ → Bool) (m : List ℕ) (i e : ℕ)
    → i ≤ e
    → e < length m
    → (k : ℕ) × (scan_rounds stop m (e - i) i ≡ some k) × FirstStop stop m i e k
scan-run stop m i e h room =
    let (k, run, f) = scan_rounds_first stop m (e - i) i (omega arith) in
    let there : i + (e - i) ≡ e = omega arith in
    (k, run, subst (λ x. FirstStop stop m i x k) there f)

-- The value ends here.
last_line :
    (m : List ℕ) (e i end next : ℕ)
    → i ≤ end
    → end ≤ next
    → next ≤ e
    → e < length m
    → Value m e i (poke m end 0 >>= λ m'. some (m', end, next))
last_line m e i end next from on to room = record {
  memory = set m end 0;
  end = end;
  next = next;
  run = rw (lt→ltb end (length m) (omega arith)) refl;
  long = length-set m end 0;
  behind = from;
  onwards = on;
  inside = to;
  ended = get_elem?-set_self m end 0 (omega arith);
}

-- A round that does not end the value gets on.
gets_on :
    {m : List ℕ} {e i end next : ℕ}
    → FirstStop is_eol m i e end
    → FirstStop (λ c. not (is_eol c)) m end e next
    → next < e
    → i < next
gets_on {m} {e} {i} {end} {next} f g h =
    let a = f.from_start in
    let b = g.from_start in
    elim (Bool-cases (ltb i next)) [
      | inl less ↦ ground arith
      | inr same ↦
          let i_end : i ≡ end = ground arith in
          let i_next : i ≡ next = ground arith in
          elim g.found [
            | inl at_end ↦ absurd (omega arith)
            | inr (c, at, other) ↦ elim f.found [
              | inl at_end ↦ absurd (omega arith)
              | inr (c', at', eol) ↦
                  let equal : c ≡ c' =
                    some_inj.0 (sym at ∙ ap (peek m) (sym i_next ∙ i_end) ∙ at') in
                  absurd (opposite (is_eol c) other (ap is_eol equal ∙ eol))
            ]
          ]
    ]
  where
    opposite : (t : Bool) → not t ≡ true → t ≡ true → ⊥
    opposite true a b = cc
    opposite false a b = cc

pub value_rounds-run :
    (left : ℕ) (m : List ℕ) (e i : ℕ)
    → i ≤ e
    → e < left + i
    → e < length m
    → Value m e i (value_rounds left m e i)
unfolding value_rounds
value_rounds-run zero m e i h enough room = absurd (omega arith)
value_rounds-run (suc left) m e i h enough room =
    let (end, run, f) = scan-run is_eol m i e h room in
    let (next, run', g) = scan-run (λ c. not (is_eol c)) m end e f.to_end room in
    let stop = last_line m e i end next f.from_start g.from_start g.to_end room in
    rw (run, run')
      (elim (Bool-cases (ltb next e)) [
        | inr last ↦ rw last stop
        | inl more ↦
            let (c, at) = get_elem?-some m next (omega (arith, g.to_end)) in
            let on = gets_on f g (ground arith) in
            rw (more, at)
              (elim (Bool-cases (c == 32)) [
                | inr other ↦ rw other stop
                | inl blank ↦
                    rw blank
                      (earlier on (value_rounds-run left m e next g.to_end (omega arith) room))
              ])
      ])
  where
    earlier : {next : ℕ} {r : Option (List ℕ × ℕ × ℕ)} → i < next → Value m e next r → Value m e i r
    earlier lt v =
        let behind = v.behind in
        record {
          memory = v.memory;
          end = v.end;
          next = v.next;
          run = v.run;
          long = v.long;
          behind = omega arith;
          onwards = v.onwards;
          inside = v.inside;
          ended = v.ended;
        }
