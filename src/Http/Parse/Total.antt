-- ===== src/Http/Parse/Total.antt =====
-- `http_request_check` of supp_src/lib_httpd.c stays inside the memory.
use cosimus.Base.{
  ℕ, zero, suc, ◌+◌, ◌≤◌, ◌<◌, ◌≡◌, refl, sym, ap, subst, ◌∙◌, inl, inr, Bool, true, false, ◌&&◌,
  Option, none, some, List, [], ◌∷◌, length, length-set, take, set, take-set_same, take-take,
  get_elem?-set_self, length-take_le, Bool-cases, ◌==◌, lt→ltb, ◌>>=◌, arith,
}
use mathlib.Core.Option.{some_inj}
use cosimus.Dbuf.{Dbuf}
use cosimus.Dbuf.Grow.{IsDbuf, content}
use cosimus.Http.{
  AppdataHttp, Request, req_unknown, req_incomplete, req_get, req_post, req_connect, get_, post_,
  connect_,
}
use cosimus.Http.Parse.{
  Outside, parse_request, cut_request, after_check, http_request_check, check_rounds,
}
use cosimus.Http.Parse.Blank.{empty_line, blank_line, later, check_rounds-blank_line}
use cosimus.Http.Parse.Words.{has_text-run}
use cosimus.Http.Parse.Ends.{Plain, IsCut, Returns, parse_as-run}
use cosimus.Http.Parse.Body.{Allocates, Reallocates, Ready}

get_-Plain : Plain get_
get_-Plain = ((omega arith), ((omega arith), ((omega arith), ((omega arith), tt))))

post_-Plain : Plain post_
post_-Plain =
    ((omega arith), ((omega arith), ((omega arith), ((omega arith), ((omega arith), tt)))))

connect_-Plain : Plain connect_
connect_-Plain = (
  (omega arith),
  (
    (omega arith),
    (
      (omega arith),
      ((omega arith), ((omega arith), ((omega arith), ((omega arith), ((omega arith), tt))))),
    ),
  ),
)

parse_request-run :
    (out : Outside) (d : Dbuf) (old : ℕ) (ad : AppdataHttp)
    → ((n : ℕ) → length (out.stack n) ≡ n)
    → Allocates out
    → Reallocates out
    → IsCut d
    → old ≤ length d.buf
    → Ready ad
    → Returns (parse_request out d old ad)
unfolding parse_request
parse_request-run out d old ad stacked allocates reallocates c whole ready =
    let (is_get, run, fits) = has_text-run d.buf get_ d.dsize c.ended get_-Plain in
    let (is_post, run', fits') = has_text-run d.buf post_ d.dsize c.ended post_-Plain in
    let (is_connect, run'', fits'') = has_text-run d.buf connect_ d.dsize c.ended connect_-Plain in
    rw (run, run', run'')
      (elim (Bool-cases is_get) [
        | inl e ↦ rw e (
            parse_as-run out stacked allocates reallocates req_get d 4 old ad c (fits e) whole
              ready)
        | inr e ↦ rw e (elim (Bool-cases is_post) [
          | inl e' ↦ rw e' (
              parse_as-run out stacked allocates reallocates req_post d 5 old ad c (fits' e') whole
                ready)
          | inr e' ↦ rw e' (elim (Bool-cases is_connect) [
            | inl e'' ↦ rw e'' (
                parse_as-run out stacked allocates reallocates req_connect d 8 old ad c (fits'' e'')
                  whole ready)
            | inr e'' ↦ ((req_unknown, ad), rw e'' refl)
          ])
        ])
      ])

blank_line-inside : (xs : List ℕ) (i : ℕ) → blank_line xs ≡ some i → i + 1 < length xs
unfolding blank_line
blank_line-inside [] i e = absurd cc
blank_line-inside (c ∷ xs) i e = elim (Bool-cases (c == 10 && empty_line xs)) [
  | inl here ↦ first xs here (some_inj.0 (rw here at e))
  | inr not_here ↦ further (blank_line xs) (λ k. blank_line-inside xs k) (rw not_here at e)
]
  where
    first : (xs : List ℕ) → (c == 10 && empty_line xs) ≡ true → 0 ≡ i → i + 1 < suc (length xs)
    first [] hit z = absurd (no_line (c == 10) hit)
      where
        no_line : (b : Bool) → (b && false) ≡ true → ⊥
        no_line true h = cc
        no_line false h = cc
    first (b ∷ ys) hit z = omega (arith, z)

    further :
        (o : Option ℕ)
        → ((k : ℕ) → o ≡ some k → k + 1 < length xs)
        → later 1 o ≡ some i
        → i + 1 < suc (length xs)
    further none inside e = absurd cc
    further (some k) inside e = omega (arith, inside k refl, some_inj.0 e)

Plain-take : (n : ℕ) (xs : List ℕ) → Plain xs → Plain (take n xs)
Plain-take zero xs p = tt
Plain-take (suc n) [] p = tt
Plain-take (suc n) (x ∷ xs) (ne, p) = (ne, Plain-take n xs p)

cut_request-IsCut :
    {d : Dbuf} (offs : ℕ)
    → IsDbuf d
    → Plain (content d)
    → offs + 1 < d.dsize
    → (d' : Dbuf) × (cut_request d offs ≡ some d') × IsCut d' × (length d'.buf ≡ length d.buf)
unfolding cut_request
cut_request-IsCut {d} offs v plain h =
    let m = set d.buf (offs + 1) 0 in
    let long : length m ≡ length d.buf = length-set d.buf (offs + 1) 0 in
    let inside : offs + 1 < length d.buf = omega (arith, v.sized, v.fits) in
    let same : take (offs + 1) m ≡ take (offs + 1) (content d) =
      take-set_same d.buf (offs + 1) 0 ∙ sym (take-take (offs + 1) d.dsize d.buf (omega arith)) in
    (
      record d { buf = m; dsize = offs + 1 },
      rw (lt→ltb (offs + 1) (length d.buf) inside) refl,
      record {
        valid = record {
          signed = v.signed;
          saved = v.saved;
          sized = v.sized ∙ sym long;
          fits = omega (arith, v.fits);
          grows = v.grows;
        };
        room = omega arith;
        plain = subst Plain (sym same) (Plain-take (offs + 1) (content d) plain);
        ended = get_elem?-set_self d.buf (offs + 1) 0 inside;
      },
      long,
    )

-- On a valid buffer without a zero byte, `http_request_check` returns: neither the search for the end of
-- the request nor its parsing, the body included, leaves the memory. `alloca` and `dalloc` give what is
-- asked for; `realloc` gives nothing or what is asked for; and if the length of a body is known from
-- before, there is a buffer for it with a free byte.
pub http_request_check-total :
    (out : Outside) (d : Dbuf) (ad : AppdataHttp)
    → ((n : ℕ) → length (out.stack n) ≡ n)
    → Allocates out
    → Reallocates out
    → ad.rdb ≡ some d
    → IsDbuf d
    → Plain (content d)
    → Ready ad
    → (kind : Request) × (ad' : AppdataHttp) × (http_request_check out ad ≡ some (kind, ad'))
unfolding http_request_check after_check
http_request_check-total out d ad stacked allocates reallocates here v plain ready =
    let run : http_request_check out ad ≡ after_check out d ad (blank_line (content d)) =
      ap (λ o. o >>= λ d. check_rounds (suc d.dsize) d 0 >>= after_check out d ad) here
      ∙ ap (λ o. o >>= after_check out d ad) (check_rounds-blank_line v) in
    let ((kind, ad'), ran) = from (blank_line (content d)) (blank_line-inside (content d)) in
    (kind, ad', run ∙ ran)
  where
    from :
        (ends : Option ℕ)
        → ((i : ℕ) → ends ≡ some i → i + 1 < length (content d))
        → Returns (after_check out d ad ends)
    from none inside = ((req_incomplete, ad), refl)
    from (some offs) inside =
        let long : length (content d) ≡ d.dsize =
          length-take_le d.dsize d.buf (omega (arith, v.sized, v.fits)) in
        let (d', run, cut, whole) =
          cut_request-IsCut offs v plain (omega (arith, inside offs refl)) in
        rw run (
          parse_request-run out d' d.dsize (record ad { rdb = some d' }) stacked allocates
            reallocates cut (omega (arith, whole, v.sized, v.fits)) ready)
