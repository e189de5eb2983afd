-- ===== src/Http/Parse/Ends.antt =====
-- From the path of a request on, the parser of supp_src/lib_httpd.c stays inside the memory.
use cosimus.Base.{
  ℕ, suc, ◌+◌, ◌-◌, ◌≤◌, ◌<◌, ◌≡◌, ◌≢◌, refl, ◌∙◌, inl, inr, true, false, not, Option, none, some,
  List, length, take, drop, peek, peek_all-drop, get_elem?-some, get_elem?-take, length-take_le,
  All, Bool-cases, ltb, ◌==◌, if◌then◌else◌, arith, pos, either,
}
use cosimus.Dbuf.{Dbuf}
use cosimus.Dbuf.Grow.{IsDbuf}
use cosimus.Dbuf.Scan.{scan_rounds_first, dmemscan_first}
use cosimus.Http.{AppdataHttp, Request, req_unknown, http_1_, isspace}
use cosimus.Http.Parse.{
  Outside, with_path, parse_version, parse_protocol, stops_h, parse_uri, http_parse_headers,
  parse_as,
}
use cosimus.Http.Parse.Value.{scan-run}
use cosimus.Http.Parse.Headers.{header_rounds-run}
use cosimus.Http.Parse.Body.{Allocates, Reallocates, Ready, with_header-Ready, take_body-run}
use cosimus.Http.Parse.Words.{begins_with-run, copied-run}

-- No byte is zero.
abbrev pub Plain : List ℕ → Type 0
Plain m = All (λ c. c ≢ 0) m

-- A buffer with a zero behind its data, and none in it.
pub record IsCut (d : Dbuf) : Type 0 where
  pub valid : IsDbuf d
  pub room : d.dsize < length d.buf
  pub plain : Plain (take d.dsize d.buf)
  pub ended : peek d.buf d.dsize ≡ some 0

-- A step has a result.
abbrev pub Returns : {A : Type 0} → Option A → Type 0
Returns {A} r = (x : A) × (r ≡ some x)

with_path-run :
    (m : List ℕ) (start i j : ℕ) (ad : AppdataHttp)
    → start ≤ i
    → i < length m
    → Ready ad
    → (ad' : AppdataHttp) × (with_path m start i j ad ≡ some ad') × Ready ad'
unfolding with_path
with_path-run m start i j ad h room ready = elim (Bool-cases (ltb j i)) [
  | inl query ↦ (
    record ad {
      http_querystring = some (take (i - j - 1) (drop (suc j) m));
      http_path = some (take (j - start) (drop start m));
    },
    rw
        (
          query,
          peek_all-drop m (suc j) (i - j - 1) (ground arith),
          peek_all-drop m start (j - start) (ground arith),
        )
        refl,
    ready,
  )
  | inr all ↦ (
    record ad { http_querystring = none; http_path = some (take (i - start) (drop start m)) },
    rw (all, peek_all-drop m start (i - start) (omega arith)) refl,
    ready,
  )
]

http_1-Plain : Plain http_1_
http_1-Plain = (
  (omega arith),
  (
    (omega arith),
    ((omega arith), ((omega arith), ((omega arith), ((omega arith), ((omega arith), tt))))),
  ),
)

module _ (out : Outside) (stacked : (n : ℕ) → length (out.stack n) ≡ n) (allocates : Allocates out)
    (reallocates : Reallocates out) where
  parse_version-run :
      (d : Dbuf) (old : ℕ) (m : List ℕ) (j : ℕ) (ad : AppdataHttp)
      → length m ≡ d.dsize + 1
      → j + 7 ≤ d.dsize
      → old ≤ length d.buf
      → Ready ad
      → Returns (parse_version out d old m j ad)
  unfolding parse_version
  parse_version-run d old m j ad long h whole ready =
      let (version, at) = get_elem?-some m (j + 7) (omega arith) in
      let ad1 = if version == b'1' then record ad { http_11 = true } else ad in
      let ready1 : Ready ad1 =
        either Ready (version == b'1') (record ad { http_11 = true }) ad ready ready in
      let (first, run, f) =
        scan_rounds_first (λ c. not (isspace c)) m (d.dsize - (j + 8)) (j + 8) (omega arith) in
      let (ok, ad2, parsed, ready2) =
        header_rounds-run out Ready (suc d.dsize) m d.dsize first ad1
          (with_header-Ready out allocates) ready1 (omega arith) (omega arith) (omega arith) in
      let (ad3, taken) = take_body-run out d old ad2 reallocates ready2 whole in
      rw (at, run, parsed)
        (elim (Bool-cases ok) [
          | inr refused ↦ ((false, ad2), rw refused refl)
          | inl accepted ↦ ((true, ad3), rw (accepted, taken) refl)
        ])

  parse_protocol-run :
      (d : Dbuf) (old : ℕ) (m : List ℕ) (j : ℕ) (ad : AppdataHttp)
      → length m ≡ d.dsize + 1
      → peek m d.dsize ≡ some 0
      → j ≤ d.dsize
      → old ≤ length d.buf
      → Ready ad
      → Returns (parse_protocol out d old m j ad)
  unfolding parse_protocol
  parse_protocol-run d old m j ad long end h whole ready =
      let (b, run, fits) = begins_with-run m j http_1_ d.dsize h end http_1-Plain in
      rw run (elim (Bool-cases b) [
        | inl is_http ↦
            rw is_http
              (parse_version-run d old m j ad long (omega (arith, fits is_http)) whole ready)
        | inr other ↦ ((false, ad), rw other refl)
      ])

  parse_uri-run :
      (d : Dbuf) (old : ℕ) (m : List ℕ) (start i : ℕ) (ad : AppdataHttp)
      → IsDbuf d
      → length m ≡ d.dsize + 1
      → peek m d.dsize ≡ some 0
      → start ≤ i
      → i < d.dsize
      → old ≤ length d.buf
      → Ready ad
      → Returns (parse_uri out d old m start i ad)
  unfolding parse_uri
  parse_uri-run d old m start i ad v long end h inside whole ready =
      let ((j, run, f), other) = dmemscan_first (pos b'?') start v (omega arith) in
      let (ad1, ran, ready1) = with_path-run m start i j ad h (omega arith) ready in
      let (k, scanned, g) = scan-run stops_h m i d.dsize (omega arith) (omega arith) in
      rw (run, ran, scanned)
        (elim (Bool-cases (ltb k d.dsize)) [
          | inl found ↦
              rw found (parse_protocol-run d old m (suc i) ad1 long end (omega arith) whole ready1)
          | inr none_left ↦ ((false, ad1), rw none_left refl)
        ])

  http_parse_headers-run :
      (d : Dbuf) (start old : ℕ) (ad : AppdataHttp)
      → IsCut d
      → start ≤ d.dsize
      → old ≤ length d.buf
      → Ready ad
      → Returns (http_parse_headers out d start old ad)
  unfolding http_parse_headers
  http_parse_headers-run d start old ad c h whole ready =
      let room = c.room in
      let ((i, run, f), other) = dmemscan_first (pos 32) start c.valid h in
      let m = take (d.dsize + 1) d.buf in
      let long : length m ≡ d.dsize + 1 = length-take_le (d.dsize + 1) d.buf (omega arith) in
      let end : peek m d.dsize ≡ some 0 =
        get_elem?-take (d.dsize + 1) d.buf d.dsize (omega arith) ∙ c.ended in
      let copy =
        copied-run d.buf (out.stack (d.dsize + 1)) d.dsize c.plain c.ended room
          (stacked (d.dsize + 1)) in
      rw run (elim (Bool-cases (ltb i d.dsize)) [
        | inl found ↦
            rw (found, copy)
              (parse_uri-run d old m start i ad c.valid long end f.from_start (ground arith) whole
                ready)
        | inr none_left ↦ ((false, ad), rw none_left refl)
      ])

  pub parse_as-run :
      (kind : Request) (d : Dbuf) (start old : ℕ) (ad : AppdataHttp)
      → IsCut d
      → start ≤ d.dsize
      → old ≤ length d.buf
      → Ready ad
      → Returns (parse_as out kind d start old ad)
  unfolding parse_as
  parse_as-run kind d start old ad c h whole ready =
      let ((ok, ad'), run) = http_parse_headers-run d start old ad c h whole ready in
      (if ok then (kind, ad') else (req_unknown, ad'), rw run refl)
