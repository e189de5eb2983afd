-- ===== src/Http/Parse.antt =====
-- `http_parse_headers` and `http_request_check` of supp_src/lib_httpd.c.
-- `stack` is what stands in the memory of `alloca`, `atoi` the C library's function, with its result as
-- an unsigned number, and `buffer` answers `dalloc`. `malloc` and `strdup` are taken to find memory.
pub mod Keeps
pub mod Blank
pub mod Value
pub mod Headers
pub mod Words
pub mod Body
pub mod Ends
pub mod Total
pub mod Path
use cosimus.Base.{
  ℕ, zero, suc, ◌+◌, ◌-◌, ◌≤◌, Bool, true, false, not, ◌&&◌, ◌||◌, Option, none, some, List, [],
  ◌∷◌, ◌++◌, length, take, drop, peek, poke, poke_all, peek_all, ltb, leb, ◌==◌, if◌then◌else◌,
  ◌>>=◌, ℤ, pos,
}
use cosimus.Dbuf.{Block, Dbuf}
use cosimus.Dbuf.Append.{strlen, cat_delta, dstrcat}
use cosimus.Dbuf.Scan.{dmemscan, scan_rounds, tolower}
use cosimus.Http.{
  L7State, Request, AppdataHttp, req_incomplete, req_unknown, req_get, req_post, req_connect,
  isblank_x, isspace, is_eol, begins_with, has_text, get_, post_, connect_, http_1_, referer_key,
  content_type_key, content_length_key, same_text,
}

-- What the parser gets from outside. `realloc` answers for a buffer and the size that is asked for.
pub record Outside : Type 0 where
  pub stack : ℕ → List ℕ
  pub atoi : List ℕ → ℕ
  pub buffer : ℕ → Option Dbuf
  pub realloc : Dbuf → ℕ → Option Block
  pub spare : Option Block

-- The answer of `realloc` when `dstrcat` adds `n` bytes to the buffer `t`.
abbrev pub for_cat : Outside → Dbuf → ℕ → Option Block
for_cat out t n = out.realloc t (t.size + cat_delta t n)

-- The string that begins at `m[k]`.
unfoldable pub c_string : List ℕ → ℕ → Option (List ℕ)
c_string m k = strlen (drop k m) >>= λ n. some (take n (drop k m))

-- The copy of the string of `buf` in `n` bytes of `stack`.
unfoldable pub copied : List ℕ → List ℕ → Option (List ℕ)
copied buf stack = strlen buf >>= λ n. peek_all buf 0 (n + 1) >>= λ bytes. poke_all stack 0 bytes

-- The loop over a header's name, up to the colon: it becomes lower case.
unfoldable pub lower_name : ℕ → List ℕ → ℕ → Option (List ℕ × ℕ)
lower_name zero m k = some (m, k)
lower_name (suc left) m k = peek m k >>= λ b.
    let rest = poke m k (tolower b) >>= λ m'. lower_name left m' (suc k) in
    if b == b':' then some (m, k) else rest

-- The `do` loop over a value and its continuation lines, for so many rounds at most: the memory, the
-- end of the value, and the next line.
unfoldable pub value_rounds : ℕ → List ℕ → ℕ → ℕ → Option (List ℕ × ℕ × ℕ)
value_rounds zero m e i = none
value_rounds (suc left) m e i = do
  end ← scan_rounds is_eol m (e - i) i
  next ← scan_rounds (λ c. not (is_eol c)) m (e - end) end
  (if ltb next e
      then (peek m next >>= λ c.
          let rest = value_rounds left m e next in
          if c == 32 then rest else (poke m end 0 >>= λ m'. some (m', end, next)))
      else (poke m end 0 >>= λ m'. some (m', end, next)))

-- The fields that a header sets.
unfoldable pub with_header : Outside → List ℕ → List ℕ → AppdataHttp → AppdataHttp
with_header out key val ad =
    if same_text key referer_key
    then record ad { http_referer = some val }
    else (if same_text key content_type_key
        then record ad { content_type = some val }
        else (if same_text key content_length_key
            then record ad {
              post_content_length = out.atoi val;
              post_content_got_length = 0;
              post_content_buf = out.buffer (out.atoi val);
            }
            else ad))

-- The value of the header whose name is at `j` and ends with the colon at `k`.
unfoldable pub header_value :
    Outside → List ℕ → ℕ → ℕ → ℕ → AppdataHttp → Option (Option (List ℕ × ℕ × AppdataHttp))
header_value out m e j k ad = do
  m2 ← poke m k 0
  v ← scan_rounds (λ c. not (not (c == 0) && isblank_x c)) m2 (e - suc k) (suc k)
  (m3, end, next) ← value_rounds (suc e) m2 e v
  (if ltb end e
      then (c_string m3 j >>= λ key.
          c_string m3 v >>= λ val. some (some (m3, next, with_header out key val ad)))
      else some none)

-- One header that begins at `j`: the memory, where the next one begins, and the fields; or `none` for
-- `return 0`.
unfoldable pub one_header :
    Outside → List ℕ → ℕ → ℕ → AppdataHttp → Option (Option (List ℕ × ℕ × AppdataHttp))
one_header out m e j ad = lower_name (e - j) m j >>= λ (m1, k).
    if ltb k e then header_value out m1 e j k ad else some (some (m1, k, ad))

-- The loop over the headers, for so many rounds at most: what `http_parse_headers` goes on with.
unfoldable pub header_rounds :
    Outside → ℕ → List ℕ → ℕ → ℕ → AppdataHttp → Option (Bool × AppdataHttp)
header_rounds out zero m e j ad = none
header_rounds out (suc left) m e j ad =
    let rest = one_header out m e j ad >>= λ done. elim done [
      | none ↦ some (false, ad)
      | some (m', next, ad') ↦ header_rounds out left m' e next ad'
    ] in
    if ltb j e then rest else some (true, ad)

-- The bytes of the body that came with the headers: from `start` on, no more than are wanted.
unfoldable pub body_length : AppdataHttp → ℕ → ℕ → ℕ
body_length ad start old_dsize =
    let there = old_dsize - start in
    let wanted = ad.post_content_length - ad.post_content_got_length in
    if leb there wanted then there else wanted

unfoldable pub add_body : Outside → List ℕ → AppdataHttp → Option AppdataHttp
add_body out [] ad = some ad
add_body out (b ∷ body) ad = ad.post_content_buf >>= λ t.
    dstrcat (for_cat out t (suc (length body))) out.spare t (b ∷ body) (pos (suc (length body)))
    >>= λ (ok, t'). some (record ad { post_content_buf = some t' })

-- The body is taken to begin two bytes behind the headers.
unfoldable pub take_body : Outside → Dbuf → ℕ → AppdataHttp → Option AppdataHttp
take_body out d old_dsize ad =
    let start = d.dsize + 2 in
    let n = body_length ad start old_dsize in
    if ad.post_content_length == 0
    then some ad
    else (peek_all d.buf start n >>= λ body.
        add_body out body (record ad { post_content_got_length = ad.post_content_got_length + n }))

-- The path and the query, `j` being the place of the question mark or of the blank.
unfoldable pub with_path : List ℕ → ℕ → ℕ → ℕ → AppdataHttp → Option AppdataHttp
with_path m start i j ad =
    if ltb j i
    then (peek_all m (suc j) (i - j - 1) >>= λ query. peek_all m start (j - start) >>= λ path.
        some (record ad { http_querystring = some query; http_path = some path }))
    else (peek_all m start (i - start) >>= λ path.
        some (record ad { http_querystring = none; http_path = some path }))

-- From the protocol on: `j` is the place behind the blank.
unfoldable pub parse_version :
    Outside → Dbuf → ℕ → List ℕ → ℕ → AppdataHttp → Option (Bool × AppdataHttp)
parse_version out d old_dsize m j ad = do
  version ← peek m (j + 7)
  let ad1 = if version == b'1' then record ad { http_11 = true } else ad
  first ← scan_rounds (λ c. not (isspace c)) m (d.dsize - (j + 8)) (j + 8)
  (ok, ad2) ← header_rounds out (suc d.dsize) m d.dsize first ad1
  (if ok then (take_body out d old_dsize ad2 >>= λ ad3. some (true, ad3)) else some (false, ad2))

unfoldable pub parse_protocol :
    Outside → Dbuf → ℕ → List ℕ → ℕ → AppdataHttp → Option (Bool × AppdataHttp)
parse_protocol out d old_dsize m j ad = begins_with m j http_1_ >>= λ is_http.
    if is_http then parse_version out d old_dsize m j ad else some (false, ad)

-- The search for the `h` of the protocol, from the blank on.
abbrev pub stops_h : ℕ → Bool
stops_h c = tolower c == b'h' || is_eol c

unfoldable pub parse_uri :
    Outside → Dbuf → ℕ → List ℕ → ℕ → ℕ → AppdataHttp → Option (Bool × AppdataHttp)
parse_uri out d old_dsize m start i ad = do
  j ← dmemscan d (pos b'?') start
  ad1 ← with_path m start i j ad
  h ← scan_rounds stops_h m (d.dsize - i) i
  (if ltb h d.dsize then parse_protocol out d old_dsize m (suc i) ad1 else some (false, ad1))

-- `http_parse_headers(idx, start, old_dsize)` on the buffer `d`.
unfoldable pub http_parse_headers :
    Outside → Dbuf → ℕ → ℕ → AppdataHttp → Option (Bool × AppdataHttp)
http_parse_headers out d start old_dsize ad = dmemscan d (pos 32) start >>= λ i.
    if ltb i d.dsize
    then (copied d.buf (out.stack (d.dsize + 1)) >>= λ m. parse_uri out d old_dsize m start i ad)
    else some (false, ad)

unfoldable pub parse_as :
    Outside → Request → Dbuf → ℕ → ℕ → AppdataHttp → Option (Request × AppdataHttp)
parse_as out kind d start old_dsize ad =
    http_parse_headers out d start old_dsize ad >>= λ (ok, ad').
    some (if ok then (kind, ad') else (req_unknown, ad'))

-- The kind of a complete request is told by the first of the three words that it has anywhere.
unfoldable pub parse_request : Outside → Dbuf → ℕ → AppdataHttp → Option (Request × AppdataHttp)
parse_request out d old_dsize ad = has_text d.buf get_ >>= λ is_get.
    if is_get
    then parse_as out req_get d 4 old_dsize ad
    else (has_text d.buf post_ >>= λ is_post.
        if is_post
        then parse_as out req_post d 5 old_dsize ad
        else (has_text d.buf connect_ >>= λ is_connect.
            if is_connect
            then parse_as out req_connect d 8 old_dsize ad
            else some (req_unknown, ad)))

-- Whether the line feed at `offs` is followed by an empty line.
unfoldable pub ends_here : Dbuf → ℕ → Option Bool
ends_here d offs = peek d.buf (offs + 1) >>= λ b.
    if b == 10
    then some true
    else (if ltb (offs + 2) d.dsize && b == 13
        then (peek d.buf (offs + 2) >>= λ c. some (c == 10))
        else some false)

-- The loop of `http_request_check` from `start` on, for so many rounds at most: where the request
-- ends, if it does.
unfoldable pub check_rounds : ℕ → Dbuf → ℕ → Option (Option ℕ)
check_rounds zero d start = none
check_rounds (suc left) d start = dmemscan d (pos 10) start >>= λ offs.
    let rest = ends_here d offs >>= λ ends.
    let more = check_rounds left d (suc offs) in if ends then some (some offs) else more in
    if leb (offs + 2) d.dsize then rest else some none

-- The buffer cut behind the line feed at `offs`, with a zero there.
unfoldable pub cut_request : Dbuf → ℕ → Option Dbuf
cut_request d offs = poke d.buf (offs + 1) 0 >>= λ m. some (record d { buf = m; dsize = offs + 1 })

unfoldable pub after_check :
    Outside → Dbuf → AppdataHttp → Option ℕ → Option (Request × AppdataHttp)
after_check out d ad none = some (req_incomplete, ad)
after_check out d ad (some offs) =
    cut_request d offs >>= λ d'. parse_request out d' d.dsize (record ad { rdb = some d' })

-- `http_request_check(idx)`
unfoldable pub http_request_check : Outside → AppdataHttp → Option (Request × AppdataHttp)
http_request_check out ad = ad.rdb >>= λ d. check_rounds (suc d.dsize) d 0 >>= after_check out d ad
