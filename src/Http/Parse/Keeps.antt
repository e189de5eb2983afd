-- ===== src/Http/Parse/Keeps.antt =====
-- What `http_request_check` of supp_src/lib_httpd.c leaves as it is: the state of the connection and
-- its dispatcher.
use cosimus.Base.{
  Always, Always-bind, Always-then, Always-if, Always-weaken, either, ℕ, zero, suc, ◌+◌, ◌-◌, ◌≡◌,
  refl, ◌∙◌, Bool, true, false, Option, none, some, List, [], ◌∷◌, length, ltb, ◌==◌, not, ◌&&◌,
  if◌then◌else◌, peek, peek_all, poke, pos,
}
use cosimus.Dbuf.{Dbuf}
use cosimus.Dbuf.Append.{dstrcat}
use cosimus.Dbuf.Scan.{scan_rounds, dmemscan}
use cosimus.Http.{
  isblank_x, isspace, http_1_, get_, post_, connect_, begins_with, has_text, Request, AppdataHttp,
  req_get, req_post, req_connect, same_text, referer_key, content_type_key, content_length_key,
}
use cosimus.Http.Parse.{
  Outside, for_cat, c_string, copied, stops_h, check_rounds, cut_request, value_rounds, with_header,
  header_value, one_header, header_rounds, body_length, add_body, take_body, with_path,
  parse_version, parse_protocol, parse_uri, http_parse_headers, parse_as, parse_request,
  after_check, http_request_check,
}

abbrev pub is_some {ℓ} : {A : Type ℓ} → Option A → Bool
is_some none = false
is_some (some a) = true

-- There is a path.
abbrev pub HasPath : AppdataHttp → Type 0
HasPath ad = is_some ad.http_path ≡ true

-- Two fields are those of `ad`, and a path that is there stays.
pub record Keeps (ad ad' : AppdataHttp) : Type 0 where
  pub state : ad'.l7state ≡ ad.l7state
  pub chooser : ad'.dispatcher ≡ ad.dispatcher
  pub path : HasPath ad → HasPath ad'

pub Keeps-same : {ad : AppdataHttp} → Keeps ad ad
Keeps-same = record { state = refl; chooser = refl; path = λ h. h }

Keeps-then : {a b c : AppdataHttp} → Keeps a b → Keeps b c → Keeps a c
Keeps-then p q = record {
  state = q.state ∙ p.state;
  chooser = q.chooser ∙ p.chooser;
  path = λ h. q.path (p.path h);
}

abbrev kept :
    {ad ad' : AppdataHttp}
    → ad'.l7state ≡ ad.l7state
    → ad'.dispatcher ≡ ad.dispatcher
    → (HasPath ad → HasPath ad')
    → Keeps ad ad'
kept p q r = record { state = p; chooser = q; path = r }

with_header-Keeps :
    (out : Outside) (key val : List ℕ) (ad : AppdataHttp) → Keeps ad (with_header out key val ad)
unfolding with_header
with_header-Keeps out key val ad =
    either (Keeps ad) (same_text key referer_key) _ _ (kept refl refl (λ h. h)) (
      either (Keeps ad) (same_text key content_type_key) _ _ (kept refl refl (λ h. h)) (
        either (Keeps ad) (same_text key content_length_key) _ _ (kept refl refl (λ h. h))
          Keeps-same))

abbrev OneKeeps : AppdataHttp → Option (List ℕ × ℕ × AppdataHttp) → Type 0
OneKeeps ad none = Unit
OneKeeps ad (some (m, j, ad')) = Keeps ad ad'

header_value-Keeps :
    (out : Outside) (m : List ℕ) (e j k : ℕ) (ad : AppdataHttp)
    → Always (OneKeeps ad) (header_value out m e j k ad)
unfolding header_value
header_value-Keeps out m e j k ad = Always-bind (OneKeeps ad) (poke m k 0) _ (λ m2.
    Always-bind (OneKeeps ad)
      (scan_rounds (λ c. not (not (c == 0) && isblank_x c)) m2 (e - suc k) (suc k)) _
      (λ v. Always-bind (OneKeeps ad) (value_rounds (suc e) m2 e v) _ (λ (m3, end, next).
        Always-if (OneKeeps ad) (ltb end e) _ _
          (Always-bind (OneKeeps ad) (c_string m3 j) _ (λ key.
            Always-bind (OneKeeps ad) (c_string m3 v) _ (λ val. with_header-Keeps out key val ad)))
          tt)))

one_header-Keeps :
    (out : Outside) (m : List ℕ) (e j : ℕ) (ad : AppdataHttp)
    → Always (OneKeeps ad) (one_header out m e j ad)
unfolding one_header
one_header-Keeps out m e j ad = Always-bind (OneKeeps ad) _ _ (λ (m1, k).
    Always-if (OneKeeps ad) (ltb k e) _ _ (header_value-Keeps out m1 e j k ad) Keeps-same)

-- A result whose second part is the application data.
abbrev pub SndKeeps {ℓ} : {A : Type ℓ} → AppdataHttp → A × AppdataHttp → Type 0
SndKeeps ad (a, ad') = Keeps ad ad'

SndKeeps-then {ℓ} :
    {A : Type ℓ} (a b : AppdataHttp) (o : Option (A × AppdataHttp))
    → Keeps a b
    → Always (SndKeeps b) o
    → Always (SndKeeps a) o
SndKeeps-then a b o h = Always-weaken (SndKeeps b) (SndKeeps a) o (λ r q. Keeps-then h q)

header_rounds-Keeps :
    (out : Outside) (left : ℕ) (m : List ℕ) (e j : ℕ) (ad : AppdataHttp)
    → Always (SndKeeps ad) (header_rounds out left m e j ad)
unfolding header_rounds
header_rounds-Keeps out zero m e j ad = tt
header_rounds-Keeps out (suc left) m e j ad =
    Always-if (SndKeeps ad) (ltb j e) _ _
      (Always-then (OneKeeps ad) (SndKeeps ad) (one_header out m e j ad) _
        (one_header-Keeps out m e j ad)
        (next (λ m' n ad'. header_rounds-Keeps out left m' e n ad')))
      Keeps-same
  where
    next :
        ((m' : List ℕ) (n : ℕ) (ad' : AppdataHttp)
          → Always (SndKeeps ad') (header_rounds out left m' e n ad'))
        → (done : Option (List ℕ × ℕ × AppdataHttp)) → OneKeeps ad done
        → Always (SndKeeps ad) (elim done [
          | none ↦ some (false, ad)
          | some (m', n, ad') ↦ header_rounds out left m' e n ad'
        ])
    next ih none q = Keeps-same
    next ih (some (m', n, ad')) q =
        SndKeeps-then ad ad' (header_rounds out left m' e n ad') q (ih m' n ad')

add_body-Keeps :
    (out : Outside) (body : List ℕ) (ad : AppdataHttp) → Always (Keeps ad) (add_body out body ad)
unfolding add_body
add_body-Keeps out [] ad = Keeps-same
add_body-Keeps out (b ∷ body) ad = Always-bind (Keeps ad) ad.post_content_buf _ (λ t.
    Always-bind (Keeps ad)
      (dstrcat (for_cat out t (suc (length body))) out.spare t (b ∷ body) (pos (suc (length body))))
      _ (λ r. kept refl refl (λ h. h)))

take_body-Keeps :
    (out : Outside) (d : Dbuf) (old : ℕ) (ad : AppdataHttp)
    → Always (Keeps ad) (take_body out d old ad)
unfolding take_body
take_body-Keeps out d old ad =
    let start = d.dsize + 2 in
    let n = body_length ad start old in
    let ad1 = record ad { post_content_got_length = ad.post_content_got_length + n } in
    Always-if (Keeps ad) (ad.post_content_length == 0) _ _ Keeps-same (
      Always-bind (Keeps ad) (peek_all d.buf start n) _ (λ body.
        Always-weaken (Keeps ad1) (Keeps ad) (add_body out body ad1)
          (λ ad2 q. Keeps-then (kept refl refl (λ h. h)) q) (add_body-Keeps out body ad1)))

with_path-Keeps :
    (m : List ℕ) (start i j : ℕ) (ad : AppdataHttp) → Always (Keeps ad) (with_path m start i j ad)
unfolding with_path
with_path-Keeps m start i j ad =
    Always-if (Keeps ad) (ltb j i) _ _
      (Always-bind (Keeps ad) (peek_all m (suc j) (i - j - 1)) _ (λ query.
        Always-bind (Keeps ad) (peek_all m start (j - start)) _
          (λ path. kept refl refl (λ h. refl))))
      (Always-bind (Keeps ad) (peek_all m start (i - start)) _ (λ path. kept refl refl (λ h. refl)))

parse_version-Keeps :
    (out : Outside) (d : Dbuf) (old : ℕ) (m : List ℕ) (j : ℕ) (ad : AppdataHttp)
    → Always (SndKeeps ad) (parse_version out d old m j ad)
unfolding parse_version
parse_version-Keeps out d old m j ad = Always-bind (SndKeeps ad) (peek m (j + 7)) _ (λ version.
    let ad1 = if version == b'1' then record ad { http_11 = true } else ad in
    let start : Keeps ad ad1 =
      either (Keeps ad) (version == b'1') _ _ (kept refl refl (λ h. h)) Keeps-same in
    Always-bind (SndKeeps ad) (scan_rounds (λ c. not (isspace c)) m (d.dsize - (j + 8)) (j + 8)) _
      (λ first.
        Always-then (SndKeeps ad1) (SndKeeps ad)
          (header_rounds out (suc d.dsize) m d.dsize first ad1) _
          (header_rounds-Keeps out (suc d.dsize) m d.dsize first ad1)
          (λ (ok, ad2) q.
            Always-if (SndKeeps ad) ok _ _
              (Always-then (Keeps ad2) (SndKeeps ad) (take_body out d old ad2) _
                (take_body-Keeps out d old ad2) (λ ad3 r. Keeps-then start (Keeps-then q r)))
              (Keeps-then start q))))

pub parse_protocol-Keeps :
    (out : Outside) (d : Dbuf) (old : ℕ) (m : List ℕ) (j : ℕ) (ad : AppdataHttp)
    → Always (SndKeeps ad) (parse_protocol out d old m j ad)
unfolding parse_protocol
parse_protocol-Keeps out d old m j ad =
    Always-bind (SndKeeps ad) (begins_with m j http_1_) _ (λ is_http.
      Always-if (SndKeeps ad) is_http _ _ (parse_version-Keeps out d old m j ad) Keeps-same)

pub parse_uri-Keeps :
    (out : Outside) (d : Dbuf) (old : ℕ) (m : List ℕ) (start i : ℕ) (ad : AppdataHttp)
    → Always (SndKeeps ad) (parse_uri out d old m start i ad)
unfolding parse_uri
parse_uri-Keeps out d old m start i ad =
    Always-bind (SndKeeps ad) (dmemscan d (pos b'?') start) _ (λ j.
      Always-then (Keeps ad) (SndKeeps ad) (with_path m start i j ad) _
        (with_path-Keeps m start i j ad)
        (λ ad1 q. Always-bind (SndKeeps ad) (scan_rounds stops_h m (d.dsize - i) i) _ (λ h.
          Always-if (SndKeeps ad) (ltb h d.dsize) _ _
            (SndKeeps-then ad ad1 (parse_protocol out d old m (suc i) ad1) q
              (parse_protocol-Keeps out d old m (suc i) ad1))
            q)))

http_parse_headers-Keeps :
    (out : Outside) (d : Dbuf) (start old : ℕ) (ad : AppdataHttp)
    → Always (SndKeeps ad) (http_parse_headers out d start old ad)
unfolding http_parse_headers
http_parse_headers-Keeps out d start old ad =
    Always-bind (SndKeeps ad) (dmemscan d (pos 32) start) _ (λ i.
      Always-if (SndKeeps ad) (ltb i d.dsize) _ _
        (Always-bind (SndKeeps ad) (copied d.buf (out.stack (d.dsize + 1))) _
          (λ m. parse_uri-Keeps out d old m start i ad))
        Keeps-same)

parse_as-Keeps :
    (out : Outside) (kind : Request) (d : Dbuf) (start old : ℕ) (ad : AppdataHttp)
    → Always (SndKeeps ad) (parse_as out kind d start old ad)
unfolding parse_as
parse_as-Keeps out kind d start old ad =
    Always-then (SndKeeps ad) (SndKeeps ad) (http_parse_headers out d start old ad) _
      (http_parse_headers-Keeps out d start old ad) (λ (ok, ad') q. either (SndKeeps ad) ok _ _ q q)

parse_request-Keeps :
    (out : Outside) (d : Dbuf) (old : ℕ) (ad : AppdataHttp)
    → Always (SndKeeps ad) (parse_request out d old ad)
unfolding parse_request
parse_request-Keeps out d old ad = Always-bind (SndKeeps ad) (has_text d.buf get_) _ (λ is_get.
    Always-if (SndKeeps ad) is_get _ _ (parse_as-Keeps out req_get d 4 old ad) (
      Always-bind (SndKeeps ad) (has_text d.buf post_) _ (λ is_post.
        Always-if (SndKeeps ad) is_post _ _ (parse_as-Keeps out req_post d 5 old ad) (
          Always-bind (SndKeeps ad) (has_text d.buf connect_) _ (λ is_connect.
            Always-if (SndKeeps ad) is_connect _ _ (parse_as-Keeps out req_connect d 8 old ad)
              Keeps-same)))))

pub http_request_check-Keeps :
    (out : Outside) (ad : AppdataHttp) → Always (SndKeeps ad) (http_request_check out ad)
unfolding http_request_check after_check
http_request_check-Keeps out ad =
    Always-bind (SndKeeps ad) ad.rdb _
      (λ d. Always-bind (SndKeeps ad) (check_rounds (suc d.dsize) d 0) _ (found d))
  where
    found : (d : Dbuf) (ends : Option ℕ) → Always (SndKeeps ad) (after_check out d ad ends)
    found d none = Keeps-same
    found d (some offs) = Always-bind (SndKeeps ad) (cut_request d offs) _ (λ d'.
        SndKeeps-then ad (record ad { rdb = some d' })
          (parse_request out d' d.dsize (record ad { rdb = some d' })) (kept refl refl (λ h. h))
          (parse_request-Keeps out d' d.dsize (record ad { rdb = some d' })))
