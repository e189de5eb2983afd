-- ===== src/Http/Parse/Path.antt =====
-- A request that `http_request_check` of supp_src/lib_httpd.c has parsed has a path.
use cosimus.Base.{
  ℕ, suc, ◌+◌, ◌-◌, refl, Bool, true, false, Option, none, some, List, ltb, if◌then◌else◌, peek_all,
  pos, Always, Always-bind, Always-then, Always-if, Always-weaken,
}
use cosimus.Dbuf.{Dbuf}
use cosimus.Dbuf.Scan.{scan_rounds, dmemscan}
use cosimus.Http.{
  AppdataHttp, Request, req_incomplete, req_unknown, req_get, req_post, req_connect, has_text, get_,
  post_, connect_,
}
use cosimus.Http.Parse.{
  Outside, copied, stops_h, check_rounds, cut_request, with_path, parse_protocol, parse_uri,
  http_parse_headers, parse_as, parse_request, after_check, http_request_check,
}
use cosimus.Http.Parse.Keeps.{HasPath, SndKeeps, parse_protocol-Keeps}

abbrev OkPath : Bool × AppdataHttp → Type 0
OkPath (true, ad) = HasPath ad
OkPath (false, ad) = Unit

-- What the answer to CONNECT looks at is there.
abbrev pub ConnectPath : Request × AppdataHttp → Type 0
ConnectPath (req_connect, ad) = HasPath ad
ConnectPath (req_incomplete, ad) = Unit
ConnectPath (req_unknown, ad) = Unit
ConnectPath (req_get, ad) = Unit
ConnectPath (req_post, ad) = Unit

with_path-HasPath :
    (m : List ℕ) (start i j : ℕ) (ad : AppdataHttp) → Always HasPath (with_path m start i j ad)
unfolding with_path
with_path-HasPath m start i j ad =
    Always-if HasPath (ltb j i) _ _
      (Always-bind HasPath (peek_all m (suc j) (i - j - 1)) _
        (λ query. Always-bind HasPath (peek_all m start (j - start)) _ (λ path. refl)))
      (Always-bind HasPath (peek_all m start (i - start)) _ (λ path. refl))

parse_uri-OkPath :
    (out : Outside) (d : Dbuf) (old : ℕ) (m : List ℕ) (start i : ℕ) (ad : AppdataHttp)
    → Always OkPath (parse_uri out d old m start i ad)
unfolding parse_uri
parse_uri-OkPath out d old m start i ad = Always-bind OkPath (dmemscan d (pos b'?') start) _ (λ j.
    Always-then HasPath OkPath (with_path m start i j ad) _ (with_path-HasPath m start i j ad)
      (λ ad1 has. Always-bind OkPath (scan_rounds stops_h m (d.dsize - i) i) _ (λ h.
        Always-if OkPath (ltb h d.dsize) _ _
          (Always-weaken (SndKeeps ad1) OkPath (parse_protocol out d old m (suc i) ad1)
            (λ (ok, ad') q. either_way ok ad' (q.path has))
            (parse_protocol-Keeps out d old m (suc i) ad1))
          tt)))
  where
    either_way : (ok : Bool) (ad' : AppdataHttp) → HasPath ad' → OkPath (ok, ad')
    either_way true ad' h = h
    either_way false ad' h = tt

http_parse_headers-OkPath :
    (out : Outside) (d : Dbuf) (start old : ℕ) (ad : AppdataHttp)
    → Always OkPath (http_parse_headers out d start old ad)
unfolding http_parse_headers
http_parse_headers-OkPath out d start old ad =
    Always-bind OkPath (dmemscan d (pos 32) start) _ (λ i.
      Always-if OkPath (ltb i d.dsize) _ _
        (Always-bind OkPath (copied d.buf (out.stack (d.dsize + 1))) _
          (λ m. parse_uri-OkPath out d old m start i ad))
        tt)

parse_as-ConnectPath :
    (out : Outside) (kind : Request) (d : Dbuf) (start old : ℕ) (ad : AppdataHttp)
    → Always ConnectPath (parse_as out kind d start old ad)
unfolding parse_as
parse_as-ConnectPath out kind d start old ad =
    Always-then OkPath ConnectPath (http_parse_headers out d start old ad) _
      (http_parse_headers-OkPath out d start old ad) (λ (ok, ad') q. from ok ad' q)
  where
    of_kind : (k : Request) (ad' : AppdataHttp) → HasPath ad' → ConnectPath (k, ad')
    of_kind req_connect ad' h = h
    of_kind req_incomplete ad' h = tt
    of_kind req_unknown ad' h = tt
    of_kind req_get ad' h = tt
    of_kind req_post ad' h = tt

    from :
        (ok : Bool) (ad' : AppdataHttp)
        → OkPath (ok, ad')
        → ConnectPath (if ok then (kind, ad') else (req_unknown, ad'))
    from true ad' q = of_kind kind ad' q
    from false ad' q = tt

parse_request-ConnectPath :
    (out : Outside) (d : Dbuf) (old : ℕ) (ad : AppdataHttp)
    → Always ConnectPath (parse_request out d old ad)
unfolding parse_request
parse_request-ConnectPath out d old ad = Always-bind ConnectPath (has_text d.buf get_) _ (λ is_get.
    Always-if ConnectPath is_get _ _ (parse_as-ConnectPath out req_get d 4 old ad) (
      Always-bind ConnectPath (has_text d.buf post_) _ (λ is_post.
        Always-if ConnectPath is_post _ _ (parse_as-ConnectPath out req_post d 5 old ad) (
          Always-bind ConnectPath (has_text d.buf connect_) _ (λ is_connect.
            Always-if ConnectPath is_connect _ _ (parse_as-ConnectPath out req_connect d 8 old ad)
              tt)))))

pub http_request_check-ConnectPath :
    (out : Outside) (ad : AppdataHttp) → Always ConnectPath (http_request_check out ad)
unfolding http_request_check after_check
http_request_check-ConnectPath out ad =
    Always-bind ConnectPath ad.rdb _
      (λ d. Always-bind ConnectPath (check_rounds (suc d.dsize) d 0) _ (found d))
  where
    found : (d : Dbuf) (ends : Option ℕ) → Always ConnectPath (after_check out d ad ends)
    found d none = tt
    found d (some offs) =
        Always-bind ConnectPath (cut_request d offs) _
          (λ d'. parse_request-ConnectPath out d' d.dsize (record ad { rdb = some d' }))
