-- ===== src/Http/Session/Answers.antt =====
-- The first data of a connection of supp_src/lib_httpd.c is handled without a fault.
use cosimus.Base.{
  ℕ, ◌+◌, ◌≡◌, refl, ap, subst, ◌∙◌, inl, true, Option, none, some, length, ◌==◌, if◌then◌else◌,
  ◌>>=◌, Always, List,
}
use cosimus.Dbuf.{Dbuf}
use cosimus.Dbuf.Grow.{IsDbuf, content}
use cosimus.Dbuf.Lock.{with_lock, dlock-some, with_lock-IsDbuf}
use cosimus.Http.{
  AppdataHttp, l7_init, l7_read_post_data, Request, req_incomplete, req_unknown, req_get, req_post,
  req_connect,
}
use cosimus.Http.Parse.{Outside, http_request_check}
use cosimus.Http.Parse.Ends.{Plain}
use cosimus.Http.Parse.Body.{Allocates, Reallocates}
use cosimus.Http.Parse.Total.{http_request_check-total}
use cosimus.Http.Parse.Keeps.{is_some}
use cosimus.Http.Parse.Path.{ConnectPath, http_request_check-ConnectPath}
use cosimus.Http.Session.{
  Server, Session, with_state, showtime, http_handle_request_connect, after_request, buffer_input,
  read_init, read_in, ev_http_read,
}

after_request-run :
    (srv : Server) (kind : Request) (s : Session)
    → ConnectPath (kind, s.ad)
    → (s' : Session) × (after_request srv kind s ≡ some s')
unfolding after_request http_handle_request_connect with_state
after_request-run srv req_incomplete s has = (s, refl)
after_request-run srv req_unknown s has = (s, refl)
after_request-run srv req_get s has = (showtime srv s, refl)
after_request-run srv req_post s has = (
  (if s.ad.post_content_got_length == s.ad.post_content_length
      then showtime srv s
      else with_state l7_read_post_data s),
  refl,
)
after_request-run srv req_connect s has = answered s.ad.http_path has _
  where
    answered :
        (path : Option (List ℕ))
        → is_some path ≡ true
        → (s1 : Session) → (s' : Session) × ((path >>= λ p. some s1) ≡ some s')
    answered none h s1 = absurd cc
    answered (some p) h s1 = (s1, refl)

-- The first data on a connection, a valid buffer without a zero byte, is handled without a fault and
-- with a result, whatever request it is, a part of one or none. `alloca` and `dalloc` give what is
-- asked for; `realloc` gives nothing or what is asked for; and no body was announced before.
pub ev_http_read-answers :
    (out : Outside) (srv : Server) (d : Dbuf) (s : Session)
    → ((n : ℕ) → length (out.stack n) ≡ n)
    → Allocates out
    → Reallocates out
    → s.ad.l7state ≡ l7_init
    → s.ad.rdb ≡ none
    → s.ad.post_content_length ≡ 0
    → IsDbuf d
    → Plain (content d)
    → (s' : Session) × (ev_http_read out srv d s ≡ some s')
unfolding ev_http_read read_in read_init buffer_input
ev_http_read-answers out srv d s stacked allocates reallocates start first no_body v plain =
    let d1 = with_lock d (d.lock + 1) in
    let ad1 = record (s.ad) { rdb = some d1 } in
    let go : Request × AppdataHttp → Option Session =
      λ (kind, ad). after_request srv kind (record s { ad = ad }) in
    let run : ev_http_read out srv d s ≡ (http_request_check out ad1 >>= go) =
      ap (λ l. read_in out srv d l s) start
      ∙ ap
          (λ o. buffer_input out.realloc o d >>= λ r.
            http_request_check out (record (s.ad) { rdb = r }) >>= go)
          first
      ∙ ap (λ o. o >>= λ r. http_request_check out (record (s.ad) { rdb = r }) >>= go)
          (dlock-some v) in
    let (kind, ad, parsed) =
      http_request_check-total out d1 ad1 stacked allocates reallocates refl
        (with_lock-IsDbuf (d.lock + 1) v) plain (inl no_body) in
    let has : ConnectPath (kind, ad) =
      subst (Always ConnectPath) parsed (http_request_check-ConnectPath out ad1) in
    let (s', done) = after_request-run srv kind (record s { ad = ad }) has in
    (s', run ∙ ap (λ o. o >>= go) parsed ∙ done)
