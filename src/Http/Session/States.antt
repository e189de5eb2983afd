-- ===== src/Http/Session/States.antt =====
-- The states of a connection of supp_src/lib_httpd.c, and what is sent on the way.
use cosimus.Base.{
  Always, Always-bind, Always-then, either, ℕ, zero, suc, ◌≡◌, refl, sym, subst, ap, ◌∙◌, List, [],
  ◌∷◌, ◌++◌, leb, ◌==◌, pos,
}
use cosimus.Dbuf.{Dbuf}
use cosimus.Dbuf.Append.{dstrcat}
use cosimus.Http.{
  L7State, l7_init, l7_showtime, l7_read_post_data, Request, AppdataHttp, req_incomplete,
  req_unknown, req_get, req_post, req_connect,
}
use cosimus.Http.Parse.{Outside, for_cat, http_request_check}
use cosimus.Http.Parse.Keeps.{SndKeeps, http_request_check-Keeps}
use cosimus.Http.Session.{
  Server, Session, crlf, status_lines, keepalive_word, respond, http_handle_request,
  http_handle_request_connect, with_state, do_l7_reset, showtime, after_request, buffer_input,
  read_init, got_more, read_post, read_in, ev_http_read,
}

-- The edges of the diagram, with how many buffers are sent on each.
pub data Edge : L7State → ℕ → L7State → Type 0 where
  wait : Edge l7_init 0 l7_init
  serve : Edge l7_init 2 l7_init
  want_body : Edge l7_init 0 l7_read_post_data
  tunnel : Edge l7_init 1 l7_showtime
  more_body : Edge l7_read_post_data 0 l7_read_post_data
  serve_post : Edge l7_read_post_data 2 l7_init
  ignore : Edge l7_showtime 0 l7_showtime

-- The response to the request in `ad`, as the dispatcher and the handler see it.
abbrev pub reply : Server → AppdataHttp → List ℕ
reply srv ad =
    let (dh, dd) = respond srv (record ad { l7state = l7_showtime }) in dh ++ (crlf ++ dd)

-- What was sent in one step: nothing, the answer to CONNECT, or a response and an empty buffer.
abbrev pub Sends : Server → Session → ℕ → Session → Type 0
Sends srv s zero s' = s'.outbox ≡ s.outbox
Sends srv s (suc zero) s' =
    s'.outbox ≡ s.outbox ++ (status_lines keepalive_word srv.date ++ crlf) ∷ []
Sends srv s (suc (suc n)) s' = s'.outbox ≡ s.outbox ++ reply srv s'.ad ∷ [] ∷ []

-- One step of a connection with the state `l` before it.
pub record Follows (srv : Server) (s : Session) (l : L7State) (s' : Session) : Type 0 where
  pub sent : ℕ
  pub edge : Edge l sent s'.ad.l7state
  pub sends : Sends srv s sent s'
  pub same_dispatcher : s'.ad.dispatcher ≡ s.ad.dispatcher

showtime-sends :
    (srv : Server) (s s' : Session) (l : L7State)
    → s'.outbox ≡ s.outbox
    → s'.ad.dispatcher ≡ s.ad.dispatcher
    → Edge l 2 l7_init
    → Follows srv s l (showtime srv s')
unfolding showtime http_handle_request do_l7_reset with_state
showtime-sends srv s s' l out disp e = record {
  sent = 2;
  edge = e;
  sends = ap (λ o. o ++ reply srv s'.ad ∷ [] ∷ []) out;
  same_dispatcher = disp;
}

after_request-Follows :
    (srv : Server) (kind : Request) (s s' : Session)
    → s'.outbox ≡ s.outbox
    → s'.ad.l7state ≡ l7_init
    → s'.ad.dispatcher ≡ s.ad.dispatcher
    → Always (Follows srv s l7_init) (after_request srv kind s')
unfolding after_request http_handle_request_connect with_state
after_request-Follows srv req_incomplete s s' out l disp = record {
  sent = 0;
  edge = subst (λ k. Edge l7_init 0 k) (sym l) wait;
  sends = out;
  same_dispatcher = disp;
}
after_request-Follows srv req_unknown s s' out l disp = record {
  sent = 0;
  edge = subst (λ k. Edge l7_init 0 k) (sym l) wait;
  sends = out;
  same_dispatcher = disp;
}
after_request-Follows srv req_get s s' out l disp = showtime-sends srv s s' l7_init out disp serve
after_request-Follows srv req_post s s' out l disp =
    either (Follows srv s l7_init) (s'.ad.post_content_got_length == s'.ad.post_content_length) _ _
      (showtime-sends srv s s' l7_init out disp serve)
      (record { sent = 0; edge = want_body; sends = out; same_dispatcher = disp })
after_request-Follows srv req_connect s s' out l disp =
    Always-bind (Follows srv s l7_init) s'.ad.http_path _ (λ path. record {
      sent = 1;
      edge = tunnel;
      sends = ap (λ o. o ++ (status_lines keepalive_word srv.date ++ crlf) ∷ []) out;
      same_dispatcher = disp;
    })

read_init-Follows :
    (out : Outside) (srv : Server) (d : Dbuf) (s : Session)
    → s.ad.l7state ≡ l7_init
    → Always (Follows srv s l7_init) (read_init out srv d s)
unfolding read_init
read_init-Follows out srv d s l =
    Always-bind (Follows srv s l7_init) (buffer_input out.realloc s.ad.rdb d) _ (λ r.
      let ad1 = record (s.ad) { rdb = r } in
      Always-then (SndKeeps ad1) (Follows srv s l7_init) (http_request_check out ad1) _
        (http_request_check-Keeps out ad1)
        (λ (kind, ad) q.
          after_request-Follows srv kind s (record s { ad = ad }) refl (q.state ∙ l) q.chooser))

read_post-Follows :
    (out : Outside) (srv : Server) (d : Dbuf) (s : Session)
    → s.ad.l7state ≡ l7_read_post_data
    → Always (Follows srv s l7_read_post_data) (read_post out srv d s)
unfolding read_post got_more
read_post-Follows out srv d s l =
    Always-bind (Follows srv s l7_read_post_data) s.ad.post_content_buf _ (λ t.
      Always-bind (Follows srv s l7_read_post_data)
        (dstrcat (for_cat out t d.dsize) out.spare t d.buf (pos d.dsize)) _
        (λ (ok, t').
          let s' = record s { ad = got_more d s.ad t' } in
          either (Follows srv s l7_read_post_data)
            (leb s'.ad.post_content_length s'.ad.post_content_got_length) _ _
            (showtime-sends srv s s' l7_read_post_data refl refl serve_post)
            (record {
              sent = 0;
              edge = subst (λ k. Edge l7_read_post_data 0 k) (sym l) more_body;
              sends = refl;
              same_dispatcher = refl;
            })))

-- A read event takes a connection along an edge of the diagram of states: it waits, serves a request,
-- begins to read the body of a POST, reads more of it, serves it, becomes a tunnel, or ignores the
-- data of a tunnel. Nothing else is sent than on that edge: the response to the request that was
-- parsed, which is followed by an empty buffer, or the answer to CONNECT. The dispatcher stays.
pub ev_http_read-Follows :
    (out : Outside) (srv : Server) (d : Dbuf) (s : Session)
    → Always (Follows srv s s.ad.l7state) (ev_http_read out srv d s)
unfolding ev_http_read read_in
ev_http_read-Follows out srv d s = from s.ad.l7state refl
  where
    from : (l : L7State) → s.ad.l7state ≡ l → Always (Follows srv s l) (read_in out srv d l s)
    from l7_init e = read_init-Follows out srv d s e
    from l7_read_post_data e = read_post-Follows out srv d s e
    from l7_showtime e = record {
      sent = 0;
      edge = subst (λ k. Edge l7_showtime 0 k) (sym e) ignore;
      sends = refl;
      same_dispatcher = refl;
    }
