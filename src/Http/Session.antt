-- ===== src/Http/Session.antt =====
-- The handling of requests and the states of a connection in supp_src/lib_httpd.c.
-- The response is built from the contents of its buffers, for which memory is taken to suffice. `outbox`
-- holds the contents of the buffers handed to `dsend`.
pub mod States
pub mod Response
pub mod Answers
use cosimus.Base.{
  ℕ, zero, suc, ◌+◌, ◌%◌, Bool, true, false, ◌&&◌, Option, none, some, List, [], ◌∷◌, ◌++◌, length,
  take, ltb, leb, ◌==◌, if◌then◌else◌, ◌>>=◌, pos,
}
use cosimus.Dbuf.{Block, Dbuf}
use cosimus.Dbuf.Lock.{dlock}
use cosimus.Dbuf.Append.{dstrcat, dconcat}
use cosimus.Http.{
  L7State, l7_init, l7_showtime, l7_read_post_data, Request, AppdataHttp, req_incomplete,
  req_unknown, req_get, req_post, req_connect, same_text,
}
use cosimus.Http.Parse.{Outside, for_cat, http_request_check}

-- The dispatcher's choice of a handler (0 for none), what a handler writes into the header's and the
-- body's buffer, and the date. A handler that changes the application data is not modelled.
pub record Server : Type 0 where
  pub dispatch : ℕ → AppdataHttp → ℕ
  pub handle : ℕ → AppdataHttp → List ℕ × List ℕ
  pub date : List ℕ

pub record Session : Type 0 where
  pub ad : AppdataHttp
  pub outbox : List (List ℕ)

abbrev pub crlf : List ℕ
crlf = 13 ∷ 10 ∷ []

-- "HTTP/1"
abbrev pub http_1 : List ℕ
http_1 = b'H' ∷ b'T' ∷ b'T' ∷ b'P' ∷ b'/' ∷ b'1' ∷ []

-- ".1 200 OK\r\nConnection: "
abbrev pub ok_line : List ℕ
ok_line =
    b'.' ∷ b'1' ∷ b' ' ∷ b'2' ∷ b'0' ∷ b'0' ∷ b' ' ∷ b'O' ∷ b'K' ∷ 13 ∷ 10 ∷ b'C' ∷ b'o' ∷ b'n'
    ∷ b'n' ∷ b'e' ∷ b'c' ∷ b't' ∷ b'i' ∷ b'o' ∷ b'n' ∷ b':' ∷ b' ' ∷ []

abbrev pub close_word : List ℕ
close_word = b'C' ∷ b'l' ∷ b'o' ∷ b's' ∷ b'e' ∷ []

abbrev pub keepalive_word : List ℕ
keepalive_word = b'K' ∷ b'e' ∷ b'e' ∷ b'p' ∷ b'a' ∷ b'l' ∷ b'i' ∷ b'v' ∷ b'e' ∷ []

-- "Date: "
abbrev pub date_key : List ℕ
date_key = b'D' ∷ b'a' ∷ b't' ∷ b'e' ∷ b':' ∷ b' ' ∷ []

-- ".0 400 Not Found\r\n"
abbrev pub not_found_line : List ℕ
not_found_line =
    b'.' ∷ b'0' ∷ b' ' ∷ b'4' ∷ b'0' ∷ b'0' ∷ b' ' ∷ b'N' ∷ b'o' ∷ b't' ∷ b' ' ∷ b'F' ∷ b'o' ∷ b'u'
    ∷ b'n' ∷ b'd' ∷ 13 ∷ 10 ∷ []

-- The status line and the first headers of a response.
unfoldable pub status_lines : List ℕ → List ℕ → List ℕ
status_lines connection date =
    http_1 ++ (ok_line ++ (connection ++ (crlf ++ (date_key ++ (date ++ crlf)))))

-- The header after the handler: a status line is put in front if there is none.
unfoldable pub with_status : Server → List ℕ → List ℕ
with_status srv dh =
    if ltb (length dh) 6
    then status_lines close_word srv.date ++ dh
    else (if same_text (take 6 dh) http_1 then dh else status_lines close_word srv.date ++ dh)

-- The header and the body of the response.
unfoldable pub respond : Server → AppdataHttp → List ℕ × List ℕ
respond srv ad =
    if ad.dispatcher == 0
    then (http_1 ++ not_found_line, [])
    else (if srv.dispatch ad.dispatcher ad == 0
        then ([], [])
        else (let (dh, dd) = srv.handle (srv.dispatch ad.dispatcher ad) ad in
            (with_status srv dh, dd)))

-- `http_handle_request(idx)`: the response and an empty buffer are sent.
unfoldable pub http_handle_request : Server → Session → Session
http_handle_request srv s =
    let (dh, dd) = respond srv s.ad in
    record s { outbox = s.outbox ++ (dh ++ (crlf ++ dd)) ∷ [] ∷ [] }

-- `http_handle_request_connect(idx)`: the path is compared, so that it must be there.
unfoldable pub http_handle_request_connect : Server → Session → Option Session
http_handle_request_connect srv s = s.ad.http_path >>= λ path.
    some (record s { outbox = s.outbox ++ (status_lines keepalive_word srv.date ++ crlf) ∷ [] })

unfoldable pub with_state : L7State → Session → Session
with_state l s = record s { ad = record (s.ad) { l7state = l } }

-- `do_l7_reset(idx)`
unfoldable pub do_l7_reset : Session → Session
do_l7_reset s = with_state l7_init s

-- A request that is there is handled, and the connection waits for the next one.
unfoldable pub showtime : Server → Session → Session
showtime srv s = do_l7_reset (http_handle_request srv (with_state l7_showtime s))

-- After `http_request_check`.
unfoldable pub after_request : Server → Request → Session → Option Session
after_request srv req_incomplete s = some s
after_request srv req_unknown s = some s
after_request srv req_get s = some (showtime srv s)
after_request srv req_post s = some (
    if s.ad.post_content_got_length == s.ad.post_content_length
    then showtime srv s
    else with_state l7_read_post_data s)
after_request srv req_connect s = http_handle_request_connect srv (with_state l7_showtime s)

-- The first block of a request is kept, and later ones are added to it.
unfoldable pub buffer_input : (Dbuf → ℕ → Option Block) → Option Dbuf → Dbuf → Option (Option Dbuf)
buffer_input realloc none d = dlock (some d)
buffer_input realloc (some r) d =
    dconcat (realloc r (r.size + d.dsize)) r d >>= λ (ok, r'). some (some r')

unfoldable pub read_init : Outside → Server → Dbuf → Session → Option Session
read_init out srv d s = do
  r ← buffer_input out.realloc s.ad.rdb d
  (kind, ad) ← http_request_check out (record (s.ad) { rdb = r })
  after_request srv kind (record s { ad = ad })

-- `ad->post_content_got_length` is a `uint32_t`.
unfoldable pub got_more : Dbuf → AppdataHttp → Dbuf → AppdataHttp
got_more d ad t = record ad {
  post_content_buf = some t;
  post_content_got_length = (ad.post_content_got_length + d.dsize) % 4294967296;
}

unfoldable pub read_post : Outside → Server → Dbuf → Session → Option Session
read_post out srv d s = s.ad.post_content_buf >>= λ t.
    dstrcat (for_cat out t d.dsize) out.spare t d.buf (pos d.dsize) >>= λ (ok, t').
    let s' = record s { ad = got_more d s.ad t' } in
    some
      (if leb s'.ad.post_content_length s'.ad.post_content_got_length then showtime srv s' else s')

unfoldable pub read_in : Outside → Server → Dbuf → L7State → Session → Option Session
read_in out srv d l7_init s = read_init out srv d s
read_in out srv d l7_read_post_data s = read_post out srv d s
read_in out srv d l7_showtime s = some s

-- `ev_http_read(idx, d)`, which returns 1.
unfoldable pub ev_http_read : Outside → Server → Dbuf → Session → Option Session
ev_http_read out srv d s = read_in out srv d s.ad.l7state s

-- What a new connection starts with: the listener's dispatcher.
abbrev pub blank_appdata : AppdataHttp
blank_appdata = record {
  l7state = l7_init;
  rdb = none;
  http_path = none;
  http_querystring = none;
  http_referer = none;
  content_type = none;
  http_11 = false;
  post_content_length = 0;
  post_content_buf = none;
  post_content_got_length = 0;
  dispatcher = 0;
}

-- `http_newconn(idx, parent)`, for the application data.
unfoldable pub http_newconn : AppdataHttp → AppdataHttp
http_newconn parent = record blank_appdata { dispatcher = parent.dispatcher }
