-- ===== src/Examples/Web.antt =====
-- Tests: the HTTP server at concrete values.
use mathlib.Core.Option.{some_inj}
use cosimus.Base.{
  ap, sym, inl, ◌∙◌, ◌++◌, ◌-◌, length, length-append, take-length_append, suc, ℕ, ◌≡◌, refl, none,
  some, [], ◌∷◌, length-replicate, take, ◌⊎◌, ◌≢◌, Bool, arith, Always, none, some, [], ◌∷◌,
}
use cosimus.Dbuf.{Dbuf}
use cosimus.Http.{AppdataHttp, l7_init}
use cosimus.Dbuf.Grow.{IsDbuf, content}
use cosimus.Http.Parse.{Outside, check_rounds, header_rounds, http_request_check}
use cosimus.Http.Parse.Blank.{blank_line, check_rounds-blank_line}
use cosimus.Http.Parse.Headers.{header_rounds-total}
use cosimus.Http.Parse.Ends.{Plain}
use cosimus.Http.Parse.Total.{http_request_check-total}
use cosimus.Http.Parse.Body.{Allocates, Reallocates}
use cosimus.Http.Session.{http_1, respond}
use cosimus.Http.Session.Response.{respond-status}
use cosimus.Http.Session.{Server, Session, blank_appdata, ev_http_read}
use cosimus.Http.Session.States.{Follows, ev_http_read-Follows}
use cosimus.Http.{Request}
use cosimus.Http.Session.Answers.{ev_http_read-answers}
use cosimus.Examples.{packet}
use cosimus.Base.{replicate}

abbrev outside : Outside
outside = record {
  stack = λ n. replicate n 7;
  atoi = λ digits. 3;
  buffer = λ n. some (record (packet (replicate n 7)) { size = n; dsize = 0 });
  realloc = λ t n. some (record { addr = t.addr; bytes = t.buf ++ replicate (n - t.size) 7 });
  spare = none;
}

outside-Allocates : Allocates outside
outside-Allocates n h = (
  record (packet (replicate n 7)) { size = n; dsize = 0 },
  refl,
  record {
    signed = refl;
    saved = refl;
    sized = sym (length-replicate {A = ℕ} n 7);
    fits = omega arith;
    grows = omega arith;
  },
  refl,
  refl,
)

outside-Reallocates : Reallocates outside
outside-Reallocates t n b v h e =
    let bytes = t.buf ++ replicate (n - t.size) 7 in
    let same : bytes ≡ b.bytes = ap (λ x. x.bytes) (some_inj.0 e) in
    record {
      sized =
          ap length (sym same)
          ∙ length-append t.buf (replicate (n - t.size) 7)
          ∙ omega (arith, length-replicate {A = ℕ} (n - t.size) 7, v.sized);
      kept =
          ap (take (length t.buf)) (sym same) ∙ take-length_append t.buf (replicate (n - t.size) 7);
    }

-- A dispatcher that always chooses the handler 2, which writes a header "A" and a body "B".
abbrev server : Server
server = record { dispatch = λ f ad. 2; handle = λ h ad. (b'A' ∷ [], b'B' ∷ []); date = b'D' ∷ [] }

abbrev fresh_session : Session
fresh_session = record { ad = record blank_appdata { dispatcher = 1 }; outbox = [] }

-- "GET / HTTP/1.1\r\n\r\n"
abbrev get_request : Dbuf
get_request = packet (
    b'G' ∷ b'E' ∷ b'T' ∷ b' ' ∷ b'/' ∷ b' ' ∷ b'H' ∷ b'T' ∷ b'T' ∷ b'P' ∷ b'/' ∷ b'1' ∷ b'.' ∷ b'1'
    ∷ 13 ∷ 10 ∷ 13 ∷ 10 ∷ [])

ev_http_read_example :
    Always
      (Follows server fresh_session l7_init)
      (ev_http_read outside server get_request fresh_session)
ev_http_read_example = ev_http_read-Follows outside server get_request fresh_session

get_request-IsDbuf : IsDbuf get_request
get_request-IsDbuf = record {
  signed = refl;
  saved = refl;
  sized = refl;
  fits = omega arith;
  grows = omega arith;
}

get_request-Plain : Plain (content get_request)
get_request-Plain = (
  (omega arith),
  (
    (omega arith),
    (
      (omega arith),
      (
        (omega arith),
        (
          (omega arith),
          (
            (omega arith),
            (
              (omega arith),
              (
                (omega arith),
                (
                  (omega arith),
                  (
                    (omega arith),
                    (
                      (omega arith),
                      (
                        (omega arith),
                        (
                          (omega arith),
                          (
                            (omega arith),
                            ((omega arith), ((omega arith), ((omega arith), ((omega arith), tt)))),
                          ),
                        ),
                      ),
                    ),
                  ),
                ),
              ),
            ),
          ),
        ),
      ),
    ),
  ),
)

check_rounds_example :
    check_rounds (suc get_request.dsize) get_request 0 ≡ some (blank_line (content get_request))
check_rounds_example = check_rounds-blank_line get_request-IsDbuf

header_rounds_example :
    (ok : Bool) × (ad' : AppdataHttp) × (header_rounds outside 18
        (b'A' ∷ b':' ∷ replicate 16 b' ')
        17
        0
        blank_appdata
      ≡ some (ok, ad'))
header_rounds_example =
    header_rounds-total outside (b'A' ∷ b':' ∷ replicate 16 b' ') 17 0 blank_appdata (omega arith)

abbrev received : AppdataHttp
received = record blank_appdata { rdb = some get_request }

http_request_check_example :
    (kind : Request) × (ad' : AppdataHttp) × (http_request_check outside received
      ≡ some (kind, ad'))
http_request_check_example =
    http_request_check-total outside get_request received (λ n. length-replicate {A = ℕ} n 7)
      outside-Allocates outside-Reallocates refl get_request-IsDbuf get_request-Plain (inl refl)

respond_example :
    (take 6 (respond server received).0 ≡ http_1)
    ⊎ ((received.dispatcher ≢ 0)
        × (server.dispatch received.dispatcher received ≡ 0)
        × (respond server received ≡ ([], [])))
respond_example = respond-status server received

answers_example : (s' : Session) × (ev_http_read outside server get_request fresh_session ≡ some s')
answers_example =
    ev_http_read-answers outside server get_request fresh_session
      (λ n. length-replicate {A = ℕ} n 7) outside-Allocates outside-Reallocates refl refl refl
      get_request-IsDbuf get_request-Plain
