-- ===== src/Http.antt =====
-- supp_src/lib_httpd.c: the HTTP server's application data and its tests on characters.
-- Strings are lists of bytes. `none` is an access outside a block or through NULL, or a failed
-- assertion.
pub mod Parse
pub mod Session
use cosimus.Base.{
  ℕ, zero, suc, ◌+◌, ◌-◌, Bool, true, false, ◌&&◌, ◌||◌, Option, none, some, List, [], ◌∷◌, peek,
  leb, ◌==◌, if◌then◌else◌, ◌>>=◌,
}
use cosimus.Dbuf.{Dbuf}

-- The constants of `l7state` and of the kinds of requests.
pub data L7State : Type 0 where
  l7_init l7_showtime l7_read_post_data : L7State

pub data Request : Type 0 where
  req_incomplete req_unknown req_get req_post req_connect : Request

-- `appdata_http_t`, but for what only the Lua bindings use. A dispatcher is known by its address.
pub record AppdataHttp : Type 0 where
  pub l7state : L7State
  pub rdb : Option Dbuf
  pub http_path : Option (List ℕ)
  pub http_querystring : Option (List ℕ)
  pub http_referer : Option (List ℕ)
  pub content_type : Option (List ℕ)
  pub http_11 : Bool
  pub post_content_length : ℕ
  pub post_content_buf : Option Dbuf
  pub post_content_got_length : ℕ
  pub dispatcher : ℕ

-- `isblank_x(c)`
unfoldable pub isblank_x : ℕ → Bool
isblank_x c = c == 32 || (c == 13 || (c == 10 || c == 9))

-- `isspace` of the C locale.
abbrev pub isspace : ℕ → Bool
isspace c = c == 32 || (leb 9 c && leb c 13)

abbrev pub is_eol : ℕ → Bool
is_eol c = c == 13 || c == 10

-- Whether `m` from `i` on begins with the string `s`, compared up to the first difference.
unfoldable pub begins_with : List ℕ → ℕ → List ℕ → Option Bool
begins_with m i [] = some true
begins_with m i (c ∷ s) =
    peek m i >>= λ b. let rest = begins_with m (suc i) s in if b == c then rest else some false

-- `strstr(str, s) != NULL`: whether the string in `m` up to its zero has `s` in it.
unfoldable pub has_text : List ℕ → List ℕ → Option Bool
has_text [] s = none
has_text (c ∷ m) s = begins_with (c ∷ m) 0 s >>= λ here.
    let rest = has_text m s in if here then some true else (if c == 0 then some false else rest)

abbrev pub get_ : List ℕ
get_ = b'G' ∷ b'E' ∷ b'T' ∷ b' ' ∷ []

abbrev pub post_ : List ℕ
post_ = b'P' ∷ b'O' ∷ b'S' ∷ b'T' ∷ b' ' ∷ []

abbrev pub connect_ : List ℕ
connect_ = b'C' ∷ b'O' ∷ b'N' ∷ b'N' ∷ b'E' ∷ b'C' ∷ b'T' ∷ b' ' ∷ []

abbrev pub http_1_ : List ℕ
http_1_ = b'H' ∷ b'T' ∷ b'T' ∷ b'P' ∷ b'/' ∷ b'1' ∷ b'.' ∷ []

abbrev pub referer_key : List ℕ
referer_key = b'r' ∷ b'e' ∷ b'f' ∷ b'e' ∷ b'r' ∷ b'e' ∷ b'r' ∷ []

abbrev pub content_type_key : List ℕ
content_type_key =
    b'c' ∷ b'o' ∷ b'n' ∷ b't' ∷ b'e' ∷ b'n' ∷ b't' ∷ b'-' ∷ b't' ∷ b'y' ∷ b'p' ∷ b'e' ∷ []

abbrev pub content_length_key : List ℕ
content_length_key =
    b'c' ∷ b'o' ∷ b'n' ∷ b't' ∷ b'e' ∷ b'n' ∷ b't' ∷ b'-' ∷ b'l' ∷ b'e' ∷ b'n' ∷ b'g' ∷ b't' ∷ b'h'
    ∷ []

-- `strcmp(a, b) == 0`, without the zeros.
abbrev pub same_text : List ℕ → List ℕ → Bool
same_text [] [] = true
same_text [] (y ∷ ys) = false
same_text (x ∷ xs) [] = false
same_text (x ∷ xs) (y ∷ ys) = x == y && same_text xs ys
