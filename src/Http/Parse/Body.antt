-- ===== src/Http/Parse/Body.antt =====
-- Taking the body of a request in supp_src/lib_httpd.c stays inside the memory.
use cosimus.Base.{
  ℕ, zero, suc, ◌+◌, ◌-◌, ◌≤◌, ◌<◌, ◌≡◌, refl, ap, ◌∙◌, ◌⊎◌, inl, inr, true, some, List, [], ◌∷◌,
  length, take, drop, peek_all, peek_all-drop, ◌==◌, ==_iff, Bool-cases, ◌>>=◌, arith, pos, either,
}
use cosimus.Dbuf.{Block, Dbuf}
use cosimus.Dbuf.Grow.{IsDbuf, Reallocs}
use cosimus.Dbuf.Append.Laws.{dstrcat-total}
use cosimus.Dbuf.Append.{dstrcat}
use cosimus.Http.{AppdataHttp, same_text, referer_key, content_type_key, content_length_key}
use cosimus.Http.Parse.{Outside, for_cat, with_header, body_length, add_body, take_body}

-- `dalloc` gives an empty buffer of the size asked for.
abbrev pub Allocates : Outside → Type 0
Allocates out =
    (n : ℕ) → 0 < n → (t : Dbuf) × (out.buffer n ≡ some t) × IsDbuf t × (t.size ≡ n) × (t.dsize ≡ 0)

-- A block from `realloc` for a valid buffer that is not to shrink, if it gives one, has the size asked for and begins with the old one.
abbrev pub Reallocates : Outside → Type 0
Reallocates out =
    (t : Dbuf) (n : ℕ) (b : Block)
    → IsDbuf t
    → t.size ≤ n
    → out.realloc t n ≡ some b
    → Reallocs t n b

-- If a body is announced, there is a buffer for it with a free byte.
abbrev pub Ready : AppdataHttp → Type 0
Ready ad =
    (ad.post_content_length ≡ 0)
    ⊎ ((t : Dbuf) × (ad.post_content_buf ≡ some t) × IsDbuf t × (t.dsize < t.size))

pub with_header-Ready :
    (out : Outside)
    → Allocates out
    → (key val : List ℕ) (ad : AppdataHttp) → Ready ad
    → Ready (with_header out key val ad)
unfolding with_header
with_header-Ready out allocates key val ad r = either Ready (same_text key referer_key) _ _ r (
    either Ready (same_text key content_type_key) _ _ r
      (either Ready (same_text key content_length_key) _ _ (announced (out.atoi val)) r))
  where
    announced :
        (n : ℕ) → (n ≡ 0) ⊎ ((t : Dbuf) × (out.buffer n ≡ some t) × IsDbuf t × (t.dsize < t.size))
    announced zero = inl refl
    announced (suc n) =
        let (t, run, v, size, empty) = allocates (suc n) (omega arith) in
        inr (t, run, v, omega (arith, size, empty))

add_body-run :
    (out : Outside) (body : List ℕ) (ad : AppdataHttp) (t : Dbuf)
    → Reallocates out
    → ad.post_content_buf ≡ some t
    → IsDbuf t
    → t.dsize < t.size
    → (ad' : AppdataHttp) × (add_body out body ad ≡ some ad')
unfolding add_body
add_body-run out [] ad t reallocates at v free = (ad, refl)
add_body-run out (b ∷ body) ad t reallocates at v free =
    let n = suc (length body) in
    let (ok, t', run) =
      dstrcat-total (for_cat out t n) out.spare t (b ∷ body) n v free (omega arith)
        (λ blk e. reallocates t _ blk v (omega arith) e) in
    (
      record ad { post_content_buf = some t' },
      ap
            (λ o. o >>= λ t.
              dstrcat (for_cat out t n) out.spare t (b ∷ body) (pos n) >>= λ (ok, t').
              some (record ad { post_content_buf = some t' }))
            at
          ∙ rw run refl,
    )

body_length-le : (ad : AppdataHttp) (start old : ℕ) → body_length ad start old ≤ old - start
unfolding body_length
body_length-le ad start old = ground arith

pub take_body-run :
    (out : Outside) (d : Dbuf) (old : ℕ) (ad : AppdataHttp)
    → Reallocates out
    → Ready ad
    → old ≤ length d.buf
    → (ad' : AppdataHttp) × (take_body out d old ad ≡ some ad')
unfolding take_body
take_body-run out d old ad reallocates (inl nothing) room =
    let none_wanted : (ad.post_content_length == 0) ≡ true = (==_iff _ 0).1 nothing in
    (ad, rw none_wanted refl)
take_body-run out d old ad reallocates (inr (t, at, v, free)) room =
    elim (Bool-cases (ad.post_content_length == 0)) [
      | inl none_wanted ↦ (ad, rw none_wanted refl)
      | inr wanted ↦
          let start = d.dsize + 2 in
          let n = body_length ad start old in
          let (body, read) = bytes n (body_length-le ad start old) in
          let ad1 = record ad { post_content_got_length = ad.post_content_got_length + n } in
          let (ad', run) = add_body-run out body ad1 t reallocates at v free in
          (ad', rw (wanted, read) run)
    ]
  where
    bytes :
        (n : ℕ)
        → n ≤ old - (d.dsize + 2)
        → (body : List ℕ) × (peek_all d.buf (d.dsize + 2) n ≡ some body)
    bytes zero h = ([], unfold peek_all in refl)
    bytes (suc n) h = (
      take (suc n) (drop (d.dsize + 2) d.buf),
      peek_all-drop d.buf (d.dsize + 2) (suc n) (omega arith),
    )
