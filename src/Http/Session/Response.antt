-- ===== src/Http/Session/Response.antt =====
-- The status line of a response of supp_src/lib_httpd.c.
use cosimus.Base.{
  ℕ, ◌≡◌, ◌≢◌, refl, ap₂, ◌⊎◌, inl, inr, true, false, List, [], ◌∷◌, length, take, ltb, ◌==◌,
  ==_iff, Bool-cases, arith,
}
use cosimus.Http.{AppdataHttp, same_text}
use cosimus.Http.Session.{Server, http_1, status_lines, with_status, respond}

same_text_sound : (xs ys : List ℕ) → same_text xs ys ≡ true → xs ≡ ys
same_text_sound [] [] e = refl
same_text_sound [] (y ∷ ys) e = absurd cc
same_text_sound (x ∷ xs) [] e = absurd cc
same_text_sound (x ∷ xs) (y ∷ ys) e = elim (Bool-cases (x == y)) [
  | inl same ↦ ap₂ (λ a as'. a ∷ as') ((==_iff x y).0 same) (same_text_sound xs ys (rw same at e))
  | inr other ↦ absurd (no (rw other at e))
]
  where
    no : false ≡ true → ⊥
    no h = cc

with_status-begins : (srv : Server) (dh : List ℕ) → take 6 (with_status srv dh) ≡ http_1
unfolding with_status status_lines
with_status-begins srv dh = elim (Bool-cases (ltb (length dh) 6)) [
  | inl short ↦ rw short refl
  | inr long ↦ rw long (elim (Bool-cases (same_text (take 6 dh) http_1)) [
    | inl same ↦ rw same (same_text_sound (take 6 dh) http_1 same)
    | inr other ↦ rw other refl
  ])
]

-- The header of a response begins with `HTTP/1`, whatever the handler wrote, unless there is a
-- dispatcher that finds no handler: then the header and the body are empty.
pub respond-status :
    (srv : Server) (ad : AppdataHttp)
    → (take 6 (respond srv ad).0 ≡ http_1)
      ⊎ ((ad.dispatcher ≢ 0) × (srv.dispatch ad.dispatcher ad ≡ 0) × (respond srv ad ≡ ([], [])))
unfolding respond
respond-status srv ad = elim (Bool-cases (ad.dispatcher == 0)) [
  | inl none_set ↦ inl (rw none_set refl)
  | inr set ↦ elim (Bool-cases (srv.dispatch ad.dispatcher ad == 0)) [
    | inl not_found ↦ inr ((λ e. differs e set), (==_iff _ 0).0 not_found, rw (set, not_found) refl)
    | inr found ↦
        inl (
          rw (set, found)
            (with_status-begins srv (srv.handle (srv.dispatch ad.dispatcher ad) ad).0))
  ]
]
  where
    differs : {x : ℕ} → x ≡ 0 → (x == 0) ≡ false → ⊥
    differs p q = ground arith
