-- ===== src/Timers/Pool.antt =====
-- The queue of inactive entries of supp_src/lib_timers.c.
use cosimus.Base.{
  ℕ, zero, suc, ◌≡◌, ◌≢◌, refl, sym, ap, ◌∙◌, some, List, [], ◌∷◌, ◌++◌, peek, set, All,
}
use cosimus.Timers.{TimerwheelEntry, Timers}

-- Entry `i` is inactive, and `n` is next.
abbrev pub Idle : List TimerwheelEntry → ℕ → ℕ → Type 0
Idle es i n =
    (e : TimerwheelEntry) × (peek es i ≡ some e) × (e.state ≡ 0) × (e.next_inactive_index ≡ n)

abbrev pub head_or : ℕ → List ℕ → ℕ
head_or t [] = t
head_or t (i ∷ is) = i

abbrev pub end_or : ℕ → List ℕ → ℕ
end_or t [] = t
end_or t (i ∷ is) = end_or i is

-- `i` is not one of the entries.
abbrev pub Other : ℕ → List ℕ → Type 0
Other i is = All (λ j. i ≢ j) is

-- The entries `is` in a row, and `t` behind them.
abbrev pub Queue : List TimerwheelEntry → ℕ → List ℕ → Type 0
Queue es t [] = Unit
Queue es t (i ∷ is) = Idle es i (head_or t is) × (i ≢ 0) × Other i is × Queue es t is

-- The array lies at `buf` and is `es`, and the queue is `i` and then `is`.
pub record IsPool (st : Timers) (buf : ℕ) (es : List TimerwheelEntry) (i : ℕ) (is : List ℕ)
    : Type 0 where
  pub held : st.timers_list ≡ some (buf, es)
  pub first : st.timer_first_inactive ≡ i
  pub last : st.timer_last_inactive ≡ end_or i is
  pub queue : Queue es 0 (i ∷ is)

pub peek-set_here {ℓ} :
    {A : Type ℓ} (es : List A) (i : ℕ) (x v : A) → peek es i ≡ some x → peek (set es i v) i ≡ some v
peek-set_here [] i x v e = cc
peek-set_here (y ∷ es) zero x v e = refl
peek-set_here (y ∷ es) (suc i) x v e = peek-set_here es i x v e

pub peek-set_there {ℓ} :
    {A : Type ℓ} (es : List A) (i j : ℕ) (v : A) → j ≢ i → peek (set es i v) j ≡ peek es j
peek-set_there [] i j v ne = refl
peek-set_there (y ∷ es) zero zero v ne = absurd (ne refl)
peek-set_there (y ∷ es) zero (suc j) v ne = refl
peek-set_there (y ∷ es) (suc i) zero v ne = refl
peek-set_there (y ∷ es) (suc i) (suc j) v ne = peek-set_there es i j v (λ e. ne (ap suc e))

-- A change of another entry leaves the queue.
pub Queue-set :
    (es : List TimerwheelEntry) (t k : ℕ) (v : TimerwheelEntry) (is : List ℕ)
    → Other k is
    → Queue es t is
    → Queue (set es k v) t is
Queue-set es t k v [] other q = tt
Queue-set es t k v (i ∷ is) other ((e, at, off, next), nonnull, out, q) = (
  (e, peek-set_there es k i v (λ p. other.0 (sym p)) ∙ at, off, next),
  nonnull,
  out,
  Queue-set es t k v is other.1 q,
)

pub Other-append : (k : ℕ) (is js : List ℕ) → Other k is → Other k js → Other k (is ++ js)
Other-append k [] js h h' = h'
Other-append k (i ∷ is) js h h' = (h.0, Other-append k is js h.1 h')

pub Other-split : (k : ℕ) (is js : List ℕ) → Other k (is ++ js) → Other k is × Other k js
Other-split k [] js h = (tt, h)
Other-split k (i ∷ is) js h = let (a, b) = Other-split k is js h.1 in ((h.0, a), b)

-- An entry that is behind the queue, put at its end.
pub Queue-snoc :
    (es : List TimerwheelEntry) (t k : ℕ) (is : List ℕ)
    → Queue es k is
    → Idle es k t
    → k ≢ 0
    → Other k is
    → Queue es t (is ++ k ∷ [])
Queue-snoc es t k [] q idle nonnull other = (idle, nonnull, tt, tt)
Queue-snoc es t k (i ∷ []) ((e, at, off, next), ne, out, q) idle nonnull other =
    ((e, at, off, next), ne, ((λ p. other.0 (sym p)), tt), (idle, nonnull, tt, tt))
Queue-snoc es t k (i ∷ j ∷ is) ((e, at, off, next), ne, out, q) idle nonnull other = (
  (e, at, off, next),
  ne,
  Other-append i (j ∷ is) (k ∷ []) out ((λ p. other.0 (sym p)), tt),
  Queue-snoc es t k (j ∷ is) q idle nonnull other.1,
)

-- The end of a queue.
pub Queue-end :
    (es : List TimerwheelEntry) (t i : ℕ) (is : List ℕ)
    → Queue es t (i ∷ is)
    → Idle es (end_or i is) t
Queue-end es t i [] q = q.0
Queue-end es t i (j ∷ is) q = Queue-end es t j is q.3

abbrev pub point_to : ℕ → TimerwheelEntry → TimerwheelEntry
point_to n e = record e { next_inactive_index = n }

pub end-Other : (k i : ℕ) (is : List ℕ) → Other k (i ∷ is) → k ≢ end_or i is
end-Other k i [] h = h.0
end-Other k i (j ∷ is) h = end-Other k j is h.1

-- The end of the queue, pointed elsewhere.
pub Queue-point_to :
    (es : List TimerwheelEntry) (t u i : ℕ) (is : List ℕ) (e : TimerwheelEntry)
    → Queue es t (i ∷ is)
    → peek es (end_or i is) ≡ some e
    → e.state ≡ 0
    → Queue (set es (end_or i is) (point_to u e)) u (i ∷ is)
Queue-point_to es t u i [] e q at off =
    ((point_to u e, peek-set_here es i e _ at, off, refl), q.1, tt, tt)
Queue-point_to es t u i (j ∷ is) e ((e', at', off', next), ne, out, q) at off = (
  (e', peek-set_there es (end_or j is) i _ (end-Other i j is out) ∙ at', off', next),
  ne,
  out,
  Queue-point_to es t u j is e q at off,
)
