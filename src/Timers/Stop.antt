-- ===== src/Timers/Stop.antt =====
-- `stop_timer` of supp_src/lib_timers.c takes a timer from the wheel and gives its entry back.
pub mod Running
use cosimus.Base.{
  ℕ, zero, suc, ◌+◌, ◌*◌, ◌/◌, ◌%◌, ◌^◌, ◌<◌, ◌≤◌, ◌≡◌, ◌≢◌, refl, sym, ap, ap₂, ◌∙◌, ◌⊎◌, inl, inr,
  Bool, true, false, ◌&&◌, ◌||◌, Option, none, some, List, [], ◌∷◌, ◌++◌, length, length-append,
  peek, set, All, u32, ◌<<<◌, ◌>>>◌, ltb, leb, lt→ltb, ◌==◌, if◌then◌else◌, ◌>>=◌, arith,
}
use cosimus.LinkedList.{Listitem, Heap, ldelete}
use cosimus.LinkedList.Seg.{
  Cells, first_or, Apart, Apart-append, Apart-split, Disjoint, Seg, nil, cons, IsList, Seg-split,
  Seg-first, listitem_checksig-some, Spares,
}
use cosimus.LinkedList.Push.{not_null}
use cosimus.LinkedList.Find.{has, Marked, lbelongs-has}
use cosimus.LinkedList.Find.Delete.{Deletes, ldelete_lem}
use cosimus.Timers.{
  TimerwheelEntry, Timers, Host, wheel_at, with_wheel, timer_wheel_size, timer_delete_internal,
  timer_number, forget, timer_deactivate_internal,
}
use cosimus.Timers.Control.{stop_active, stop_entry, stop_in, stop_timer}
use cosimus.Timers.Pool.{Other, IsPool, peek-set_here, Queue-set, point_to}
use cosimus.Timers.Deactivate.{with_entries, update-run, entry_at-run, Queued, deactivate-Queued}
use cosimus.Timers.Grab.{peek-below}
use cosimus.Timers.Start.{placed}

-- A timer's number tells its index and generation.
number_index : (g k : ℕ) → g < 256 → k < 16777216 → timer_number g k % 16777216 ≡ k
unfolding timer_number
number_index g k hg hk = omega arith

number_generation : (g k : ℕ) → g < 256 → k < 16777216 → timer_number g k / 16777216 ≡ g
unfolding timer_number
number_generation g k hg hk = omega arith

-- `stop_timer` of a number made of a generation and an index comes to the entry.
pub stop_timer-run :
    (host : Host) (st : Timers) (buf : ℕ) (es : List TimerwheelEntry) (g k : ℕ)
    (e : TimerwheelEntry)
    → st.timers_list ≡ some (buf, es)
    → peek es k ≡ some e
    → k ≢ 0
    → g < 256
    → k < 16777216
    → stop_timer host (timer_number g k) st ≡ stop_entry host k g e st
unfolding stop_timer stop_in
stop_timer-run host st buf es g k e held at nonnull hg hk =
    let below : leb (length es) k ≡ false = let h = peek-below es k e at in ground arith in
    ap (λ l. l >>= stop_in host (timer_number g k) st) held
    ∙ rw (number_index g k hg hk, number_generation g k hg hk, not_null k nonnull, below, at) refl

has_middle : (xs : Cells) (r g : ℕ) (ys : Cells) → has r (xs ++ (r, g) ∷ ys) ≡ true
has_middle [] r g ys = ground arith
has_middle ((p, d) ∷ xs) r g ys = let rest = has_middle xs r g ys in ground arith

pub has_null : {h : Heap} {e b : ℕ} (xs : Cells) → Seg h e b xs → has 0 xs ≡ false
has_null [] s = refl
has_null ((p, d) ∷ xs) s =
    let (here, ne, out, t) = Seg-first s in rw (not_null p ne) (has_null xs t)

-- An item of a list is in use.
pub middle_used :
    {h : Heap} {e b : ℕ} (xs : Cells) (r g : ℕ) (ys : Cells)
    → Seg h e b (xs ++ (r, g) ∷ ys)
    → (r ≢ 0) × Marked r h
middle_used {h} xs r g ys s =
    let (sx, sy, apart) = Seg-split xs ((r, g) ∷ ys) s in
    let (here, ne, out, t) = Seg-first sy in (ne, inr (_, listitem_checksig-some h here ne))

-- A list in memory that a deletion elsewhere leaves alone.
Seg-spared :
    {h h' : Heap} {e b : ℕ} (xs : Cells) (r g : ℕ) (ys zs : Cells)
    → Disjoint xs (ys ++ (r, g) ∷ zs)
    → Spares r (ys ++ zs) h h'
    → Seg h e b xs
    → Seg h' e b xs
Seg-spared [] r g ys zs apart spared s = nil
Seg-spared ((p, d) ∷ xs) r g ys zs apart spared s =
    let (here, ne, out, t) = Seg-first s in
    let (py, pz) = Apart-split p ys ((r, g) ∷ zs) apart.0 in
    cons (spared p pz.0 (Apart-append p ys zs py pz.1) ∙ here) ne out
      (Seg-spared xs r g ys zs apart.1 spared t)

-- Entry `e` has its item in its slot of the wheel, between `ys` and `zs`. The first slot, which is
-- looked at afterwards, is the same one or a list elsewhere.
pub record IsOnWheel (host : Host) (st : Timers) (e : TimerwheelEntry) (ys : Cells) (g : ℕ)
    (zs : Cells) : Type 0 where
  pub inside : e.wheel_idx < timer_wheel_size
  pub wheel : IsList st.heap (st.timerwheel e.wheel_idx) (ys ++ (e.wheel_li, g) ∷ zs)
  pub enough : length (ys ++ (e.wheel_li, g) ∷ zs) < host.rounds
  pub first_slot :
      (e.wheel_idx ≡ 0)
      ⊎ ((e.wheel_idx ≢ 0)
          × (xs : Cells) × IsList st.heap (st.timerwheel 0) xs
          × Disjoint xs (ys ++ (e.wheel_li, g) ∷ zs)
          × (length xs < host.rounds))

-- `timer_delete_internal` takes the item from the wheel.
pub delete-run :
    (host : Host) (st : Timers) (buf : ℕ) (es : List TimerwheelEntry) (k : ℕ) (e : TimerwheelEntry)
    (ys : Cells) (g : ℕ) (zs : Cells)
    → st.timers_list ≡ some (buf, es)
    → peek es k ≡ some e
    → IsOnWheel host st e ys g zs
    → (h : Heap) × (timer_delete_internal host k st
        ≡ some (
            with_entries buf
              (set es k (placed 0 0 e))
              (with_wheel e.wheel_idx (some (first_or 0 (ys ++ zs))) h st)))
      × IsList h (first_or 0 (ys ++ zs)) (ys ++ zs)
      × Spares e.wheel_li (ys ++ zs) st.heap h
unfolding timer_delete_internal wheel_at with_wheel
delete-run host st buf es k e ys g zs held at on =
    let w = e.wheel_idx in
    let (nonnull, marked) = middle_used ys e.wheel_li g zs on.wheel.linked in
    let (h, ran, list, freed, spared) = ldelete_lem ys e.wheel_li g zs on.wheel in
    let st1 = with_wheel w (some (first_or 0 (ys ++ zs))) h st in
    (
      h,
      rw
          (
            entry_at-run st buf es k held,
            at,
            lt→ltb w timer_wheel_size on.inside,
            lbelongs-has host.rounds (ys ++ (e.wheel_li, g) ∷ zs) e.wheel_li on.wheel on.enough
                marked,
            has_middle ys e.wheel_li g zs,
            ran,
            update-run (placed 0 0) st1 buf es k e held at,
          )
          refl,
      list,
      spared,
    )

-- The first slot after the deletion.
pub first_slot-IsList :
    (host : Host) (st : Timers) (e : TimerwheelEntry) (ys : Cells) (g : ℕ) (zs : Cells) (h : Heap)
    → IsOnWheel host st e ys g zs
    → IsList h (first_or 0 (ys ++ zs)) (ys ++ zs)
    → Spares e.wheel_li (ys ++ zs) st.heap h
    → (xs : Cells) × IsList h
        (if 0 == e.wheel_idx then first_or 0 (ys ++ zs) else st.timerwheel 0)
        xs
      × (length xs < host.rounds)
first_slot-IsList host st e ys g zs h on list spared = elim on.first_slot [
  | inl zero_idx ↦ (
    ys ++ zs,
    rw zero_idx list,
    omega (arith, length-append ys zs, length-append ys ((e.wheel_li, g) ∷ zs), on.enough),
  )
  | inr (ne, xs, v, apart, short) ↦
      let other : (0 == e.wheel_idx) ≡ false = ground arith in
      (
        xs,
        rw other
            (record { at = v.at; linked = Seg-spared xs e.wheel_li g ys zs apart spared v.linked }),
        short,
      )
]
