-- ===== src/Fmv/Cursor.antt =====
-- What the field functions of fmv_src/sta_fmv.c share: the packet's bytes `data` with the
-- position `*i`. A function `X_UDP(val, data, &i, datasz)` is a `Writer`; `UDP_X(&val, data, &i, …)`
-- is a `Reader`, whose Boolean says that `val` is not NULL. `none` is an access outside `data`.
use native.Mathlib.Nat.{add-zero}
use cosimus.Base.{
  ℕ, suc, ◌+◌, ◌≤◌, ◌<◌, ◌≡◌, ap, ◌∙◌, Bool, true, Option, none, some, List, [], ◌∷◌, inl, inr,
  arith, ℤ, pos, negsuc, length, get_elem?, poke_all, overwrite, poke_all-overwrite, peek-overwrite,
  ltb, Bool-cases, ◌>>=◌, if◌then◌else◌,
}

pub record Cursor : Type 0 where
  pub mem : List ℕ
  pub pos : ℕ

abbrev pub Writer : Type 0 → Type 0
Writer V = V → Cursor → ℕ → Option (ℤ × Cursor)

abbrev pub Reader : Type 0 → Type 0
Reader V = Bool → Cursor → Option (Option V × Cursor)

-- `*i += n`
abbrev pub advance : Cursor → ℕ → Cursor
advance c n = record c { pos = c.pos + n }

-- `if(val != NULL) *val = v; *i += n`
abbrev pub fetch : {V : Type 0} → Bool → Option V → Cursor → ℕ → Option (Option V × Cursor)
fetch present v c n =
    if present then (v >>= λ x. some (some x, advance c n)) else some (none, advance c n)

-- `return -1`
abbrev pub refuse : Cursor → Option (ℤ × Cursor)
refuse c = some (negsuc 0, c)

-- `data[*i + 0] = b0; data[*i + 1] = b1; …; *i += n; return 0`
unfoldable pub put_bytes : Cursor → List ℕ → Option (ℤ × Cursor)
put_bytes c bs =
    poke_all c.mem c.pos bs >>= λ m. some (pos 0, record { mem = m; pos = c.pos + length bs })

-- The cursor behind the bytes `bs`, which stand where it stood.
abbrev pub written : Cursor → List ℕ → Cursor
written c bs = record { mem = overwrite c.mem c.pos bs; pos = c.pos + length bs }

-- The same bytes, read again from where `c` stands.
abbrev pub back_to : Cursor → Cursor → Cursor
back_to c d = record d { pos = c.pos }

pub put_bytes-written :
    (c : Cursor) (bs : List ℕ)
    → c.pos + length bs ≤ length c.mem
    → put_bytes c bs ≡ some (pos 0, written c bs)
unfolding put_bytes
put_bytes-written c bs h = rw (poke_all-overwrite c.mem c.pos bs h)

-- A guarded write of the bytes `bs`, and what it comes to.
abbrev pub Puts : Option (ℤ × Cursor) → Bool → Cursor → List ℕ → Type 0
Puts r fits c bs = r ≡ (if fits then some (pos 0, written c bs) else some (negsuc 0, c))

pub guarded_put :
    (c : Cursor) (bs bs' : List ℕ) (n datasz : ℕ)
    → datasz ≤ length c.mem
    → length bs ≤ suc n
    → bs ≡ bs'
    → Puts
        (if ltb (c.pos + n) datasz then put_bytes c bs else refuse c)
        (ltb (c.pos + n) datasz)
        c
        bs'
guarded_put c bs bs' n datasz h k e = elim (Bool-cases (ltb (c.pos + n) datasz)) [
  | inl fits ↦
      rw fits (put_bytes-written c bs (ground arith) ∙ ap (λ t. some (pos 0, written c t)) e)
  | inr full ↦ rw full
]

pub guarded_byte :
    (c : Cursor) {b b' : ℕ} (datasz : ℕ)
    → datasz ≤ length c.mem
    → b ≡ b'
    → Puts
        (if ltb c.pos datasz then put_bytes c (b ∷ []) else refuse c)
        (ltb c.pos datasz)
        c
        (b' ∷ [])
guarded_byte c {b} datasz h e = elim (Bool-cases (ltb c.pos datasz)) [
  | inl fits ↦
      rw fits
        (put_bytes-written c (b ∷ []) (ground arith) ∙ ap (λ t. some (pos 0, written c (t ∷ []))) e)
  | inr full ↦ rw full
]

-- Read back from where `c` stands, the bytes `bs` are `v`, and the reader stops behind them.
abbrev pub Reads : {V : Type 0} → Reader V → Cursor → List ℕ → V → Type 0
Reads read c bs v = read true (back_to c (written c bs)) ≡ some (some v, written c bs)

pub byte_at :
    (c : Cursor) (bs : List ℕ)
    → c.pos + length bs ≤ length c.mem
    → (k : ℕ) → k < length bs
    → get_elem? (overwrite c.mem c.pos bs) (c.pos + k) ≡ get_elem? bs k
byte_at c bs h k l = peek-overwrite c.mem c.pos bs k l h

pub first_byte :
    (c : Cursor) (bs : List ℕ)
    → c.pos + length bs ≤ length c.mem
    → 0 < length bs
    → get_elem? (overwrite c.mem c.pos bs) c.pos ≡ get_elem? bs 0
first_byte c bs h l = rw add-zero at (byte_at c bs h 0 l)

-- The writer returns 0 with the bytes `bs` in place, and the reader takes them back to `v`.
abbrev pub Transfers : {V : Type 0} → Writer V → Reader V → Cursor → ℕ → V → List ℕ → Type 0
Transfers write read c datasz v bs =
    (write v c datasz ≡ some (pos 0, written c bs)) × Reads read c bs v

-- From what a writer comes to, at an input that fits.
pub Puts-fits :
    {r : Option (ℤ × Cursor)} {fits : Bool} (c : Cursor) (bs : List ℕ)
    → Puts r fits c bs
    → fits ≡ true
    → r ≡ some (pos 0, written c bs)
Puts-fits c bs p e = rw e at p
