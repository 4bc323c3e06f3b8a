-- ===== src/Sdls/Table/Lookup.antt =====
-- The table of security associations as a map from SPIs.
use leo_dos.Prelude.{
  ℕ, ◌≡◌, refl, sym, ap, ◌∙◌, ◌≢◌, inl, inr, Option, none, some, [], ◌∷◌, ◌++◌, arith, ◌==◌,
  if◌then◌else◌, ==_eq, ==_ne, Bool-cases, All, All-map,
}
use leo_dos.Sdls.Association.{unknown_spi, Result, ok, err, map_ok, ManagedSa}
use leo_dos.Sdls.Table.{
  SaTable, find, position, one_further, unsnoc, last_first, swap_remove, find_mut,
}

-- No two entries have one SPI.
abbrev pub Distinct : SaTable → Type 0
Distinct [] = Unit
Distinct (e ∷ es) = All (λ f. f.sa.spi ≢ e.sa.spi) es × Distinct es

pub find_absent : (s : ℕ) (es : SaTable) → All (λ f. f.sa.spi ≢ s) es → find s es ≡ none
unfolding find
find_absent s [] h = refl
find_absent s (e ∷ es) h = rw (==_ne e.sa.spi s h.0) (find_absent s es h.1)

pub All-unsnoc {ℓ} :
    (P : ManagedSa → Type ℓ) (x : ManagedSa) (ys : SaTable)
    → P x
    → All P ys
    → P (unsnoc x ys).1 × All P (unsnoc x ys).0
unfolding unsnoc
All-unsnoc P x [] p ps = (p, tt)
All-unsnoc P x (y ∷ ys) p ps =
    ((All-unsnoc P y ys ps.0 ps.1).0, (p, (All-unsnoc P y ys ps.0 ps.1).1))

pub find-here : (s : ℕ) (e : ManagedSa) (es : SaTable) → e.sa.spi ≡ s → find s (e ∷ es) ≡ some e
unfolding find
find-here s e es h = rw (==_eq e.sa.spi s h) refl

pub find-there : (s : ℕ) (e : ManagedSa) (es : SaTable) → e.sa.spi ≢ s → find s (e ∷ es) ≡ find s es
unfolding find
find-there s e es h = rw (==_ne e.sa.spi s h) refl

-- Distinct entries are found in any order.
find-swap :
    (s : ℕ) (x y : ManagedSa) (es : SaTable)
    → x.sa.spi ≢ y.sa.spi
    → find s (x ∷ y ∷ es) ≡ find s (y ∷ x ∷ es)
unfolding find
find-swap s x y es h = ground arith

find-tail :
    (s : ℕ) (x : ManagedSa) (es fs : SaTable)
    → find s es ≡ find s fs
    → find s (x ∷ es) ≡ find s (x ∷ fs)
unfolding find
find-tail s x es fs h = ap (λ o. if x.sa.spi == s then some x else o) h

find-last_first : (s : ℕ) (es : SaTable) → Distinct es → find s (last_first es) ≡ find s es
unfolding last_first unsnoc
find-last_first s [] d = refl
find-last_first s (x ∷ []) d = refl
find-last_first s (x ∷ y ∷ ys) d =
    let l = (unsnoc y ys).1 in
    let u = (unsnoc y ys).0 in
    let away = (All-unsnoc (λ f. f.sa.spi ≢ x.sa.spi) y ys d.0.0 d.0.1).0 in
    find-swap s l x u away ∙ find-tail s x (l ∷ u) (y ∷ ys) (find-last_first s (y ∷ ys) d.1)

-- What a table promises without the entry of one SPI.
abbrev pub Without : ℕ → SaTable → SaTable → Type 0
Without spi es fs = (find spi fs ≡ none) × ((s : ℕ) → s ≢ spi → find s fs ≡ find s es)

abbrev pub Located : ℕ → SaTable → Option (ℕ × ManagedSa) → Type 0
Located spi es none = find spi es ≡ none
Located spi es (some (i, e)) = (find spi es ≡ some e) × Without spi es (swap_remove es i)

Located-further :
    (spi : ℕ) (x : ManagedSa) (es : SaTable) (o : Option (ℕ × ManagedSa))
    → x.sa.spi ≢ spi
    → Located spi es o
    → Located spi (x ∷ es) (one_further o)
unfolding swap_remove
Located-further spi x es none h l = find-there spi x es h ∙ l
Located-further spi x es (some (i, e)) h l = (
  find-there spi x es h ∙ l.0,
  (
    find-there spi x (swap_remove es i) h ∙ l.1.0,
    λ s k. find-tail s x (swap_remove es i) es (l.1.1 s k),
  ),
)

Located-here :
    (spi : ℕ) (x : ManagedSa) (es : SaTable)
    → x.sa.spi ≡ spi
    → Distinct (x ∷ es)
    → Located spi (x ∷ es) (some (0, x))
unfolding swap_remove
Located-here spi x es h d = (
  find-here spi x es h,
  (
    find-last_first spi es d.1
        ∙ find_absent spi es
            (All-map (λ f. f.sa.spi ≢ x.sa.spi) (λ f. f.sa.spi ≢ spi) es (λ f k. ground arith) d.0),
    λ s k. find-last_first s es d.1 ∙ sym (find-there s x es (ground arith)),
  ),
)

pub located : (spi : ℕ) (es : SaTable) → Distinct es → Located spi es (position spi es)
unfolding position
located spi [] d = find_absent spi [] tt
located spi (x ∷ es) d = elim (Bool-cases (x.sa.spi == spi)) [
  | inl e ↦ rw e (Located-here spi x es (ground arith) d)
  | inr e ↦ rw e (Located-further spi x es (position spi es) (ground arith) (located spi es d.1))
]

-- What `f` makes of an entry that may be missing.
abbrev pub change :
    ℕ → (ManagedSa → Result ManagedSa) → Option ManagedSa → Result (Option ManagedSa)
change spi f none = err (unknown_spi spi)
change spi f (some e) = map_ok some (f e)

abbrev pub KeepsSpi : ManagedSa → Result ManagedSa → Type 0
KeepsSpi e (ok e') = e'.sa.spi ≡ e.sa.spi
KeepsSpi e (err _) = Unit

abbrev pub Changed : ℕ → SaTable → Result (Option ManagedSa) → Result SaTable → Type 0
Changed spi es r (ok fs) = (r ≡ ok (find spi fs)) × ((s : ℕ) → s ≢ spi → find s fs ≡ find s es)
Changed spi es r (err x) = r ≡ err x

Changed-here :
    (spi : ℕ) (e : ManagedSa) (es : SaTable) (r : Result ManagedSa)
    → e.sa.spi ≡ spi
    → KeepsSpi e r
    → Changed spi (e ∷ es) (map_ok some r) (map_ok (λ e'. e' ∷ es) r)
Changed-here spi e es (err x) h k = refl
Changed-here spi e es (ok e') h k = (
  ap ok (sym (find-here spi e' es (k ∙ h))),
  λ s n. find-there s e' es (ground arith) ∙ sym (find-there s e es (ground arith)),
)

Changed-there :
    (spi : ℕ) (e : ManagedSa) (es : SaTable) (o : Result (Option ManagedSa)) (r : Result SaTable)
    → e.sa.spi ≢ spi
    → Changed spi es o r
    → Changed spi (e ∷ es) o (map_ok (λ es'. e ∷ es') r)
Changed-there spi e es o (err x) h c = c
Changed-there spi e es o (ok fs) h c =
    (c.0 ∙ ap ok (sym (find-there spi e fs h)), λ s n. find-tail s e fs es (c.1 s n))

pub changed :
    (spi : ℕ) (f : ManagedSa → Result ManagedSa) (es : SaTable)
    → ((e : ManagedSa) → KeepsSpi e (f e))
    → Changed spi es (change spi f (find spi es)) (find_mut spi f es)
unfolding find find_mut
changed spi f [] k = refl
changed spi f (e ∷ es) k = elim (Bool-cases (e.sa.spi == spi)) [
  | inl h ↦ rw h (Changed-here spi e es (f e) (ground arith) (k e))
  | inr h ↦ rw h (Changed-there spi e es _ (find_mut spi f es) (ground arith) (changed spi f es k))
]

pub find-append :
    (s : ℕ) (es : SaTable) (e : ManagedSa) → e.sa.spi ≢ s → find s (es ++ (e ∷ [])) ≡ find s es
find-append s [] e h = find-there s e [] h
find-append s (x ∷ es) e h = find-tail s x (es ++ (e ∷ [])) es (find-append s es e h)

-- No entry that is passed over has the SPI.
pub find-none : (s : ℕ) (es : SaTable) → find s es ≡ none → All (λ f. f.sa.spi ≢ s) es
unfolding find
find-none s [] h = tt
find-none s (x ∷ es) h =
    let parts : (x.sa.spi ≢ s) × (find s es ≡ none) = ground arith in
    (parts.0, find-none s es parts.1)

pub find-appended :
    (s : ℕ) (es : SaTable) (e : ManagedSa)
    → e.sa.spi ≡ s
    → All (λ f. f.sa.spi ≢ s) es
    → find s (es ++ (e ∷ [])) ≡ some e
find-appended s [] e h k = find-here s e [] h
find-appended s (x ∷ es) e h k = find-there s x (es ++ (e ∷ [])) k.0 ∙ find-appended s es e h k.1
