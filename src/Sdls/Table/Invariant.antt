-- ===== src/Sdls/Table/Invariant.antt =====
-- The invariant of the table of security associations, over its operations.
use leo_dos.Prelude.{
  ℕ, zero, suc, ◌≤◌, ◌<◌, ◌≡◌, refl, sym, ap, ◌≢◌, inl, inr, Bool, true, false, Option, none, some,
  [], ◌∷◌, ◌++◌, arith, ltb, ◌==◌, if◌then◌else◌, tests, Bool-cases, length, All, length-append,
  All-append,
}
use leo_dos.Sdls.Association
use leo_dos.Sdls.Association.{
  ServiceType, SaState, unkeyed, keyed, operational, Result, ok, err, map_ok, ManagedSa, is_unkeyed,
}
use leo_dos.Sdls.Table.{
  SaTable, max_sas, find, position, one_further, unsnoc, last_first, swap_remove, find_mut,
  create_with, delete_at,
}
use leo_dos.Sdls.Table
use leo_dos.Sdls.Table.Command.{
  SaCommand, create, delete, rekey, start, stop, expire, set_arsn, target, apply, outcome, update,
}
use leo_dos.Sdls.Table.Lookup.{Distinct, find-none, All-unsnoc}

-- An association has a key unless it is unkeyed.
abbrev pub HasKey : SaState → Option ℕ → Type 0
HasKey unkeyed none = Unit
HasKey unkeyed (some _) = ⊥
HasKey _ none = ⊥
HasKey _ (some _) = Unit

-- The SPI is not one of the two reserved.
abbrev pub IsEntry : ManagedSa → Type 0
IsEntry e = (0 < e.sa.spi) × (e.sa.spi < 65535) × HasKey e.state e.key_id

pub record IsValid (es : SaTable) : Type 0 where
  pub entries : All IsEntry es
  pub distinct : Distinct es
  pub room : length es ≤ max_sas

abbrev Avoids : ℕ → SaTable → Type 0
Avoids t es = All (λ f. f.sa.spi ≢ t) es

-- What the new table keeps of the old.
pub record Kept (es fs : SaTable) : Type 0 where
  pub entries : All IsEntry es → All IsEntry fs
  pub distinct : Distinct es → Distinct fs
  pub no_longer : length fs ≤ length es
  pub avoids : (t : ℕ) → Avoids t es → Avoids t fs

abbrev KeptIn : SaTable → Result SaTable → Type 0
KeptIn es (ok fs) = Kept es fs
KeptIn es (err _) = Unit

-- One association keeps its SPI and what holds of it.
abbrev Same : ManagedSa → Result ManagedSa → Type 0
Same e (ok f) = (f.sa.spi ≡ e.sa.spi) × (IsEntry e → IsEntry f)
Same e (err _) = Unit

kept_here :
    (e : ManagedSa) (es : SaTable) (r : Result ManagedSa)
    → Same e r
    → KeptIn (e ∷ es) (map_ok (λ e'. e' ∷ es) r)
kept_here e es (err x) s = tt
kept_here e es (ok f) s = record {
  entries = λ h. (s.1 h.0, h.1);
  distinct = λ d. rw s.0 d;
  no_longer = omega arith;
  avoids = λ t h. (rw s.0 h.0, h.1);
}

kept_there :
    (e : ManagedSa) (es : SaTable) (r : Result SaTable)
    → KeptIn es r
    → KeptIn (e ∷ es) (map_ok (λ es'. e ∷ es') r)
kept_there e es (err x) k = tt
kept_there e es (ok fs) k = record {
  entries = λ h. (h.0, k.entries h.1);
  distinct = λ d. (k.avoids e.sa.spi d.0, k.distinct d.1);
  no_longer = omega (arith, k.no_longer);
  avoids = λ t h. (h.0, k.avoids t h.1);
}

if-KeptIn :
    (b : Bool) (es : SaTable) (x y : Result SaTable)
    → KeptIn es x
    → KeptIn es y
    → KeptIn es (if b then x else y)
if-KeptIn true es x y h k = h
if-KeptIn false es x y h k = k

find_mut-KeptIn :
    (spi : ℕ) (f : ManagedSa → Result ManagedSa) (es : SaTable)
    → ((e : ManagedSa) → Same e (f e))
    → KeptIn es (find_mut spi f es)
unfolding find_mut
find_mut-KeptIn spi f [] s = tt
find_mut-KeptIn spi f (e ∷ es) s =
    if-KeptIn (e.sa.spi == spi) (e ∷ es) _ _ (kept_here e es (f e) (s e))
      (kept_there e es (find_mut spi f es) (find_mut-KeptIn spi f es s))

update-Same : (c : SaCommand) (e : ManagedSa) → Same e (update c e)
unfolding Association.rekey Association.start Association.stop Association.expire
    Association.set_arsn
update-Same (create spi st) e = tt
update-Same (delete spi) e = (refl, λ h. h)
update-Same (rekey spi k) e = ground arith
update-Same (start spi) e = ground arith
update-Same (stop spi) e = ground arith
update-Same (expire spi) e = ground arith
update-Same (set_arsn spi a) e = (refl, λ h. h)

Distinct-unsnoc :
    (x : ManagedSa) (ys : SaTable)
    → Distinct (x ∷ ys)
    → Distinct ((unsnoc x ys).1 ∷ (unsnoc x ys).0)
unfolding unsnoc
Distinct-unsnoc x [] d = d
Distinct-unsnoc x (y ∷ ys) d =
    let away = All-unsnoc (λ f. f.sa.spi ≢ x.sa.spi) y ys d.0.0 d.0.1 in
    let rest = Distinct-unsnoc y ys d.1 in (((λ e. away.0 (sym e)), rest.0), (away.1, rest.1))

length-unsnoc : (x : ManagedSa) (ys : SaTable) → length (unsnoc x ys).0 ≡ length ys
unfolding unsnoc
length-unsnoc x [] = refl
length-unsnoc x (y ∷ ys) = ap suc (length-unsnoc y ys)

swap_remove-Kept : (es : SaTable) (pos : ℕ) → Kept es (swap_remove es pos)
unfolding swap_remove last_first
swap_remove-Kept [] pos = record {
  entries = λ h. h;
  distinct = λ d. d;
  no_longer = omega arith;
  avoids = λ t h. h;
}
swap_remove-Kept (x ∷ []) zero = record {
  entries = λ h. tt;
  distinct = λ d. tt;
  no_longer = omega arith;
  avoids = λ t h. tt;
}
swap_remove-Kept (x ∷ y ∷ ys) zero = record {
  entries = λ h. All-unsnoc IsEntry y ys h.1.0 h.1.1;
  distinct = λ d. Distinct-unsnoc y ys d.1;
  no_longer = omega (arith, length-unsnoc y ys);
  avoids = λ t h. All-unsnoc (λ f. f.sa.spi ≢ t) y ys h.1.0 h.1.1;
}
swap_remove-Kept (x ∷ xs) (suc pos) =
    kept_there x xs (ok (swap_remove xs pos)) (swap_remove-Kept xs pos)

kept-IsValid :
    (es : SaTable) (r : Result SaTable) → KeptIn es r → IsValid es → IsValid (outcome es r)
kept-IsValid es (err x) k v = v
kept-IsValid es (ok fs) k v = record {
  entries = k.entries v.entries;
  distinct = k.distinct v.distinct;
  room = omega (arith, k.no_longer, v.room);
}

delete_at-KeptIn :
    (spi : ℕ) (es : SaTable) (o : Option (ℕ × ManagedSa)) → KeptIn es (delete_at spi es o)
unfolding delete_at
delete_at-KeptIn spi es none = tt
delete_at-KeptIn spi es (some (i, e)) =
    if-KeptIn (is_unkeyed e.state) es (ok (swap_remove es i)) _ (swap_remove-Kept es i) tt

Distinct-append :
    (es : SaTable) (e : ManagedSa) → Distinct es → Avoids e.sa.spi es → Distinct (es ++ (e ∷ []))
Distinct-append [] e d a = (tt, tt)
Distinct-append (x ∷ es) e d a = (
  All-append (λ f. f.sa.spi ≢ x.sa.spi) es (e ∷ []) d.0 ((λ h. a.0 (sym h)), tt),
  Distinct-append es e d.1 a.1,
)

-- A new association is a well-formed entry of the SPI that was asked for.
abbrev Fresh : ℕ → Result ManagedSa → Type 0
Fresh spi (ok sa) = (sa.sa.spi ≡ spi) × IsEntry sa
Fresh spi (err _) = Unit

new-Fresh : (spi : ℕ) (st : ServiceType) → spi < 65536 → Fresh spi (Association.new spi st)
unfolding Association.new
new-Fresh spi st h = ground arith

create_with-IsValid :
    (spi : ℕ) (es : SaTable) (o : Option ManagedSa) (r : Result ManagedSa)
    → find spi es ≡ o
    → Fresh spi r
    → IsValid es
    → IsValid (outcome es (create_with spi es o r))
unfolding create_with
create_with-IsValid spi es (some e) r h n v = v
create_with-IsValid spi es none (err x) h n v = v
create_with-IsValid spi es none (ok sa) h n v = elim (Bool-cases (ltb (length es) max_sas)) [
  | inl b ↦ rw b (record {
    entries = All-append IsEntry es (sa ∷ []) v.entries (n.1, tt);
    distinct = Distinct-append es sa v.distinct (rw n.0 (find-none spi es h));
    room = omega (tests, length-append es (sa ∷ []), b);
  })
  | inr b ↦ rw b v
]

-- An SPI is a `u16`.
abbrev pub HasSpi16 : SaCommand → Type 0
HasSpi16 c = target c < 65536

pub new-IsValid : IsValid Table.new
new-IsValid = record { entries = tt; distinct = tt; room = omega arith }

-- Every command whose SPI is in `u16` keeps a valid table valid, whether it succeeds or not: no two associations share an SPI,
-- none has a reserved one, an association is without a key exactly when it is unkeyed, and there
-- are 64 at most.
pub apply-IsValid :
    (c : SaCommand) (es : SaTable) → HasSpi16 c → IsValid es → IsValid (outcome es (apply c es))
unfolding Table.create Table.delete Table.rekey Table.start Table.stop Table.expire Table.set_arsn
apply-IsValid (create spi st) es h v =
    create_with-IsValid spi es (find spi es) _ refl (new-Fresh spi st h) v
apply-IsValid (delete spi) es h v = kept-IsValid es _ (delete_at-KeptIn spi es (position spi es)) v
apply-IsValid (rekey spi k) es h v =
    kept-IsValid es _ (find_mut-KeptIn spi (Association.rekey k) es (update-Same (rekey spi k))) v
apply-IsValid (start spi) es h v =
    kept-IsValid es _ (find_mut-KeptIn spi Association.start es (update-Same (start spi))) v
apply-IsValid (stop spi) es h v =
    kept-IsValid es _ (find_mut-KeptIn spi Association.stop es (update-Same (stop spi))) v
apply-IsValid (expire spi) es h v =
    kept-IsValid es _ (find_mut-KeptIn spi Association.expire es (update-Same (expire spi))) v
apply-IsValid (set_arsn spi a) es h v =
    kept-IsValid es _
      (find_mut-KeptIn spi (λ e. ok (Association.set_arsn a e)) es (update-Same (set_arsn spi a))) v
