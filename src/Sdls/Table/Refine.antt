-- ===== src/Sdls/Table/Refine.antt =====
-- The table of security associations against a map from SPIs to associations.
use leo_dos.Prelude.{
  ℕ, ◌≤◌, ◌≡◌, refl, ◌∙◌, ◌≢◌, ◌⊎◌, inl, inr, Option, none, some, [], ◌∷◌, ◌++◌, arith, ltb, ◌==◌,
  if◌then◌else◌, Bool-cases, length,
}
use leo_dos.Sdls.Association
use leo_dos.Sdls.Association.{
  ServiceType, Error, sa_table_full, unknown_spi, Result, ok, err, map_ok, ManagedSa, is_unkeyed,
  reserved_spi, duplicate_spi, invalid_sa_state,
}
use leo_dos.Sdls.Table.{SaTable, max_sas, find, position, create_with, delete_at, swap_remove}
use leo_dos.Sdls.Table
use leo_dos.Sdls.Table.Command.{
  SaCommand, create, delete, rekey, start, stop, expire, set_arsn, target, apply, effect, update,
}
use leo_dos.Sdls.Table.Lookup.{
  Distinct, Located, located, change, changed, Changed, KeepsSpi, find-append, find-appended,
  find-none,
}

-- The answer to a command, against its effect on the association that its SPI names.
abbrev pub Implements : SaCommand → SaTable → Result SaTable → Type 0
Implements c es (ok fs) =
    (effect c (find (target c) es) ≡ ok (find (target c) fs))
    × ((s : ℕ) → find s fs ≡ (if s == target c then find s fs else find s es))
Implements c es (err x) =
    (effect c (find (target c) es) ≡ err x) ⊎ (x ≡ sa_table_full) × (max_sas ≤ length es)

others :
    (spi : ℕ) (es fs : SaTable)
    → ((s : ℕ) → s ≢ spi → find s fs ≡ find s es)
    → (s : ℕ) → find s fs ≡ (if s == spi then find s fs else find s es)
others spi es fs h s = elim (Bool-cases (s == spi)) [
  | inl e ↦ rw e refl
  | inr e ↦ rw e (h s (ground arith))
]

update-KeepsSpi : (c : SaCommand) (e : ManagedSa) → KeepsSpi e (update c e)
unfolding Association.rekey Association.start Association.stop Association.expire
    Association.set_arsn
update-KeepsSpi (create spi st) e = tt
update-KeepsSpi (delete spi) e = refl
update-KeepsSpi (rekey spi k) e = ground arith
update-KeepsSpi (start spi) e = ground arith
update-KeepsSpi (stop spi) e = ground arith
update-KeepsSpi (expire spi) e = ground arith
update-KeepsSpi (set_arsn spi a) e = refl

Changed-Implements :
    (c : SaCommand) (es : SaTable) (r : Result SaTable)
    → ((o : Option ManagedSa) → effect c o ≡ change (target c) (update c) o)
    → Changed (target c) es (change (target c) (update c) (find (target c) es)) r
    → Implements c es r
Changed-Implements c es (ok fs) h k = (h (find (target c) es) ∙ k.0, others (target c) es fs k.1)
Changed-Implements c es (err x) h k = inl (h (find (target c) es) ∙ k)

delete_at-Implements :
    (spi : ℕ) (es : SaTable) (o : Option (ℕ × ManagedSa))
    → Located spi es o
    → Implements (delete spi) es (delete_at spi es o)
unfolding delete_at
delete_at-Implements spi es none l = inl (rw l refl)
delete_at-Implements spi es (some (i, e)) l = elim (Bool-cases (is_unkeyed e.state)) [
  | inl h ↦ rw (h, l.0, l.1.0) (rw h refl, others spi es (swap_remove es i) l.1.1)
  | inr h ↦ rw (h, l.0) (inl (rw h refl))
]

abbrev Named : ℕ → Result ManagedSa → Type 0
Named spi (ok sa) = sa.sa.spi ≡ spi
Named spi (err _) = Unit

new-Named : (spi : ℕ) (st : ServiceType) → Named spi (Association.new spi st)
unfolding Association.new
new-Named spi st = ground arith

create_with-Implements :
    (spi : ℕ) (st : ServiceType) (es : SaTable) (o : Option ManagedSa) (r : Result ManagedSa)
    → find spi es ≡ o
    → Association.new spi st ≡ r
    → Named spi r
    → Implements (create spi st) es (create_with spi es o r)
unfolding create_with
create_with-Implements spi st es (some e) r h k n = rw h (inl refl)
create_with-Implements spi st es none (err x) h k n = rw (h, k) (inl refl)
create_with-Implements spi st es none (ok sa) h k n = elim (Bool-cases (ltb (length es) max_sas)) [
  | inl b ↦
      rw (b, h, k, find-appended spi es sa n (find-none spi es h))
        (refl, others spi es (es ++ (sa ∷ [])) (λ s d. find-append s es sa (ground arith)))
  | inr b ↦ rw b (inr (refl, ground arith))
]

-- Whatever the command, on a table of distinct SPIs: if the table answers with a new table, then the
-- association of the command's SPI in it is the one that the contract gives, and every other SPI's is as before;
-- if it answers with an error, that is the contract's error, or that the table is full.
pub apply-Implements : (c : SaCommand) (es : SaTable) → Distinct es → Implements c es (apply c es)
unfolding Table.create Table.delete Table.rekey Table.start Table.stop Table.expire Table.set_arsn
apply-Implements (create spi st) es d =
    create_with-Implements spi st es _ _ refl refl (new-Named spi st)
apply-Implements (delete spi) es d =
    delete_at-Implements spi es (position spi es) (located spi es d)
apply-Implements (rekey spi k) es d =
    Changed-Implements (rekey spi k) es _ (λ o. ground arith)
      (changed spi (Association.rekey k) es (update-KeepsSpi (rekey spi k)))
apply-Implements (start spi) es d =
    Changed-Implements (start spi) es _ (λ o. ground arith)
      (changed spi Association.start es (update-KeepsSpi (start spi)))
apply-Implements (stop spi) es d =
    Changed-Implements (stop spi) es _ (λ o. ground arith)
      (changed spi Association.stop es (update-KeepsSpi (stop spi)))
apply-Implements (expire spi) es d =
    Changed-Implements (expire spi) es _ (λ o. ground arith)
      (changed spi Association.expire es (update-KeepsSpi (expire spi)))
apply-Implements (set_arsn spi a) es d =
    Changed-Implements (set_arsn spi a) es _ (λ o. ground arith)
      (changed spi (λ e. ok (Association.set_arsn a e)) es (update-KeepsSpi (set_arsn spi a)))
