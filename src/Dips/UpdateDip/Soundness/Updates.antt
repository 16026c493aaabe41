-- ===== src/Dips/UpdateDip/Soundness/Updates.antt =====
-- internal/dips/activities/update_dip.go and internal/dips/persistence/ent/client/dip.go: updates keep
-- the table sound.
use sfa_enduro_workflows.Base.{ℕ, ◌<◌, ◌≡◌, refl, ◌⊎◌, inl, inr, String, Option, none, some, arith}
use sfa_enduro_workflows.Dips.Datatypes.{Dip}
use sfa_enduro_workflows.Dips.UpdateDip.{UpdateDipParams, updater}
use sfa_enduro_workflows.Dips.UpdateDip.Lifecycle.{
  updated, updated-Transition, updated-IsWellFormed,
}
use sfa_enduro_workflows.Dips.Persistence.{
  Faults, Table, find_row, save_update, update_found, update_dip, set_columns,
}
use sfa_enduro_workflows.Dips.Persistence.Pending.{In}
use sfa_enduro_workflows.Dips.Persistence.Updates.{find_row-In, save_update-table}
use sfa_enduro_workflows.Dips.UpdateDip.Soundness.{
  IsSound, In-IsWellFormed, Transition-one_pending, IsSound-save_row,
}

set_columns-dbid : (d up : Dip) → (set_columns d up).dbid ≡ d.dbid
unfolding set_columns
set_columns-dbid d up = refl

set_columns-doc_key : (d up : Dip) → (set_columns d up).doc_key ≡ d.doc_key
unfolding set_columns
set_columns-doc_key d up = refl

updated-some :
    (p : UpdateDipParams) (now : ℕ) (d up : Dip)
    → updater p now d ≡ some up
    → updated p now d ≡ some (set_columns d up)
updated-some p now d up h = ground arith

module _ (f : Faults) (p : UpdateDipParams) (now : ℕ) (positive : 0 < now) (rows : Table)
    (h : IsSound rows) where
  save_update-IsSound :
      (d : Dip) (up : Option Dip)
      → In d rows
      → updater p now d ≡ up
      → IsSound (save_update f rows d up).1
  unfolding save_update
  save_update-IsSound d none m e = h
  save_update-IsSound d (some up) m e =
      let w = In-IsWellFormed d rows h.rows_well_formed m in
      let u = updated-some p now d up e in
      elim (save_update-table f rows d (some up)) [
        | inl q ↦ rw q h
        | inr q ↦ rw q (
            IsSound-save_row d (set_columns d up) rows h m (set_columns-dbid d up)
              (λ doc.
                Transition-one_pending now doc d (set_columns d up) (set_columns-doc_key d up)
                  (updated-Transition p now d (set_columns d up) w.valid u))
              (updated-IsWellFormed p now d (set_columns d up) positive w u))
      ]

  update_found-IsSound :
      (id : String) (found : Option Dip)
      → find_row id rows ≡ found
      → IsSound (update_found f (updater p now) rows found).1
  unfolding update_found
  update_found-IsSound id none e = h
  update_found-IsSound id (some d) e =
      save_update-IsSound d (updater p now d) (find_row-In id d rows e).0 refl

update_dip-table :
    (f : Faults) (id : String) (up : Dip → Option Dip) (rows : Table)
    → ((update_dip f id up rows).1 ≡ rows)
      ⊎ ((update_dip f id up rows).1 ≡ (update_found f up rows (find_row id rows)).1)
unfolding update_dip
update_dip-table f id up rows = ground arith

-- Whichever statements fail, an update that a workflow asks for, at a time other than the zero time,
-- keeps the table sound: the ids grow, no document has two DIPs queued or in progress, and each row is
-- well-formed.
pub update_dip-IsSound :
    (f : Faults) (id : String) (p : UpdateDipParams) (now : ℕ) (rows : Table)
    → 0 < now
    → IsSound rows
    → IsSound (update_dip f id (updater p now) rows).1
update_dip-IsSound f id p now rows positive h = elim (update_dip-table f id (updater p now) rows) [
  | inl q ↦ rw q h
  | inr q ↦ rw q (update_found-IsSound f p now positive rows h id (find_row id rows) refl)
]
