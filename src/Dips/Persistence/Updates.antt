-- ===== src/Dips/Persistence/Updates.antt =====
-- internal/dips/persistence/ent/client/dip.go: UpdateDIP leaves all but one row alone.
use sfa_enduro_workflows.Base.{
  ℕ, ◌≡◌, refl, ap, ◌<◌, ◌⊎◌, inl, inr, String, Bool, true, false, Option, none, some, [], ◌∷◌,
  str_eq, if◌then◌else◌, arith, map,
}
use mathlib.Core.Option.{get_or}
use sfa_enduro_workflows.Dips.Datatypes.{Dip}
use sfa_enduro_workflows.Dips.Persistence.{
  Kind, ok, err, Faults, Table, find_row, save_row, save_update, update_found, update_dip,
  set_columns,
}
use sfa_enduro_workflows.Dips.Persistence.Pending.{Increasing, In, save_row-absent, In-above}

-- The columns that no update sets.
pub record Identity : Type 0 where
  pub dbid : ℕ
  pub uuid : String
  pub doc_key : String
  pub created_at : ℕ

abbrev pub identity : Dip → Identity
identity d = record { dbid = d.dbid; uuid = d.uuid; doc_key = d.doc_key; created_at = d.created_at }

-- The rows but those of one UUID.
abbrev pub others : String → Table → Table
others id [] = []
others id (d ∷ rows) = let rest = others id rows in if str_eq d.uuid id then rest else d ∷ rest

pub find_row-In :
    (id : String) (d : Dip) (rows : Table)
    → find_row id rows ≡ some d
    → In d rows × (str_eq d.uuid id ≡ true)
unfolding find_row
find_row-In id d [] h = cc
find_row-In id d (e ∷ rows) h = ground (arith, find_row-In id d rows)

set_columns-uuid : (d up : Dip) → (set_columns d up).uuid ≡ d.uuid
unfolding set_columns
set_columns-uuid d up = refl

save_row_frame :
    (low : ℕ) (id : String) (d new : Dip) (rows : Table)
    → Increasing low rows
    → In d rows
    → identity new ≡ identity d
    → str_eq d.uuid id ≡ true
    → (map identity (save_row d.dbid new rows) ≡ map identity rows)
      × (others id (save_row d.dbid new rows) ≡ others id rows)
unfolding save_row
save_row_frame low id d new [] h m same e = elim m [ ]
save_row_frame low id d new (x ∷ rows) h (inl p) same e =
    ground (arith, save_row-absent x.dbid d.dbid new rows h.1)
save_row_frame low id d new (x ∷ rows) h (inr m) same e =
    ground (arith, In-above x.dbid d rows h.1 m, save_row_frame x.dbid id d new rows h.1 m same e)

find_row-above :
    (low : ℕ) (id : String) (d : Dip) (rows : Table)
    → Increasing low rows
    → find_row id rows ≡ some d
    → low < d.dbid
find_row-above low id d rows h m = In-above low d rows h (find_row-In id d rows m).0

find_row-save_row :
    (low : ℕ) (id : String) (d new : Dip) (rows : Table)
    → Increasing low rows
    → find_row id rows ≡ some d
    → new.uuid ≡ d.uuid
    → find_row id (save_row d.dbid new rows) ≡ some new
unfolding save_row find_row
find_row-save_row low id d new [] h m same = cc
find_row-save_row low id d new (x ∷ rows) h m same = ground (
  arith,
  find_row-above x.dbid id d rows h.1,
  find_row-save_row x.dbid id d new rows h.1,
  save_row-absent x.dbid d.dbid new rows h.1,
)

module _ (f : Faults) (rows : Table) where
  -- The table behind an update, and the row that is returned.
  pub save_update-table :
      (d : Dip) (up : Option Dip)
      → let r = save_update f rows d up in
        (r.1 ≡ rows) ⊎ (r.1 ≡ save_row d.dbid (set_columns d (get_or up d)) rows)
  unfolding save_update
  save_update-table d up = ground arith

  save_update-err :
      (d : Dip) (up : Option Dip) (k : Kind) (joined : Bool)
      → (save_update f rows d up).0 ≡ err k joined
      → f.commit_fails ≡ false
      → (save_update f rows d up).1 ≡ rows
  unfolding save_update
  save_update-err d up k joined h c = ground arith

  save_update-ok :
      (d e : Dip) (up : Option Dip)
      → (save_update f rows d up).0 ≡ ok e
      → (e ≡ set_columns d (get_or up d))
        × ((save_update f rows d up).1 ≡ save_row d.dbid (set_columns d (get_or up d)) rows)
  unfolding save_update
  save_update-ok d e none h = cc
  save_update-ok d e (some up) h = ground arith

  update_found_frame :
      (id : String) (updater : Dip → Option Dip) (found : Option Dip)
      → find_row id rows ≡ found
      → Increasing 0 rows
      → (map identity (update_found f updater rows found).1 ≡ map identity rows)
        × (others id (update_found f updater rows found).1 ≡ others id rows)
  unfolding update_found set_columns
  update_found_frame id updater none e h = (refl, refl)
  update_found_frame id updater (some d) e h =
      let (m, same) = find_row-In id d rows e in
      elim (save_update-table d (updater d)) [
        | inl p ↦ (ap (map identity) p, ap (others id) p)
        | inr p ↦
            rw p (save_row_frame 0 id d (set_columns d (get_or (updater d) d)) rows h m refl same)
      ]

  update_found-ok :
      (id : String) (updater : Dip → Option Dip) (found : Option Dip) (e : Dip)
      → find_row id rows ≡ found
      → Increasing 0 rows
      → (update_found f updater rows found).0 ≡ ok e
      → find_row id (update_found f updater rows found).1 ≡ some e
  unfolding update_found
  update_found-ok id updater none e q h r = cc
  update_found-ok id updater (some d) e q h r =
      let (same, table) = save_update-ok d e (updater d) r in
      rw (table, same)
        (find_row-save_row 0 id d _ rows h q (set_columns-uuid d (get_or (updater d) d)))

  update_found-err :
      (updater : Dip → Option Dip) (found : Option Dip) (k : Kind) (joined : Bool)
      → (update_found f updater rows found).0 ≡ err k joined
      → f.commit_fails ≡ false
      → (update_found f updater rows found).1 ≡ rows
  unfolding update_found
  update_found-err updater none k joined r c = refl
  update_found-err updater (some d) k joined r c = save_update-err d (updater d) k joined r c

-- Whichever statements fail, an update changes no row but that of its UUID, and of that row neither
-- the id, the UUID, the document nor the time of creation.
pub update_dip_frame :
    (f : Faults) (id : String) (updater : Dip → Option Dip) (rows : Table)
    → Increasing 0 rows
    → (map identity (update_dip f id updater rows).1 ≡ map identity rows)
      × (others id (update_dip f id updater rows).1 ≡ others id rows)
unfolding update_dip
update_dip_frame f id updater rows h =
    ground (arith, update_found_frame f rows id updater (find_row id rows) refl h)

-- An update that succeeds returns the row that the table then holds under the UUID.
update_dip-ok :
    (f : Faults) (id : String) (updater : Dip → Option Dip) (rows : Table) (e : Dip)
    → Increasing 0 rows
    → (update_dip f id updater rows).0 ≡ ok e
    → find_row id (update_dip f id updater rows).1 ≡ some e
unfolding update_dip
update_dip-ok f id updater rows e h r =
    ground (arith, update_found-ok f rows id updater (find_row id rows) e refl h)

-- An update that fails in another statement than the commit leaves the table as it was.
update_dip-err :
    (f : Faults) (id : String) (updater : Dip → Option Dip) (rows : Table) (k : Kind)
    (joined : Bool)
    → (update_dip f id updater rows).0 ≡ err k joined
    → f.commit_fails ≡ false
    → (update_dip f id updater rows).1 ≡ rows
unfolding update_dip
update_dip-err f id updater rows k joined r c =
    ground (arith, update_found-err f rows updater (find_row id rows) k joined)
