-- ===== src/Dips/UpdateDip/Soundness.antt =====
-- internal/dips/activities/update_dip.go and internal/dips/persistence/ent/client/dip.go: the table of
-- DIPs under the requests of the API and the updates of the workflows, in whatever order they come.
pub mod Updates
pub mod Requests
pub mod Operations
use sfa_enduro_workflows.Base.{
  ℕ, zero, suc, ◌+◌, ◌≤◌, ◌<◌, ◌≡◌, refl, ◌⊎◌, inl, inr, ℤ, pos, negsuc, String, Bool, true, false,
  not, Option, none, some, List, [], ◌∷◌, ◌++◌, ◌&&◌, ◌||◌, ◌==◌, ltb, leb, str_eq, if◌then◌else◌,
  arith,
}
use mathlib.Core.Option.{get_or}
use sfa_enduro_workflows.Dips.Datatypes.{Dip, is_pending, is_valid, is_stored, is_zero}
use sfa_enduro_workflows.Dips.UpdateDip.{UpdateDipParams, updater, is_final}
use sfa_enduro_workflows.Dips.UpdateDip.Lifecycle.{
  updated, Transition, stay, begin, complete, give_up, expire, IsWellFormed, updated-Transition,
  updated-IsWellFormed,
}
use sfa_enduro_workflows.Dips.Persistence.{
  Faults, Table, RequestDipParams, find_row, save_row, save_update, update_found, update_dip,
  set_columns, request_dip, without, delete_row, reuse_dip, renewed, create_row, new_dip, next_id,
  handle_selection, select_dip, candidates,
}
use sfa_enduro_workflows.Dips.Persistence.Pending.{
  Increasing, In, one_pending, count_pending, save_row-absent, In-above, save_row-Increasing,
  select_dip-In, In-candidates,
}
use sfa_enduro_workflows.Dips.Persistence.Requests.{
  IsConsistent, request_dip-IsConsistent, request_dip-table, create_row-table,
}
use sfa_enduro_workflows.Dips.Persistence.Updates.{find_row-In, save_update-table}

abbrev pub AllWellFormed : Table → Type 0
AllWellFormed [] = Unit
AllWellFormed (d ∷ rows) = IsWellFormed d × AllWellFormed rows

-- What holds of the table at all times.
pub record IsSound (rows : Table) : Type 0 where
  pub consistent : IsConsistent rows
  pub rows_well_formed : AllWellFormed rows

pub In-IsWellFormed : (d : Dip) (rows : Table) → AllWellFormed rows → In d rows → IsWellFormed d
In-IsWellFormed d [] h m = elim m [ ]
In-IsWellFormed d (e ∷ rows) h (inl p) = rw p h.0
In-IsWellFormed d (e ∷ rows) h (inr m) = In-IsWellFormed d rows h.1 m

pub save_row-AllWellFormed :
    (id : ℕ) (new : Dip) (rows : Table)
    → AllWellFormed rows
    → IsWellFormed new
    → AllWellFormed (save_row id new rows)
unfolding save_row
save_row-AllWellFormed id new [] h n = tt
save_row-AllWellFormed id new (d ∷ rows) h n =
    elim (d.dbid == id)
      as (λ b. AllWellFormed (if b then new ∷ save_row id new rows else d ∷ save_row id new rows)) [
        | true ↦ (n, save_row-AllWellFormed id new rows h.1 n)
        | false ↦ (h.0, save_row-AllWellFormed id new rows h.1 n)
      ]

pub append-AllWellFormed :
    (rows : Table) (d : Dip)
    → AllWellFormed rows
    → IsWellFormed d
    → AllWellFormed (rows ++ (d ∷ []))
append-AllWellFormed [] d h n = (n, tt)
append-AllWellFormed (e ∷ rows) d h n = (h.0, append-AllWellFormed rows d h.1 n)

-- A save that makes no row pending adds to no count.
pub count_pending-save_row_le :
    (doc : String) (low : ℕ) (d new : Dip) (rows : Table)
    → Increasing low rows
    → In d rows
    → one_pending doc new ≤ one_pending doc d
    → count_pending doc (save_row d.dbid new rows) ≤ count_pending doc rows
unfolding save_row
count_pending-save_row_le doc low d new [] h m le = elim m [ ]
count_pending-save_row_le doc low d new (e ∷ rows) h (inl p) le =
    ground (arith, save_row-absent e.dbid d.dbid new rows h.1)
count_pending-save_row_le doc low d new (e ∷ rows) h (inr m) le =
    ground (
      arith,
      In-above e.dbid d rows h.1 m,
      count_pending-save_row_le doc e.dbid d new rows h.1 m le,
    )

-- An update makes no row pending.
pub Transition-one_pending :
    (now : ℕ) (doc : String) (d new : Dip)
    → new.doc_key ≡ d.doc_key
    → Transition now d new.status
    → one_pending doc new ≤ one_pending doc d
Transition-one_pending now doc d new k (stay p) = ground arith
Transition-one_pending now doc d new k (begin p q) = ground arith
Transition-one_pending now doc d new k (complete p q) = ground arith
Transition-one_pending now doc d new k (give_up p q) = ground arith
Transition-one_pending now doc d new k (expire p q r s) = ground arith

pub IsSound-save_row :
    (d new : Dip) (rows : Table)
    → IsSound rows
    → In d rows
    → new.dbid ≡ d.dbid
    → ((doc : String) → one_pending doc new ≤ one_pending doc d)
    → IsWellFormed new
    → IsSound (save_row d.dbid new rows)
IsSound-save_row d new rows h m id le w = record {
  consistent = record {
    increasing = save_row-Increasing 0 d.dbid new rows h.consistent.increasing id;
    single = λ doc. omega (
      arith,
      h.consistent.single doc,
      count_pending-save_row_le doc 0 d new rows h.consistent.increasing m (le doc),
    );
  };
  rows_well_formed = save_row-AllWellFormed d.dbid new rows h.rows_well_formed w;
}
