-- ===== src/Dips/UpdateDip/Soundness/Operations.antt =====
-- internal/dips/persistence/ent/client/dip.go: DeleteDIP, and all operations in some order.
use sfa_enduro_workflows.Base.{
  ℕ, suc, ◌≤◌, ◌≡◌, ◌⊎◌, inl, inr, String, true, false, List, [], ◌∷◌, str_eq, if◌then◌else◌, arith,
}
use sfa_enduro_workflows.Dips.UpdateDip.{UpdateDipParams, updater}
use sfa_enduro_workflows.Dips.Persistence.{
  Faults, Table, RequestDipParams, update_dip, request_dip, without, delete_row,
}
use sfa_enduro_workflows.Dips.Persistence.Pending.{Increasing, count_pending}
use sfa_enduro_workflows.Dips.UpdateDip.Soundness.{AllWellFormed, IsSound}
use sfa_enduro_workflows.Dips.UpdateDip.Soundness.Updates.{update_dip-IsSound}
use sfa_enduro_workflows.Dips.UpdateDip.Soundness.Requests.{request_dip-IsSound}

Increasing-weaken :
    (low high : ℕ) (rows : Table) → low ≤ high → Increasing high rows → Increasing low rows
Increasing-weaken low high [] le h = tt
Increasing-weaken low high (d ∷ rows) le h = (omega (arith, h.0), h.1)

without-Increasing :
    (low : ℕ) (id : String) (rows : Table) → Increasing low rows → Increasing low (without id rows)
unfolding without
without-Increasing low id [] h = tt
without-Increasing low id (d ∷ rows) h =
    let rest = without-Increasing d.dbid id rows h.1 in
    ground (arith, rest, Increasing-weaken low d.dbid (without id rows) (omega (arith, h.0)) rest)

count_pending-without :
    (doc id : String) (rows : Table) → count_pending doc (without id rows) ≤ count_pending doc rows
unfolding without
count_pending-without doc id [] = omega arith
count_pending-without doc id (d ∷ rows) = ground (arith, count_pending-without doc id rows)

without-AllWellFormed :
    (id : String) (rows : Table) → AllWellFormed rows → AllWellFormed (without id rows)
unfolding without
without-AllWellFormed id [] h = tt
without-AllWellFormed id (d ∷ rows) h =
    elim (str_eq d.uuid id)
      as (λ b. AllWellFormed (if b then without id rows else d ∷ without id rows)) [
        | true ↦ without-AllWellFormed id rows h.1
        | false ↦ (h.0, without-AllWellFormed id rows h.1)
      ]

without-IsSound : (id : String) (rows : Table) → IsSound rows → IsSound (without id rows)
without-IsSound id rows h = record {
  consistent = record {
    increasing = without-Increasing 0 id rows h.consistent.increasing;
    single = λ doc. omega (arith, h.consistent.single doc, count_pending-without doc id rows);
  };
  rows_well_formed = without-AllWellFormed id rows h.rows_well_formed;
}

delete_row-table :
    (f : Faults) (id : String) (rows : Table)
    → ((delete_row f id rows).1 ≡ rows) ⊎ ((delete_row f id rows).1 ≡ without id rows)
unfolding delete_row
delete_row-table f id rows = ground arith

pub delete_row-IsSound :
    (f : Faults) (id : String) (rows : Table) → IsSound rows → IsSound (delete_row f id rows).1
delete_row-IsSound f id rows h = elim (delete_row-table f id rows) [
  | inl q ↦ rw q h
  | inr q ↦ rw q (without-IsSound id rows h)
]

-- What reaches the table: requests of the API and updates of the workflows, each at its time, and the
-- removal of a DIP whose workflow was not started.
pub data Operation : Type 0 where
  request : Faults → RequestDipParams → ℕ → Operation
  update : Faults → String → UpdateDipParams → ℕ → Operation
  remove : Faults → String → Operation

-- One operation; the clock does not stand at the zero time.
unfoldable pub operate : Operation → Table → Table
operate (request f req now) rows = (request_dip f req (suc now) rows).1
operate (update f id p now) rows = (update_dip f id (updater p (suc now)) rows).1
operate (remove f id) rows = (delete_row f id rows).1

-- The rows lock each other out, so operations take effect one after the other, in some order.
unfoldable pub operate_all : List Operation → Table → Table
unfolding operate
operate_all [] rows = rows
operate_all (o ∷ os) rows = operate_all os (operate o rows)

-- Whatever requests, updates and removals reach the table, in whatever order and whichever statements fail, the
-- table stays sound.
pub operate_all-IsSound :
    (os : List Operation) (rows : Table) → IsSound rows → IsSound (operate_all os rows)
unfolding operate_all operate
operate_all-IsSound [] rows h = h
operate_all-IsSound (request f req now ∷ os) rows h =
    operate_all-IsSound os _ (request_dip-IsSound f req (suc now) rows h)
operate_all-IsSound (update f id p now ∷ os) rows h =
    operate_all-IsSound os _ (update_dip-IsSound f id p (suc now) rows (omega arith) h)
operate_all-IsSound (remove f id ∷ os) rows h =
    operate_all-IsSound os _ (delete_row-IsSound f id rows h)
