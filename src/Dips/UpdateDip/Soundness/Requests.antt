-- ===== src/Dips/UpdateDip/Soundness/Requests.antt =====
-- internal/dips/persistence/ent/client/dip.go: RequestDIP keeps the table sound.
use sfa_enduro_workflows.Base.{ℕ, ◌≡◌, refl, ◌⊎◌, inl, inr, Option, none, some, arith}
use sfa_enduro_workflows.Dips.Datatypes.{Dip}
use sfa_enduro_workflows.Dips.UpdateDip.Lifecycle.{IsWellFormed}
use sfa_enduro_workflows.Dips.Persistence.{
  Faults, Table, RequestDipParams, save_row, request_dip, reuse_dip, renewed, new_dip, next_id,
  handle_selection, select_dip, candidates,
}
use sfa_enduro_workflows.Dips.Persistence.Pending.{In, select_dip-In, In-candidates}
use sfa_enduro_workflows.Dips.Persistence.Requests.{
  request_dip-IsConsistent, request_dip-table, create_row-table,
}
use sfa_enduro_workflows.Dips.UpdateDip.Soundness.{
  AllWellFormed, IsSound, In-IsWellFormed, save_row-AllWellFormed, append-AllWellFormed,
}

renewed-IsWellFormed :
    (now retention expiry : ℕ) (d : Dip)
    → renewed now retention d ≡ some expiry
    → IsWellFormed d
    → IsWellFormed (record d { expires_at = expiry })
unfolding renewed
renewed-IsWellFormed now retention expiry d e h = ground arith

reuse_dip-kept :
    (f : Faults) (now retention : ℕ) (d : Dip) (rows : Table)
    → renewed now retention d ≡ none
    → (reuse_dip f now retention d rows).1 ≡ rows
unfolding reuse_dip
reuse_dip-kept f now retention d rows e = ground arith

reuse_dip-saved :
    (f : Faults) (now retention expiry : ℕ) (d : Dip) (rows : Table)
    → renewed now retention d ≡ some expiry
    → ((reuse_dip f now retention d rows).1 ≡ rows)
      ⊎ ((reuse_dip f now retention d rows).1
          ≡ save_row d.dbid (record d { expires_at = expiry }) rows)
unfolding reuse_dip
reuse_dip-saved f now retention expiry d rows e = ground arith

reuse_dip-AllWellFormed :
    (f : Faults) (now retention : ℕ) (d : Dip) (rows : Table) (expiry : Option ℕ)
    → renewed now retention d ≡ expiry
    → AllWellFormed rows
    → In d rows
    → AllWellFormed (reuse_dip f now retention d rows).1
reuse_dip-AllWellFormed f now retention d rows none e h m =
    rw (reuse_dip-kept f now retention d rows e) h
reuse_dip-AllWellFormed f now retention d rows (some expiry) e h m =
    elim (reuse_dip-saved f now retention expiry d rows e) [
      | inl q ↦ rw q h
      | inr q ↦ rw q (
          save_row-AllWellFormed d.dbid (record d { expires_at = expiry }) rows h
            (renewed-IsWellFormed now retention expiry d e (In-IsWellFormed d rows h m)))
    ]

new_dip-IsWellFormed :
    (id : ℕ) (req : RequestDipParams) (now : ℕ) → IsWellFormed (new_dip id req now)
new_dip-IsWellFormed id req now = record {
  valid = refl;
  keyed = refl;
  completed = refl;
  expiring = refl;
}

handle_selection-AllWellFormed :
    (f : Faults) (req : RequestDipParams) (now retention : ℕ) (rows : Table) (selected : Option Dip)
    → select_dip req.ignore_cache now (candidates req.doc_key rows) ≡ selected
    → AllWellFormed rows
    → AllWellFormed (handle_selection f req now retention rows selected).1
unfolding handle_selection
handle_selection-AllWellFormed f req now retention rows (some d) e h =
    let m = (select_dip-In d req.ignore_cache now _ e).0 in
    reuse_dip-AllWellFormed f now retention d rows (renewed now retention d) refl h
      (In-candidates d req.doc_key rows m).0
handle_selection-AllWellFormed f req now retention rows none e h =
    elim (create_row-table f req now rows) [
      | inl q ↦ rw q h
      | inr q ↦ rw q (append-AllWellFormed rows _ h (new_dip-IsWellFormed (next_id rows) req now))
    ]

-- Whichever statements fail, a request of the API keeps the table sound.
pub request_dip-IsSound :
    (f : Faults) (req : RequestDipParams) (now : ℕ) (rows : Table)
    → IsSound rows
    → IsSound (request_dip f req now rows).1
request_dip-IsSound f req now rows h =
    let (retention, either) = request_dip-table f req now rows in
    record {
      consistent = request_dip-IsConsistent f req now rows h.consistent;
      rows_well_formed = elim either [
        | inl q ↦ rw q h.rows_well_formed
        | inr q ↦
            rw q (handle_selection-AllWellFormed f req now retention rows _ refl h.rows_well_formed)
      ];
    }
