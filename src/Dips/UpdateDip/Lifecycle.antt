-- ===== src/Dips/UpdateDip/Lifecycle.antt =====
-- internal/dips/activities/update_dip.go and UpdateDIP of internal/dips/persistence/ent/client/dip.go:
-- the life of a DIP under the updates that the workflow asks for.
use sfa_enduro_workflows.Base.{
  ℕ, ◌≤◌, ◌<◌, ◌≡◌, ◌≢◌, Bool, true, Option, none, some, not, ◌||◌, str_eq, arith,
}
use sfa_enduro_workflows.Dips.Datatypes.{
  DipStatus, in_progress, stored, failed, deleted, is_valid, is_stored, is_pending, Dip, is_zero,
}
use sfa_enduro_workflows.Dips.Persistence.{set_columns}
use sfa_enduro_workflows.Dips.UpdateDip.{UpdateDipParams, is_final, updater}

-- The row that UpdateDIP saves for an update of the workflow.
abbrev pub updated : UpdateDipParams → ℕ → Dip → Option Dip
updated p now d = elim (updater p now d) [ none ↦ none | some up ↦ some (set_columns d up) ]

-- The transitions of the status of a DIP.
pub data Transition (now : ℕ) (d : Dip) (s : DipStatus) : Type 0 where
  stay : s ≡ d.status → Transition now d s
  begin : is_pending d.status ≡ true → s ≡ in_progress → Transition now d s
  complete : is_pending d.status ≡ true → s ≡ stored → Transition now d s
  give_up : is_pending d.status ≡ true → s ≡ failed → Transition now d s
  expire :
      d.status ≡ stored → 0 < d.expires_at → d.expires_at ≤ now → s ≡ deleted → Transition now d s

abbrev implies : Bool → Bool → Bool
implies a b = not a || b

-- A row as the service keeps it.
pub record IsWellFormed (d : Dip) : Type 0 where
  pub valid : is_valid d.status ≡ true
  pub keyed : implies (is_stored d.status) (not (str_eq d.object_key "")) ≡ true
  pub completed : implies (is_final d.status) (not (is_zero d.completed_at)) ≡ true
  pub expiring : implies (not (is_zero d.expires_at)) (is_final d.status) ≡ true

-- An update of a row with a valid status that is saved leaves the status, or takes it along one
-- transition: a pending DIP begins, completes or fails, and a stored one is deleted once it has expired.
pub updated-Transition :
    (p : UpdateDipParams) (now : ℕ) (d e : Dip)
    → is_valid d.status ≡ true
    → updated p now d ≡ some e
    → Transition now d e.status
unfolding updater set_columns
updated-Transition p now d e v h = grind (arith, stay, begin, complete, give_up, expire)

-- An update that is saved, at a time other than the zero time, keeps a row well-formed: a valid status,
-- a key while it is stored, a time of completion once its status is final, an expiry only then.
pub updated-IsWellFormed :
    (p : UpdateDipParams) (now : ℕ) (d e : Dip)
    → 0 < now
    → IsWellFormed d
    → updated p now d ≡ some e
    → IsWellFormed e
unfolding updater set_columns
updated-IsWellFormed p now d e n v h = ground arith

-- An update to stored or failed that is saved changes nothing if it is repeated, at whatever time.
pub updated_again :
    (p : UpdateDipParams) (now later : ℕ) (d e : Dip)
    → is_final p.status ≡ true
    → updated p now d ≡ some e
    → p.status ≢ deleted
    → updated p later e ≡ some e
unfolding updater set_columns
updated_again p now later d e fin h ne = ground arith

-- An update that is saved never moves the expiry of a row to an earlier time.
pub updated_keeps_expiry :
    (p : UpdateDipParams) (now : ℕ) (d e : Dip)
    → updated p now d ≡ some e
    → d.expires_at ≤ e.expires_at
unfolding updater set_columns
updated_keeps_expiry p now d e h = ground arith
