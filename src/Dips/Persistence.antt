-- ===== src/Dips/Persistence.antt =====
-- internal/dips/persistence/ent/client/dip.go: the table of DIPs and the transactions on it.
pub mod Pending
pub mod Requests
pub mod Updates
use mathlib.Core.Option
use sfa_enduro_workflows.Base.{
  ℕ, suc, ◌+◌, ℤ, pos, negsuc, String, ◌<>◌, Bool, true, false, Option, none, some, List, [], ◌∷◌,
  ◌++◌, ◌==◌, ltb, leb, not, ◌&&◌, ◌||◌, str_eq, if◌then◌else◌,
}
use sfa_enduro_workflows.Dips.Datatypes.{
  DipStatus, queued, in_progress, stored, is_valid, is_stored, is_pending, Dip, is_zero,
}

-- ErrNotFound, ErrNotValid, ErrInternal
pub data Kind : Type 0 where
  not_found not_valid internal : Kind

pub data Reply (A : Type 0) : Type 0 where
  ok : A → Reply A
  -- The error for which `errors.Is` holds; a failed rollback joins ErrInternal to it.
  err : Kind → Bool → Reply A

-- Which statements of one transaction fail. A commit that fails may still have been applied.
pub record Faults : Type 0 where
  pub begin_fails : Bool
  pub query_fails : Bool
  pub save_error : Option Kind
  pub commit_fails : Bool
  pub commit_applied : Bool
  pub rollback_fails : Bool
  pub read_fails : Bool

-- The rows, in the order of their ids.
abbrev pub Table : Type 0
Table = List Dip

unfoldable pub find_row : String → Table → Option Dip
find_row id [] = none
find_row id (d ∷ rows) = let rest = find_row id rows in if str_eq d.uuid id then some d else rest

-- UpdateOneID
unfoldable pub save_row : ℕ → Dip → Table → Table
save_row id new [] = []
save_row id new (d ∷ rows) =
    let rest = save_row id new rows in if d.dbid == id then new ∷ rest else d ∷ rest

-- The columns that an update sets, from the row that was read and the one that the updater returns.
unfoldable pub set_columns : Dip → Dip → Dip
set_columns dbd up = record dbd {
  status = if is_valid up.status then up.status else dbd.status;
  error_message = if str_eq up.error_message "" then dbd.error_message else up.error_message;
  started_at = if is_zero up.started_at then dbd.started_at else up.started_at;
  completed_at = if is_zero up.completed_at then dbd.completed_at else up.completed_at;
  expires_at =
      if not (is_zero up.expires_at) && ltb dbd.expires_at up.expires_at
      then up.expires_at
      else dbd.expires_at;
  workflow_id = if str_eq up.workflow_id "" then dbd.workflow_id else up.workflow_id;
  object_key = up.object_key;
}

-- tx.Commit: the table that is left, and the reply.
unfoldable pub commit : {A : Type 0} → Faults → Table → Table → A → Reply A × Table
commit f before after a =
    if f.commit_fails
    then (err internal false, if f.commit_applied then after else before)
    else (ok a, after)

abbrev pub rollback : {A : Type 0} → Faults → Kind → Reply A
rollback f k = err k f.rollback_fails

-- UpdateDIP, behind the call of the updater
unfoldable pub save_update : Faults → Table → Dip → Option Dip → Reply Dip × Table
unfolding save_row set_columns commit
save_update f rows dbd none = (rollback f not_valid, rows)
save_update f rows dbd (some up) =
    let new = set_columns dbd up in
    elim f.save_error [
      | some k ↦ (rollback f k, rows)
      | none ↦ commit f rows (save_row dbd.dbid new rows) new
    ]

-- UpdateDIP, behind the query of the row
unfoldable pub update_found : Faults → (Dip → Option Dip) → Table → Option Dip → Reply Dip × Table
unfolding save_update
update_found f updater rows none = (rollback f not_found, rows)
update_found f updater rows (some dbd) = save_update f rows dbd (updater dbd)

-- UpdateDIP
unfoldable pub update_dip : Faults → String → (Dip → Option Dip) → Table → Reply Dip × Table
update_dip f id updater rows =
    if f.begin_fails
    then (err internal false, rows)
    else if f.query_fails
    then (rollback f internal, rows)
    else update_found f updater rows (find_row id rows)

-- ReadDIP
unfoldable pub read_dip : Faults → String → Table → Reply Dip
read_dip f id rows =
    if f.read_fails
    then err internal false
    else elim (find_row id rows) [ none ↦ err not_found false | some d ↦ ok d ]

pub record RequestDipParams : Type 0 where
  pub uuid : String
  pub doc_key : String
  pub ignore_cache : Bool
  pub retention : ℤ

-- The statuses that RequestDIP asks for.
abbrev pub is_candidate : DipStatus → Bool
is_candidate stored = true
is_candidate s = is_pending s

unfoldable pub insert_newest : Dip → List Dip → List Dip
insert_newest d [] = d ∷ []
insert_newest d (e ∷ es) =
    let rest = insert_newest d es in if leb e.created_at d.created_at then d ∷ e ∷ es else e ∷ rest

-- The candidates for a document, by the time of their creation, the newest first.
unfoldable pub candidates : String → Table → List Dip
unfolding insert_newest
candidates doc [] = []
candidates doc (d ∷ rows) =
    let rest = candidates doc rows in
    if str_eq d.doc_key doc && is_candidate d.status then insert_newest d rest else rest

-- A stored DIP that is not to be used: expired, or the cache is ignored.
abbrev pub is_skipped : Bool → ℕ → Dip → Bool
is_skipped ignore_cache now d =
    is_stored d.status && (ignore_cache || (not (is_zero d.expires_at) && leb d.expires_at now))

-- The first candidate that is not skipped.
unfoldable pub select_dip : Bool → ℕ → List Dip → Option Dip
select_dip ignore_cache now [] = none
select_dip ignore_cache now (d ∷ ds) =
    let rest = select_dip ignore_cache now ds in
    if is_skipped ignore_cache now d then rest else some d

-- The expiry of a cached DIP that is used again, if it is to be changed: 0 clears it.
unfoldable pub renewed : ℕ → ℕ → Dip → Option ℕ
renewed now retention d =
    if is_stored d.status && not (is_zero d.expires_at)
    then if retention == 0
      then some 0
      else if ltb d.expires_at (now + retention)
      then some (now + retention)
      else none
    else none

-- The branch that uses a DIP again.
unfoldable pub reuse_dip : Faults → ℕ → ℕ → Dip → Table → Reply Dip × Table
unfolding renewed save_row commit
reuse_dip f now retention d rows = elim (renewed now retention d) [
  | some expiry ↦
      let new = record d { expires_at = expiry } in
      elim f.save_error [
        | some k ↦ (rollback f k, rows)
        | none ↦ commit f rows (save_row d.dbid new rows) new
      ]
  | none ↦ if f.rollback_fails then (err internal false, rows) else (ok d, rows)
]

unfoldable pub next_id : Table → ℕ
next_id [] = 1
next_id (d ∷ rows) = let rest = next_id rows in if ltb d.dbid rest then rest else suc d.dbid

abbrev pub new_dip : ℕ → RequestDipParams → ℕ → Dip
new_dip id req now = record {
  dbid = id;
  uuid = req.uuid;
  doc_key = req.doc_key;
  status = queued;
  error_message = "";
  created_at = now;
  started_at = 0;
  completed_at = 0;
  expires_at = 0;
  object_key = "";
  workflow_id = "";
}

-- The branch that creates a DIP; if the commit fails the row is looked for.
unfoldable pub create_row : Faults → RequestDipParams → ℕ → Table → Reply Dip × Table
unfolding next_id read_dip find_row
create_row f req now rows =
    let d = new_dip (next_id rows) req now in
    let after = rows ++ (d ∷ []) in
    let kept = if f.commit_applied then after else rows in
    elim f.save_error [
      | some k ↦ (rollback f k, rows)
      | none ↦
          if f.commit_fails
          then elim (read_dip f req.uuid kept) [
            | ok found ↦ (ok found, kept)
            | err k joined ↦ (err internal false, kept)
          ]
          else (ok d, after)
    ]

-- Behind the selection: a DIP is used again, or one is created.
unfoldable pub handle_selection :
    Faults → RequestDipParams → ℕ → ℕ → Table → Option Dip → Reply Dip × Table
unfolding reuse_dip create_row
handle_selection f req now retention rows (some d) = reuse_dip f now retention d rows
handle_selection f req now retention rows none = create_row f req now rows

abbrev pub nil_uuid : String
nil_uuid = "00000000-0000-0000-0000-000000000000"

-- RequestDIP
unfoldable pub request_dip : Faults → RequestDipParams → ℕ → Table → Reply Dip × Table
request_dip f req now rows =
    if str_eq req.uuid nil_uuid
    then (err not_valid false, rows)
    else if str_eq req.doc_key ""
    then (err not_valid false, rows)
    else elim req.retention [
      | negsuc n ↦ (err not_valid false, rows)
      | pos retention ↦
          if f.begin_fails
          then (err internal false, rows)
          else if f.query_fails
          then (rollback f internal, rows)
          else handle_selection f req now retention rows
              (select_dip req.ignore_cache now (candidates req.doc_key rows))
    ]

unfoldable pub without : String → Table → Table
without id [] = []
without id (d ∷ rows) = let rest = without id rows in if str_eq d.uuid id then rest else d ∷ rest

-- DeleteDIP
unfoldable pub delete_row : Faults → String → Table → Reply (Unit {0}) × Table
unfolding without find_row
delete_row f id rows =
    if f.query_fails then (err internal false, rows) else elim (find_row id rows) [
      | none ↦ (err not_found false, rows)
      | some d ↦ (ok tt, without id rows)
    ]
