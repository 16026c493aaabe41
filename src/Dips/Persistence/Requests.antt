-- ===== src/Dips/Persistence/Requests.antt =====
-- internal/dips/persistence/ent/client/dip.go: what RequestDIP and UpdateDIP promise.
use sfa_enduro_workflows.Base.{
  ℕ, ◌+◌, ◌≤◌, ◌≡◌, refl, ◌⊎◌, inl, inr, ℤ, pos, negsuc, String, true, false, Option, none, some,
  [], ◌∷◌, ◌++◌, str_eq, if◌then◌else◌, arith, eq_iff, Bool-cases, ◌==◌,
}
use mathlib.Core.Option.{get_or}
use sfa_enduro_workflows.Dips.Datatypes.{is_stored, is_pending, Dip}
use sfa_enduro_workflows.Dips.Persistence.{
  ok, Faults, Table, RequestDipParams, find_row, save_row, candidates, is_candidate, is_skipped,
  select_dip, reuse_dip, create_row, next_id, handle_selection, new_dip, request_dip, read_dip,
  renewed,
}
use sfa_enduro_workflows.Dips.Persistence.Updates.{find_row-In}
use sfa_enduro_workflows.Dips.Persistence.Pending.{
  Increasing, In, count_pending, count_pending-save_row, count_pending-unselected,
  count_pending-append, In-candidates, select_dip-In, save_row-Increasing, next_id-Increasing,
}

-- The ids grow, and no document has two DIPs that are queued or in progress.
pub record IsConsistent (rows : Table) : Type 0 where
  pub increasing : Increasing 0 rows
  pub single : (doc : String) → count_pending doc rows ≤ 1

pub IsConsistent-either :
    {s t u : Table} → (u ≡ s) ⊎ (u ≡ t) → IsConsistent s → IsConsistent t → IsConsistent u
IsConsistent-either (inl p) a b = rw p a
IsConsistent-either (inr p) a b = rw p b

-- What a request leaves of the table.
reuse_dip-table :
    (f : Faults) (now retention : ℕ) (d : Dip) (rows : Table)
    → (expiry : ℕ) × (((reuse_dip f now retention d rows).1 ≡ rows)
        ⊎ ((reuse_dip f now retention d rows).1
            ≡ save_row d.dbid (record d { expires_at = expiry }) rows))
unfolding reuse_dip
reuse_dip-table f now retention d rows = (get_or (renewed now retention d) 0, ground arith)

pub create_row-table :
    (f : Faults) (req : RequestDipParams) (now : ℕ) (rows : Table)
    → ((create_row f req now rows).1 ≡ rows)
      ⊎ ((create_row f req now rows).1 ≡ rows ++ (new_dip (next_id rows) req now ∷ []))
unfolding create_row
create_row-table f req now rows = ground arith

save_row-IsConsistent :
    (d : Dip) (expiry : ℕ) (rows : Table)
    → IsConsistent rows
    → In d rows
    → IsConsistent (save_row d.dbid (record d { expires_at = expiry }) rows)
save_row-IsConsistent d expiry rows h m = record {
  increasing = save_row-Increasing 0 d.dbid _ rows h.increasing refl;
  single = λ doc. omega (
    arith,
    h.single doc,
    count_pending-save_row doc 0 d (record d { expires_at = expiry }) rows h.increasing m refl,
  );
}

append-IsConsistent :
    (req : RequestDipParams) (now : ℕ) (rows : Table)
    → IsConsistent rows
    → count_pending req.doc_key rows ≡ 0
    → IsConsistent (rows ++ (new_dip (next_id rows) req now ∷ []))
append-IsConsistent req now rows h z = record {
  increasing = next_id-Increasing rows _ h.increasing refl;
  single = λ doc. ground (
    arith,
    h.single doc,
    count_pending-append doc rows (new_dip (next_id rows) req now),
    eq_iff req.doc_key doc,
  );
}

handle_selection-IsConsistent :
    (f : Faults) (req : RequestDipParams) (now retention : ℕ) (rows : Table) (selected : Option Dip)
    → select_dip req.ignore_cache now (candidates req.doc_key rows) ≡ selected
    → IsConsistent rows
    → IsConsistent (handle_selection f req now retention rows selected).1
unfolding handle_selection
handle_selection-IsConsistent f req now retention rows (some d) e h =
    let m = (select_dip-In d req.ignore_cache now _ e).0 in
    let (expiry, either) = reuse_dip-table f now retention d rows in
    IsConsistent-either either h
      (save_row-IsConsistent d expiry rows h (In-candidates d req.doc_key rows m).0)
handle_selection-IsConsistent f req now retention rows none e h =
    IsConsistent-either (create_row-table f req now rows) h
      (append-IsConsistent req now rows h (count_pending-unselected _ _ now rows e))

abbrev magnitude : ℤ → ℕ
magnitude (pos r) = r
magnitude (negsuc r) = 0

pub request_dip-table :
    (f : Faults) (req : RequestDipParams) (now : ℕ) (rows : Table)
    → (retention : ℕ) × (((request_dip f req now rows).1 ≡ rows)
        ⊎ ((request_dip f req now rows).1
            ≡ (handle_selection f req now retention rows
                (select_dip req.ignore_cache now (candidates req.doc_key rows))).1))
unfolding request_dip
request_dip-table f req now rows = (magnitude req.retention, ground arith)

-- A request, whichever statements fail, keeps the table consistent: it never makes a second DIP of a
-- document queued or in progress.
pub request_dip-IsConsistent :
    (f : Faults) (req : RequestDipParams) (now : ℕ) (rows : Table)
    → IsConsistent rows
    → IsConsistent (request_dip f req now rows).1
request_dip-IsConsistent f req now rows h =
    let (retention, either) = request_dip-table f req now rows in
    IsConsistent-either either h (handle_selection-IsConsistent f req now retention rows _ refl h)

-- A DIP that a request may hand out: of the document, and either pending, or stored and not to expire
-- before the retention asked for has passed. If the cache is ignored it is pending.
pub record IsUsable (req : RequestDipParams) (now retention : ℕ) (d : Dip) : Type 0 where
  pub document : str_eq d.doc_key req.doc_key ≡ true
  pub kept :
      (is_pending d.status ≡ true)
      ⊎ ((is_stored d.status ≡ true) × ((d.expires_at ≡ 0) ⊎ (now + retention ≤ d.expires_at)))
  pub fresh : (req.ignore_cache ≡ false) ⊎ (is_pending d.status ≡ true)

reuse_dip-IsUsable :
    (f : Faults) (req : RequestDipParams) (now retention : ℕ) (d e : Dip) (rows : Table)
    → str_eq d.doc_key req.doc_key ≡ true
    → is_candidate d.status ≡ true
    → is_skipped req.ignore_cache now d ≡ false
    → (reuse_dip f now retention d rows).0 ≡ ok e
    → IsUsable req now retention e
unfolding reuse_dip
reuse_dip-IsUsable f req now retention d e rows doc candidate used h = ground arith

find_row-append :
    (id : String) (d : Dip) (rows : Table)
    → find_row id rows ≡ none
    → find_row id (rows ++ (d ∷ [])) ≡ (if str_eq d.uuid id then some d else none)
unfolding find_row
find_row-append id d [] h = refl
find_row-append id d (e ∷ rows) h = ground (arith, find_row-append id d rows)

create_row-IsUsable :
    (f : Faults) (req : RequestDipParams) (now retention : ℕ) (e : Dip) (rows : Table)
    → find_row req.uuid rows ≡ none
    → (create_row f req now rows).0 ≡ ok e
    → IsUsable req now retention e
unfolding create_row read_dip
create_row-IsUsable f req now retention e rows new h = ground (
  arith,
  eq_iff req.doc_key req.doc_key,
  find_row-append req.uuid (new_dip (next_id rows) req now) rows new,
)

handle_selection-IsUsable :
    (f : Faults) (req : RequestDipParams) (now retention : ℕ) (e : Dip) (rows : Table)
    (selected : Option Dip)
    → select_dip req.ignore_cache now (candidates req.doc_key rows) ≡ selected
    → find_row req.uuid rows ≡ none
    → (handle_selection f req now retention rows selected).0 ≡ ok e
    → IsUsable req now retention e
unfolding handle_selection
handle_selection-IsUsable f req now retention e rows (some d) s new h =
    let (m, used) = select_dip-In d req.ignore_cache now (candidates req.doc_key rows) s in
    let c = In-candidates d req.doc_key rows m in
    reuse_dip-IsUsable f req now retention d e rows c.1 c.2 used h
handle_selection-IsUsable f req now retention e rows none s new h =
    create_row-IsUsable f req now retention e rows new h

request_dip-selection :
    (f : Faults) (req : RequestDipParams) (now retention : ℕ) (rows : Table) (e : Dip)
    → req.retention ≡ pos retention
    → (request_dip f req now rows).0 ≡ ok e
    → (handle_selection f req now retention rows
        (select_dip req.ignore_cache now (candidates req.doc_key rows))).0
      ≡ ok e
unfolding request_dip
request_dip-selection f req now retention rows e r h = ground arith

-- A request under a new UUID that succeeds hands out a usable DIP, also if the commit's reply was lost.
pub request_dip-IsUsable :
    (f : Faults) (req : RequestDipParams) (now retention : ℕ) (rows : Table) (e : Dip)
    → req.retention ≡ pos retention
    → find_row req.uuid rows ≡ none
    → (request_dip f req now rows).0 ≡ ok e
    → IsUsable req now retention e
request_dip-IsUsable f req now retention rows e r new h =
    handle_selection-IsUsable f req now retention e rows _ refl new
      (request_dip-selection f req now retention rows e r h)

In-save_row : (d new : Dip) (rows : Table) → In d rows → In new (save_row d.dbid new rows)
unfolding save_row
In-save_row d new [] m = elim m [ ]
In-save_row d new (x ∷ rows) (inl e) = rw e (ground arith)
In-save_row d new (x ∷ rows) (inr m) = elim (Bool-cases (x.dbid == d.dbid)) [
  | inl q ↦ rw q (inl refl)
  | inr q ↦ rw q (inr (In-save_row d new rows m))
]

In-last : (d : Dip) (rows : Table) → In d (rows ++ (d ∷ []))
In-last d [] = inl refl
In-last d (x ∷ rows) = inr (In-last d rows)

reuse_dip-ok :
    (f : Faults) (now retention : ℕ) (d e : Dip) (rows : Table)
    → (reuse_dip f now retention d rows).0 ≡ ok e
    → ((e ≡ d) × ((reuse_dip f now retention d rows).1 ≡ rows))
      ⊎ ((e ≡ record d { expires_at = get_or (renewed now retention d) 0 })
          × ((reuse_dip f now retention d rows).1
              ≡ save_row d.dbid
                  (record d { expires_at = get_or (renewed now retention d) 0 })
                  rows))
unfolding reuse_dip
reuse_dip-ok f now retention d e rows r = ground arith

reuse_dip-In :
    (f : Faults) (now retention : ℕ) (d e : Dip) (rows : Table)
    → In d rows
    → (reuse_dip f now retention d rows).0 ≡ ok e
    → In e (reuse_dip f now retention d rows).1
reuse_dip-In f now retention d e rows m r = elim (reuse_dip-ok f now retention d e rows r) [
  | inl (same, table) ↦ rw (table, same) m
  | inr (same, table) ↦ rw (table, same) (In-save_row d _ rows m)
]

create_row-ok :
    (f : Faults) (req : RequestDipParams) (now : ℕ) (e : Dip) (rows : Table)
    → (create_row f req now rows).0 ≡ ok e
    → ((e ≡ new_dip (next_id rows) req now)
        × ((create_row f req now rows).1 ≡ rows ++ (new_dip (next_id rows) req now ∷ [])))
      ⊎ (find_row req.uuid (create_row f req now rows).1 ≡ some e)
unfolding create_row read_dip
create_row-ok f req now e rows r = ground arith

create_row-In :
    (f : Faults) (req : RequestDipParams) (now : ℕ) (e : Dip) (rows : Table)
    → (create_row f req now rows).0 ≡ ok e
    → In e (create_row f req now rows).1
create_row-In f req now e rows r = elim (create_row-ok f req now e rows r) [
  | inl (same, table) ↦ rw (table, same) (In-last (new_dip (next_id rows) req now) rows)
  | inr found ↦ (find_row-In req.uuid e (create_row f req now rows).1 found).0
]

handle_selection-In :
    (f : Faults) (req : RequestDipParams) (now retention : ℕ) (e : Dip) (rows : Table)
    (selected : Option Dip)
    → select_dip req.ignore_cache now (candidates req.doc_key rows) ≡ selected
    → (handle_selection f req now retention rows selected).0 ≡ ok e
    → In e (handle_selection f req now retention rows selected).1
unfolding handle_selection
handle_selection-In f req now retention e rows (some d) s r =
    let m = (select_dip-In d req.ignore_cache now (candidates req.doc_key rows) s).0 in
    reuse_dip-In f now retention d e rows (In-candidates d req.doc_key rows m).0 r
handle_selection-In f req now retention e rows none s r = create_row-In f req now e rows r

request_dip-handled :
    (f : Faults) (req : RequestDipParams) (now retention : ℕ) (rows : Table) (e : Dip)
    → req.retention ≡ pos retention
    → (request_dip f req now rows).0 ≡ ok e
    → (request_dip f req now rows).1
      ≡ (handle_selection f req now retention rows
          (select_dip req.ignore_cache now (candidates req.doc_key rows))).1
unfolding request_dip
request_dip-handled f req now retention rows e r h = ground arith

-- The DIP that a request hands out is a row of the table that it leaves.
pub request_dip-In :
    (f : Faults) (req : RequestDipParams) (now retention : ℕ) (rows : Table) (e : Dip)
    → req.retention ≡ pos retention
    → (request_dip f req now rows).0 ≡ ok e
    → In e (request_dip f req now rows).1
request_dip-In f req now retention rows e r h =
    rw (request_dip-handled f req now retention rows e r h) (
      handle_selection-In f req now retention e rows _ refl
        (request_dip-selection f req now retention rows e r h))
