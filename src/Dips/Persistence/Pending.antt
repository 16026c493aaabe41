-- ===== src/Dips/Persistence/Pending.antt =====
-- internal/dips/persistence/ent/client/dip.go: how many DIPs of a document are queued or in progress.
use sfa_enduro_workflows.Base.{
  ℕ, ◌+◌, ◌≤◌, ◌<◌, ◌≡◌, refl, ◌⊎◌, inl, inr, String, Bool, true, false, none, some, List, [], ◌∷◌,
  ◌++◌, ◌&&◌, str_eq, if◌then◌else◌, arith,
}
use sfa_enduro_workflows.Dips.Datatypes.{is_pending, Dip}
use sfa_enduro_workflows.Dips.Persistence.{
  Table, save_row, candidates, insert_newest, is_candidate, is_skipped, select_dip, next_id,
}

-- The ids grow along the table.
abbrev pub Increasing : ℕ → Table → Type 0
Increasing low [] = Unit
Increasing low (d ∷ rows) = (low < d.dbid) × Increasing d.dbid rows

abbrev pub In : Dip → List Dip → Type 0
In d [] = ⊥
In d (e ∷ es) = (d ≡ e) ⊎ In d es

abbrev pub one_pending : String → Dip → ℕ
one_pending doc d = if str_eq d.doc_key doc && is_pending d.status then 1 else 0

abbrev pub count_pending : String → Table → ℕ
count_pending doc [] = 0
count_pending doc (d ∷ rows) = one_pending doc d + count_pending doc rows

pub save_row-absent :
    (low id : ℕ) (new : Dip) (rows : Table)
    → Increasing low rows
    → id ≤ low
    → save_row id new rows ≡ rows
unfolding save_row
save_row-absent low id new [] h le = refl
save_row-absent low id new (d ∷ rows) h le = ground (arith, save_row-absent d.dbid id new rows h.1)

pub In-above : (low : ℕ) (d : Dip) (rows : Table) → Increasing low rows → In d rows → low < d.dbid
In-above low d [] h m = elim m [ ]
In-above low d (e ∷ rows) h (inl p) = ground arith
In-above low d (e ∷ rows) h (inr m) = ground (arith, In-above e.dbid d rows h.1 m)

-- A save that keeps the document and whether the row is pending keeps every count.
pub count_pending-save_row :
    (doc : String) (low : ℕ) (d new : Dip) (rows : Table)
    → Increasing low rows
    → In d rows
    → one_pending doc new ≡ one_pending doc d
    → count_pending doc (save_row d.dbid new rows) ≡ count_pending doc rows
unfolding save_row
count_pending-save_row doc low d new [] h m same = elim m [ ]
count_pending-save_row doc low d new (e ∷ rows) h (inl p) same =
    ground (arith, save_row-absent e.dbid d.dbid new rows h.1)
count_pending-save_row doc low d new (e ∷ rows) h (inr m) same =
    ground
      (arith, In-above e.dbid d rows h.1 m, count_pending-save_row doc e.dbid d new rows h.1 m same)

count_pending-insert_newest :
    (doc : String) (d : Dip) (es : List Dip)
    → count_pending doc (insert_newest d es) ≡ one_pending doc d + count_pending doc es
unfolding insert_newest
count_pending-insert_newest doc d [] = refl
count_pending-insert_newest doc d (e ∷ es) = ground (arith, count_pending-insert_newest doc d es)

count_pending-candidates :
    (doc : String) (rows : Table) → count_pending doc (candidates doc rows) ≡ count_pending doc rows
unfolding candidates
count_pending-candidates doc [] = refl
count_pending-candidates doc (d ∷ rows) = ground (
  arith,
  count_pending-insert_newest doc d (candidates doc rows),
  count_pending-candidates doc rows,
)

select_dip-none :
    (doc : String) (ignore_cache : Bool) (now : ℕ) (ds : List Dip)
    → select_dip ignore_cache now ds ≡ none
    → count_pending doc ds ≡ 0
unfolding select_dip
select_dip-none doc ic now [] h = refl
select_dip-none doc ic now (d ∷ ds) h = ground (arith, select_dip-none doc ic now ds)

-- If no candidate is selected, the document has no pending DIP.
pub count_pending-unselected :
    (doc : String) (ignore_cache : Bool) (now : ℕ) (rows : Table)
    → select_dip ignore_cache now (candidates doc rows) ≡ none
    → count_pending doc rows ≡ 0
count_pending-unselected doc ic now rows h =
    ground
      (arith, select_dip-none doc ic now (candidates doc rows) h, count_pending-candidates doc rows)

pub count_pending-append :
    (doc : String) (rows : Table) (d : Dip)
    → count_pending doc (rows ++ (d ∷ [])) ≡ count_pending doc rows + one_pending doc d
count_pending-append doc [] d = omega arith
count_pending-append doc (e ∷ rows) d = ground (arith, count_pending-append doc rows d)

In-insert_newest : (d e : Dip) (es : List Dip) → In d (insert_newest e es) → (d ≡ e) ⊎ In d es
unfolding insert_newest
In-insert_newest d e [] m = m
In-insert_newest d e (f ∷ es) m = ground (arith, In-insert_newest d e es)

-- A candidate is a row of the table, for the document, and pending or stored.
pub In-candidates :
    (d : Dip) (doc : String) (rows : Table)
    → In d (candidates doc rows)
    → In d rows × (str_eq d.doc_key doc ≡ true) × (is_candidate d.status ≡ true)
unfolding candidates
In-candidates d doc [] m = elim m [ ]
In-candidates d doc (e ∷ rows) m =
    ground (arith, In-insert_newest d e (candidates doc rows), In-candidates d doc rows)

-- The selected row is a candidate that is not skipped.
pub select_dip-In :
    (d : Dip) (ignore_cache : Bool) (now : ℕ) (ds : List Dip)
    → select_dip ignore_cache now ds ≡ some d
    → In d ds × (is_skipped ignore_cache now d ≡ false)
unfolding select_dip
select_dip-In d ic now [] h = cc
select_dip-In d ic now (e ∷ ds) h = ground (arith, select_dip-In d ic now ds)

pub save_row-Increasing :
    (low : ℕ) (id : ℕ) (new : Dip) (rows : Table)
    → Increasing low rows
    → new.dbid ≡ id
    → Increasing low (save_row id new rows)
unfolding save_row
save_row-Increasing low id new [] h e = tt
save_row-Increasing low id new (d ∷ rows) h e =
    ground (arith, save_row-Increasing d.dbid id new rows h.1 e)

next_id-Increasing_from :
    (low : ℕ) (rows : Table) (d : Dip)
    → Increasing low rows
    → next_id rows ≤ d.dbid
    → low < d.dbid
    → Increasing low (rows ++ (d ∷ []))
unfolding next_id
next_id-Increasing_from low [] d h n l = (l, tt)
next_id-Increasing_from low (e ∷ rows) d h n l =
    ground (arith, next_id-Increasing_from e.dbid rows d h.1)

next_id-pos : (rows : Table) → 0 < next_id rows
unfolding next_id
next_id-pos [] = omega arith
next_id-pos (d ∷ rows) = ground (arith, next_id-pos rows)

pub next_id-Increasing :
    (rows : Table) (d : Dip)
    → Increasing 0 rows
    → d.dbid ≡ next_id rows
    → Increasing 0 (rows ++ (d ∷ []))
next_id-Increasing rows d h e =
    next_id-Increasing_from 0 rows d h (omega arith) (omega (arith, next_id-pos rows))
