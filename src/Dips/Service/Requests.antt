-- ===== src/Dips/Service/Requests.antt =====
-- internal/dips/service.go: what Create promises.
use sfa_enduro_workflows.Base.{
  ℕ, ◌≡◌, refl, ℤ, pos, negsuc, String, Bool, true, false, Option, none, some, [], ◌∷◌, arith,
  eq_iff,
}
use sfa_enduro_workflows.Dips.Datatypes.{Dip}
use sfa_enduro_workflows.Dips.Persistence.{
  Kind, Reply, ok, err, Faults, Table, RequestDipParams, find_row, request_dip, reuse_dip,
  create_row, handle_selection, select_dip, candidates, without, delete_row,
}
use sfa_enduro_workflows.Dips.Persistence.Requests.{IsUsable, request_dip-IsUsable, request_dip-In}
use sfa_enduro_workflows.Dips.Persistence.Pending.{In}
use sfa_enduro_workflows.Dips.Service.{
  ServiceError, answer, refused, CreatePayload, Situation, create_request, start_workflow,
  handle_request, create,
}

find_row-without : (id : String) (rows : Table) → find_row id (without id rows) ≡ none
unfolding find_row without
find_row-without id [] = refl
find_row-without id (d ∷ rows) = ground (arith, find_row-without id rows)

reuse_dip-err :
    (f : Faults) (now retention : ℕ) (d : Dip) (rows : Table) (k : Kind) (joined : Bool)
    → (reuse_dip f now retention d rows).0 ≡ err k joined
    → f.commit_fails ≡ false
    → (reuse_dip f now retention d rows).1 ≡ rows
unfolding reuse_dip
reuse_dip-err f now retention d rows k joined h c = ground arith

create_row-err :
    (f : Faults) (req : RequestDipParams) (now : ℕ) (rows : Table) (k : Kind) (joined : Bool)
    → (create_row f req now rows).0 ≡ err k joined
    → f.commit_fails ≡ false
    → (create_row f req now rows).1 ≡ rows
unfolding create_row
create_row-err f req now rows k joined h c = ground arith

handle_selection-err :
    (f : Faults) (req : RequestDipParams) (now retention : ℕ) (rows : Table) (selected : Option Dip)
    (k : Kind) (joined : Bool)
    → (handle_selection f req now retention rows selected).0 ≡ err k joined
    → f.commit_fails ≡ false
    → (handle_selection f req now retention rows selected).1 ≡ rows
unfolding handle_selection
handle_selection-err f req now retention rows (some d) k joined =
    reuse_dip-err f now retention d rows k joined
handle_selection-err f req now retention rows none k joined = create_row-err f req now rows k joined

abbrev magnitude : ℤ → ℕ
magnitude (pos r) = r
magnitude (negsuc r) = 0

-- A request that fails in another statement than the commit leaves the table as it was.
request_dip-err :
    (f : Faults) (req : RequestDipParams) (now : ℕ) (rows : Table) (k : Kind) (joined : Bool)
    → (request_dip f req now rows).0 ≡ err k joined
    → f.commit_fails ≡ false
    → (request_dip f req now rows).1 ≡ rows
unfolding request_dip
request_dip-err f req now rows k joined h c = ground (
  arith,
  handle_selection-err f req now (magnitude req.retention) rows
      (select_dip req.ignore_cache now (candidates req.doc_key rows)) k joined,
)

module _ (w : Situation) where
  -- The DIP behind an answer
  handle_request-answer :
      (r : Reply Dip) (rows : Table) (id : String)
      → (handle_request w r rows).reply ≡ answer id
      → (d : Dip) × (r ≡ ok d) × (d.uuid ≡ id)
  unfolding handle_request start_workflow
  handle_request-answer (ok d) rows id h = (d, refl, ground arith)
  handle_request-answer (err k joined) rows id h = let no : ⊥ = ground arith in elim no [ ]

  create-handled :
      (p : CreatePayload) (rows : Table) (id : String)
      → (create w p rows).reply ≡ answer id
      → let r = request_dip w.request_faults (create_request w p) w.now rows in
        create w p rows ≡ handle_request w r.0 r.1
  unfolding create
  create-handled p rows id h = ground arith

  handle_request-table :
      (r : Reply Dip) (rows : Table) (id : String)
      → (handle_request w r rows).reply ≡ answer id
      → (handle_request w r rows).table ≡ rows
  unfolding handle_request start_workflow
  handle_request-table (ok d) rows id h = ground arith
  handle_request-table (err k joined) rows id h = let no : ⊥ = ground arith in elim no [ ]

  -- If Create answers with an ID, then the table that it leaves has a row with this UUID, which is of
  -- the document, and is pending, or is stored for the retention or longer, provided that the retention
  -- is not negative, and that the new UUID was not in the table.
  pub create-IsUsable :
      (p : CreatePayload) (rows : Table) (retention : ℕ) (id : String)
      → w.retention ≡ pos retention
      → find_row w.new_uuid rows ≡ none
      → (create w p rows).reply ≡ answer id
      → (d : Dip) × (d.uuid ≡ id)
        × In d (create w p rows).table
        × IsUsable (create_request w p) w.now retention d
  unfolding create_request
  create-IsUsable p rows retention id r new h =
      let q = create-handled p rows id h in
      let s = request_dip w.request_faults (create_request w p) w.now rows in
      let (d, found, same) = handle_request-answer s.0 s.1 id (rw q at h) in
      (
        d,
        same,
        rw (q, handle_request-table s.0 s.1 id (rw q at h))
            (request_dip-In w.request_faults (create_request w p) w.now retention rows d r found),
        request_dip-IsUsable w.request_faults (create_request w p) w.now retention rows d r new
            found,
      )

  handle_request-started :
      (r : Reply Dip) (rows : Table)
      → (handle_request w r rows).reply ≡ answer w.new_uuid
      → (d : Dip) × ((handle_request w r rows).started ≡ d ∷ [])
        × (w.starts d ≡ true)
        × (d.uuid ≡ w.new_uuid)
  unfolding handle_request start_workflow
  handle_request-started (ok d) rows h = (
    d,
    ground (arith, eq_iff d.uuid w.new_uuid),
    ground (arith, eq_iff d.uuid w.new_uuid),
    ground arith,
  )
  handle_request-started (err k joined) rows h = let no : ⊥ = ground arith in elim no [ ]

  -- If Create answers with the new UUID, then it started the workflow of a DIP with this UUID.
  pub create-starts :
      (p : CreatePayload) (rows : Table)
      → (create w p rows).reply ≡ answer w.new_uuid
      → (d : Dip) × ((create w p rows).started ≡ d ∷ [])
        × (w.starts d ≡ true)
        × (d.uuid ≡ w.new_uuid)
  create-starts p rows h =
      let q = create-handled p rows w.new_uuid h in
      let s = request_dip w.request_faults (create_request w p) w.now rows in
      let (d, started, ready, same) = handle_request-started s.0 s.1 (rw q at h) in
      (d, rw q started, ready, same)

  delete_row-absent :
      (f : Faults) (id : String) (rows : Table)
      → f.query_fails ≡ false
      → find_row id (delete_row f id rows).1 ≡ none
  unfolding delete_row
  delete_row-absent f id rows q = ground (arith, find_row-without id rows)

  start_workflow-refused :
      (d : Dip) (rows : Table) (e : ServiceError)
      → w.delete_faults.query_fails ≡ false
      → (start_workflow w d rows).reply ≡ refused e
      → find_row d.uuid (start_workflow w d rows).table ≡ none
  unfolding start_workflow
  start_workflow-refused d rows e q h =
      ground (arith, delete_row-absent w.delete_faults d.uuid rows q)

  handle_request-refused :
      (r : Reply Dip) (rows rows' : Table) (e : ServiceError)
      → ((k : Kind) (joined : Bool) → r ≡ err k joined → rows' ≡ rows)
      → find_row w.new_uuid rows ≡ none
      → w.delete_faults.query_fails ≡ false
      → (handle_request w r rows').reply ≡ refused e
      → find_row w.new_uuid (handle_request w r rows').table ≡ none
  unfolding handle_request
  handle_request-refused (err k joined) rows rows' e same new q h = rw (same k joined refl) new
  handle_request-refused (ok d) rows rows' e same new q h =
      ground (arith, eq_iff d.uuid w.new_uuid, start_workflow-refused d rows' e q)

  -- If Create refuses, then no DIP is left under the new UUID, provided that it was not in the table,
  -- that the commit of the request replies, and that the removal can be asked for.
  pub create-refused :
      (p : CreatePayload) (rows : Table) (e : ServiceError)
      → find_row w.new_uuid rows ≡ none
      → w.request_faults.commit_fails ≡ false
      → w.delete_faults.query_fails ≡ false
      → (create w p rows).reply ≡ refused e
      → find_row w.new_uuid (create w p rows).table ≡ none
  unfolding create
  create-refused p rows e new c q h =
      let s = request_dip w.request_faults (create_request w p) w.now rows in
      ground (
        arith,
        handle_request-refused s.0 rows s.1 e
            (λ k joined r.
              request_dip-err w.request_faults (create_request w p) w.now rows k joined r c)
            new q,
      )
