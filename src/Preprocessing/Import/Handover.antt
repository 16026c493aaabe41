-- ===== src/Preprocessing/Import/Handover.antt =====
-- internal/workflows/preprocessing.go and internal/apis/custom_metadata.go: what preprocessing leaves
-- for the poststorage workflow can be used there.
use sfa_enduro_workflows.Base.{
  ℕ, ◌≡◌, refl, String, Bool, true, false, some, List, [], ◌||◌, str_eq, if◌then◌else◌, arith,
}
use sfa_enduro_workflows.Sip.{Sip}
use sfa_enduro_workflows.Apis.{
  CustomMetadata, JsonObject, ImportBehaviour, continue_overwrite, continue_append, marshal,
  unmarshal, import_behaviour, append_only, overwrite_and_append,
}
use sfa_enduro_workflows.Workflow.{Result, ok, err}
use sfa_enduro_workflows.Preprocessing.{
  AnalysisResult, alle_neu, alle_gleich, konflikte, fehler, other_result, start, report_broken,
  report_success, return_result, Environment, State, Flow, next, returned, raised, Action, ◌>>=◌,
  ◌>>◌, continue, pure,
}
use sfa_enduro_workflows.Preprocessing.Import.{
  resolve, record_data, receive, signal_parent, poll_analysis, ask_parent, report_orphan,
  wait_for_decision, handle_analysis, submit_metadata, wait_for_analysis, record_metadata,
  import_task,
}

-- What Marshal writes, Unmarshal reads again.
pub unmarshal-marshal :
    (m : CustomMetadata) (o : JsonObject) → marshal m ≡ ok o → unmarshal o ≡ ok m
unfolding marshal unmarshal
unmarshal-marshal m o h = ground arith

-- A decision with which ingest goes on
abbrev continues : String → Bool
continues d = str_eq d "" || (str_eq d continue_append || str_eq d continue_overwrite)

-- Metadata that a poststorage workflow accepts, with a behaviour of the import.
pub record Importable (o : JsonObject) : Type 0 where
  pub metadata : CustomMetadata
  pub behaviour : ImportBehaviour
  pub accepted : unmarshal o ≡ ok metadata
  pub imported : import_behaviour metadata ≡ ok behaviour

-- The state has metadata that can be used.
pub Recorded : State → Type 0
Recorded s = (o : JsonObject) × (s.custom_metadata ≡ some o) × Importable o

continues-behaviour :
    (m : CustomMetadata)
    → continues m.decision ≡ true
    → (b : ImportBehaviour) × (import_behaviour m ≡ ok b)
unfolding import_behaviour
continues-behaviour m h = (
  if str_eq m.decision "" || str_eq m.decision continue_append
      then append_only
      else overwrite_and_append,
  ground arith,
)

-- Each value with which an action goes on has a property.
record Gives {A : Type 0} (Q : A → Type 0) (m : Action A) : Type 0 where
  at : (s : State) (a : A) → (m s).0 ≡ next a → Q a

continue-Gives :
    {A B : Type 0} (Q : B → Type 0) (r : Flow A) (f : A → Action B) (s : State) (b : B)
    → ((a : A) → Gives Q (f a))
    → (continue r f s).0 ≡ next b
    → Q b
continue-Gives Q (next a) f s b rest h = (rest a).at s b h
continue-Gives Q returned f s b rest h = ground arith
continue-Gives Q (raised e) f s b rest h = ground arith

Gives-bind :
    {A B : Type 0} {Q : B → Type 0} (m : Action A) (f : A → Action B)
    → ((a : A) → Gives Q (f a))
    → Gives Q (m >>= f)
Gives-bind {Q = Q} m f rest = record { at = λ s b. continue-Gives Q (m s).0 f (m s).1 b rest }

Gives-if :
    {A : Type 0} {Q : A → Type 0} (test : Bool) (m n : Action A)
    → Gives Q m
    → Gives Q n
    → Gives Q (if test then m else n)
Gives-if true m n x y = x
Gives-if false m n x y = y

-- A report of a system error ends the function.
broken-Gives :
    {A : Type 0} (Q : A → Type 0) (task : ℕ) (message : String) (lines : List String)
    → Gives Q (report_broken task message lines >> return_result)
broken-Gives Q task message lines = record { at = λ s a h. ground arith }

abbrev Continues : String → Type 0
Continues d = continues d ≡ true

-- The value of a step that goes on
next-continues : (x d : String) → next x ≡ next d → continues x ≡ true → continues d ≡ true
next-continues x d p h = cc

success-Gives :
    (task : ℕ) (message : String) → Gives Continues (report_success task message >> pure "")
success-Gives task message = record { at = λ s d h. next-continues "" d h refl }

module _ (env : Environment) where
  resolve-Gives : (task : ℕ) (id option : String) → Gives Continues (resolve env task id option)
  unfolding resolve
  resolve-Gives task id option = record { at = λ s d h. ground arith }

  receive-Gives : (task : ℕ) (id : String) → Gives Continues (receive env task id)
  unfolding receive
  receive-Gives task id = record {
    at = λ s. (resolve-Gives task id (env.decision_response s.events)).at s;
  }

  ask_parent-Gives : (task : ℕ) (id : String) → Gives Continues (ask_parent env task id)
  unfolding ask_parent
  ask_parent-Gives task id = Gives-bind (signal_parent env task id) _ λ _. receive-Gives task id

  report_orphan-Gives : (task : ℕ) → Gives Continues (report_orphan env task)
  unfolding report_orphan
  report_orphan-Gives task = broken-Gives Continues task _ _

  wait_for_decision-Gives :
      (task : ℕ) (id : String) → Gives Continues (wait_for_decision env task id)
  unfolding wait_for_decision
  wait_for_decision-Gives task id =
      Gives-if env.has_parent (ask_parent env task id) (report_orphan env task)
        (ask_parent-Gives task id) (report_orphan-Gives task)

  handle_analysis-Gives :
      (task : ℕ) (id : String) (r : AnalysisResult)
      → Gives Continues (handle_analysis env task id r)
  unfolding handle_analysis
  handle_analysis-Gives task id alle_neu = success-Gives task _
  handle_analysis-Gives task id alle_gleich = success-Gives task _
  handle_analysis-Gives task id konflikte = wait_for_decision-Gives task id
  handle_analysis-Gives task id fehler = broken-Gives Continues task _ _
  handle_analysis-Gives task id (other_result name) = broken-Gives Continues task _ _

  wait_for_analysis-Gives : (id : String) → Gives Continues (wait_for_analysis env id)
  unfolding wait_for_analysis
  wait_for_analysis-Gives id =
      Gives-bind (start "Wait for APIS analysis") _
        λ task. Gives-bind (poll_analysis env task id) _ λ r. handle_analysis-Gives task id r

  record_data-recorded :
      (r : Result JsonObject) (s : State)
      → (record_data env r s).0 ≡ next tt
      → (o : JsonObject) × (r ≡ ok o) × ((record_data env r s).1.custom_metadata ≡ some o)
  unfolding record_data
  record_data-recorded (ok o) s h = (o, refl, refl)
  record_data-recorded (err e) s h = ([], ground arith, ground arith)

  record_metadata-Recorded :
      (m : CustomMetadata) (s : State)
      → Continues m.decision
      → (record_metadata env m s).0 ≡ next tt
      → Recorded (record_metadata env m s).1
  unfolding record_metadata Recorded
  record_metadata-Recorded m s c h =
      let (o, made, kept) = record_data-recorded (marshal m) s h in
      let (b, behaviour) = continues-behaviour m c in
      (
        o,
        kept,
        record {
          metadata = m;
          behaviour = b;
          accepted = unmarshal-marshal m o made;
          imported = behaviour;
        },
      )

  -- The last step of the import, behind a decision
  after_decision :
      (id : String) (d : Flow String) (s : State)
      → ((x : String) → d ≡ next x → Continues x)
      → (continue d (λ x. record_metadata env (record { import_task_id = id; decision = x })) s).0
        ≡ next tt
      → Recorded
          (continue d (λ x. record_metadata env (record { import_task_id = id; decision = x })) s).1
  after_decision id (next x) s c h =
      record_metadata-Recorded (record { import_task_id = id; decision = x }) s (c x refl) h
  after_decision id returned s c h = let no : ⊥ = ground arith in elim no [ ]
  after_decision id (raised e) s c h = let no : ⊥ = ground arith in elim no [ ]

  after_submit :
      (id : Flow String) (s : State)
      → let rest =
          continue id
            (λ i. wait_for_analysis env i >>= λ x.
              record_metadata env (record { import_task_id = i; decision = x }))
            s in
        rest.0 ≡ next tt → Recorded rest.1
  after_submit (next i) s h =
      let d = wait_for_analysis env i s in
      after_decision i d.0 d.1 ((wait_for_analysis-Gives i).at s) h
  after_submit returned s h = let no : ⊥ = ground arith in elim no [ ]
  after_submit (raised e) s h = let no : ⊥ = ground arith in elim no [ ]

  -- If the import task of a package goes on to its end, then the metadata that it leaves is accepted by
  -- the poststorage workflow, and stands for a behaviour of the import: the workflow never fails for
  -- the metadata or the user's decision.
  pub import_task-Recorded :
      (sip : Sip) (user : String) (s : State)
      → (import_task env sip user s).0 ≡ next tt
      → Recorded (import_task env sip user s).1
  unfolding import_task
  import_task-Recorded sip user s h =
      let id = submit_metadata env sip user s in after_submit id.0 id.1 h
