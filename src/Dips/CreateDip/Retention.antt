-- ===== src/Dips/CreateDip/Retention.antt =====
-- internal/dips/workflows/create_dip.go: updateDIP, deleteDIP and deleteDIPAfterRetention.
use sfa_enduro_workflows.Base.{
  ℕ, zero, suc, ◌-◌, pos, String, ◌<>◌, Bool, true, false, Option, none, some, ltb, if◌then◌else◌,
}
use sfa_enduro_workflows.Workflow.{plain, Result, ok, err}
use sfa_enduro_workflows.Dips.Datatypes.{stored, failed, deleted, unset, Dip, is_zero}
use sfa_enduro_workflows.Dips.UpdateDip.{UpdateDipParams}
use sfa_enduro_workflows.Dips.CreateDip.{
  update_dip, bucket_delete, sleep, Environment, Config, Action, ◌>>=◌, ◌>>◌, pure, fail, attempt,
  execute, error_text,
}

abbrev pub no_update : UpdateDipParams
no_update = record {
  uuid = "";
  status = unset;
  object_key = "";
  error_message = "";
  retention = pos 0;
  workflow_id = "";
  clear_object_key = false;
}

module _ (env : Environment) (cfg : Config) where
  -- updateDIP
  abbrev pub request_update : UpdateDipParams → Action (Result Dip)
  request_update p = attempt (update_dip p) env.update_dip_reply

  -- deleteDIP
  unfoldable pub delete_dip : String → String → Action (Unit {0})
  delete_dip id key = do
    reply ← attempt (bucket_delete key) env.bucket_delete_reply
    elim reply [
      | err e ↦ fail (plain ("delete DIP archive: " <> error_text e))
      | ok _ ↦ do
        execute (update_dip (record no_update { uuid = id; clear_object_key = true }))
            env.update_dip_reply
        pure tt
    ]

  -- Sleep until the expiry, if it lies ahead.
  unfoldable pub wait_until : ℕ → Action (Unit {0})
  wait_until expiry s =
      let now = env.now s.calls in
      if ltb now expiry then execute (sleep (expiry - now)) env.sleep_reply s else pure tt s

  -- What a round of the loop of deleteDIPAfterRetention does with the status: `true` leaves the loop.
  unfoldable pub after_reply : String → String → Dip → Action Bool
  unfolding delete_dip wait_until
  after_reply id key d = elim d.status [
    | deleted ↦ delete_dip id key >> pure true
    | failed ↦ delete_dip id key >> pure true
    | stored ↦ if is_zero d.expires_at then pure true else wait_until d.expires_at >> pure false
    | _ ↦ fail (plain "unexpected cleanup status")
  ]

  -- deleteDIPAfterRetention, with the rounds that are left; `none` if they do not suffice.
  unfoldable pub delete_after_retention : ℕ → String → String → Action (Option (Unit {0}))
  delete_after_retention zero id key = pure none
  delete_after_retention (suc rounds) id key = do
    d ← execute (update_dip (record no_update { uuid = id; status = deleted })) env.update_dip_reply
    over ← after_reply id key d
    elim over [ true ↦ pure (some tt) | false ↦ delete_after_retention rounds id key ]
