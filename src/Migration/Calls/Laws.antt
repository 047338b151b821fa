-- ===== src/Migration/Calls/Laws.antt =====
-- internal/migration: what holds of the ledger after any sequence of calls.
use baobab_iam.Base.{String, Option, none, some, List, [], ◌∷◌, ◌≡◌}
use mathlib.Core.Path.{subst}
use baobab_iam.Migration.Types.{Row, orphan_candidate}
use baobab_iam.Migration.Store.{IsLawful}
use baobab_iam.Migration.Service.{effective_policy}
use baobab_iam.Migration.Ledger.{Reach}
use baobab_iam.Migration.Ledger.History.{Descends}
use baobab_iam.Migration.Ledger.History.Identity.{Follows, row_never_lost}
use baobab_iam.Migration.Ledger.History.Policy.{
  IsBeforeCutover, phase_c_no_cutover, IsParked, orphan_never_executes,
}
use baobab_iam.Migration.Ledger.Refines.{
  ServiceEvolves, apply_transition-Evolves, set_target_binding-Evolves, register-Evolves,
}
use baobab_iam.Migration.Bridge.Targets.{ProvisionBridge}
use baobab_iam.Migration.Bridge.Provision.Refines.{order}
use baobab_iam.Migration.Bridge.Provision.Provider.{LeavesLedger}
use baobab_iam.Migration.Bridge.Provision.Whole.{provision-Evolves}
use baobab_iam.Migration.Stages.Refines.{
  apply_credential-Evolves, mark_ready-Evolves, apply_verification-Evolves, mark_verified-Evolves,
}
use baobab_iam.Migration.Calls.{
  Call, call_register, call_apply_transition, call_set_target_binding, call_provision,
  call_apply_credential, call_mark_ready, call_apply_verification, call_mark_verified, perform, run,
}

module _ {S : Type 0} (b : ProvisionBridge S) (laws : IsLawful b.service.store)
    (leaves : LeavesLedger b laws) (parse_address : String → Option String) where
  open laws use {view, IsWell}

  perform-Evolves :
      (c : Call) (s : S) → ServiceEvolves b.service laws s (perform b parse_address c s)
  perform-Evolves (call_register row) s = (register-Evolves b.service laws row).at s
  perform-Evolves (call_apply_transition id to) s =
      (apply_transition-Evolves b.service laws id to).at s
  perform-Evolves (call_set_target_binding id raw) s =
      (set_target_binding-Evolves b.service laws id raw).at s
  perform-Evolves (call_provision id) s = (provision-Evolves b laws leaves parse_address id).at s
  perform-Evolves (call_apply_credential id) s = (apply_credential-Evolves b.service laws id).at s
  perform-Evolves (call_mark_ready id) s = (mark_ready-Evolves b.service laws id).at s
  perform-Evolves (call_apply_verification id) s =
      (apply_verification-Evolves b.service laws id).at s
  perform-Evolves (call_mark_verified id) s = (mark_verified-Evolves b.service laws id).at s

  run-Evolves :
      (calls : List Call) (s : S) → ServiceEvolves b.service laws s (run b parse_address calls s)
  run-Evolves [] s = (order b.service laws).same s
  run-Evolves (c ∷ rest) s =
      (order b.service laws).trans s (perform b parse_address c s) _ (perform-Evolves c s)
        (run-Evolves rest (perform b parse_address c s))

  reached :
      (calls : List Call) (s : S)
      → IsWell s
      → Reach (effective_policy b.service.policy) (view s) (view (run b parse_address calls s))
  reached calls s h = ((run-Evolves calls s).evolve h).1

  -- Whatever calls are made on a well-formed store, a row that is stored is still found under its id
  -- afterwards, with the same identity, batch, source, class and strategy, in a state that a trail of
  -- the diagram leads to, as long as the provider and the source of traits write nothing to the ledger.
  pub rows_kept :
      (calls : List Call) (s : S) (r : Row)
      → IsWell s
      → view s r.migration_id ≡ some r
      → Descends Follows r (view (run b parse_address calls s))
  rows_kept calls s r h held = row_never_lost _ r held (reached calls s h)

  -- Whatever calls are made on a well-formed store under the default policy, a row that is before the
  -- cutover is still before it, as long as the provider and the source of traits write nothing to the
  -- ledger.
  pub no_cutover :
      (calls : List Call) (s : S) (r : Row)
      → b.service.policy ≡ none
      → IsWell s
      → view s r.migration_id ≡ some r
      → IsBeforeCutover r
      → (r' : Row) × (view (run b parse_address calls s) r.migration_id ≡ some r')
        × IsBeforeCutover r'
  no_cutover calls s r by_default h held before =
      let steps =
        subst (λ p. Reach (effective_policy p) (view s) (view (run b parse_address calls s)))
          by_default (reached calls s h) in
      phase_c_no_cutover r held before steps

  -- Whatever calls are made on a well-formed store under any policy, an orphan candidate that has not
  -- been taken into execution never is: it stays in DISCOVERED, BLOCKED, FAILED_MANUAL_REVIEW or
  -- QUARANTINED, as long as the provider and the source of traits write nothing to the ledger.
  pub orphans-IsParked :
      (calls : List Call) (s : S) (r : Row)
      → IsWell s
      → view s r.migration_id ≡ some r
      → r.identity_class ≡ orphan_candidate
      → IsParked r.migration_state
      → (r' : Row) × (view (run b parse_address calls s) r.migration_id ≡ some r')
        × (r'.identity_class ≡ orphan_candidate)
        × IsParked r'.migration_state
  orphans-IsParked calls s r h held orphan parked =
      orphan_never_executes _ r held orphan parked (reached calls s h)
