-- ===== src/Migration/Stages/Refines.antt =====
-- internal/migration/credential.go and verification.go: the stages, as steps of the ledger.
use baobab_iam.Base.{String, not, Bool-cases, inl, inr}
use baobab_iam.Result.{refuse_if}
use baobab_iam.Action.Along.{Along}
use baobab_iam.Migration.Errors.{invalid_strategy}
use baobab_iam.Migration.Types.{
  Row, MigrationState, provisioned, credential_pending, credential_ready, verification_pending,
  verified, CredentialStrategy, direct_import, no_credential_required, strategy_valid, is_strategy,
}
use baobab_iam.Migration.Store.{IsLawful}
use baobab_iam.Migration.Service.{Service, apply_transition}
use baobab_iam.Migration.Ledger.Refines.{
  get-Evolves, lift-resume-Evolves, ServiceEvolves, apply_transition-Evolves, IsReached,
}
use baobab_iam.Migration.Bridge.Provision.Refines.{then_Evolves, order}
use baobab_iam.Migration.Stages.Credential
use baobab_iam.Migration.Stages.Credential.{
  apply_credential, mark_ready, to_ready, to_pending, apply_from, mark_ready_from, by_strategy,
  ready_from, pending_from,
}
use baobab_iam.Migration.Stages.Verification.{
  apply_verification, mark_verified, verify_from, mark_verified_from,
}

module _ {S : Type 0} (svc : Service S) (laws : IsLawful svc.store) where
  abbrev R : S → S → Type 0
  R = ServiceEvolves svc laws

  same : (s : S) → R s s
  same s = (order svc laws).same s

  moved-Evolves :
      (id : String) (to : MigrationState) (outcome : String) (s : S)
      → R s (Credential.moved_to svc id to outcome s).1
  moved-Evolves id to outcome s =
      then_Evolves svc laws (apply_transition svc id to s) _ s
        ((apply_transition-Evolves svc laws id to).at s) λ out t. same t

  ready-Evolves :
      (state : MigrationState) (id : String) (r : Row) (outcome : String) (s : S)
      → R s (ready_from svc state id r outcome s).1
  ready-Evolves provisioned id r outcome s = moved-Evolves id credential_ready outcome s
  ready-Evolves credential_pending id r outcome s = moved-Evolves id credential_ready outcome s
  ready-Evolves _ id r outcome s = same s

  pending-Evolves :
      (state : MigrationState) (id : String) (r : Row) (outcome : String) (s : S)
      → R s (pending_from svc state id r outcome s).1
  pending-Evolves credential_pending id r outcome s = same s
  pending-Evolves _ id r outcome s = moved-Evolves id credential_pending outcome s

  strategy-Evolves :
      (strategy : CredentialStrategy) (id : String) (r : Row) (s : S)
      → R s (by_strategy svc strategy id r s).1
  unfolding to_ready to_pending
  strategy-Evolves no_credential_required id r s = ready-Evolves r.migration_state id r _ s
  strategy-Evolves direct_import id r s = pending-Evolves r.migration_state id r _ s
  strategy-Evolves (CredentialStrategy.unlisted _) id r s = same s
  strategy-Evolves _ id r s = pending-Evolves r.migration_state id r _ s

  apply_from-Evolves :
      (state : MigrationState) (id : String) (r : Row) (s : S) → R s (apply_from svc state id r s).1
  apply_from-Evolves provisioned id r s = strategy-Evolves r.credential_strategy id r s
  apply_from-Evolves credential_pending id r s = strategy-Evolves r.credential_strategy id r s
  apply_from-Evolves _ id r s = same s

  pub apply_credential-Evolves : (id : String) → Along R (apply_credential svc id)
  unfolding apply_credential
  apply_credential-Evolves id = record {
    at = λ s. then_Evolves svc laws (svc.store.get id s) _ s ((get-Evolves laws _ id).at s) λ r t.
        lift-resume-Evolves laws _
          (refuse_if (not (strategy_valid r.credential_strategy)) invalid_strategy) _ t
          λ u _. apply_from-Evolves r.migration_state id r t;
  }

  mark_ready_from-Evolves :
      (state : MigrationState) (id : String) (r : Row) (s : S)
      → R s (mark_ready_from svc state id r s).1
  unfolding to_ready
  mark_ready_from-Evolves credential_pending id r s = moved-Evolves id credential_ready _ s
  mark_ready_from-Evolves provisioned id r s =
      elim (Bool-cases (is_strategy r.credential_strategy no_credential_required)) [
        | inl none_needed ↦ rw none_needed (ready-Evolves r.migration_state id r _ s)
        | inr needed ↦ rw needed (same s)
      ]
  mark_ready_from-Evolves _ id r s = same s

  pub mark_ready-Evolves : (id : String) → Along R (mark_ready svc id)
  unfolding mark_ready
  mark_ready-Evolves id = record {
    at = λ s.
        then_Evolves svc laws (svc.store.get id s) _ s ((get-Evolves laws _ id).at s)
          λ r t. mark_ready_from-Evolves r.migration_state id r t;
  }

  verify_from-Evolves :
      (state : MigrationState) (id : String) (r : Row) (s : S)
      → R s (verify_from svc state id r s).1
  verify_from-Evolves credential_ready id r s =
      then_Evolves svc laws (apply_transition svc id verification_pending s) _ s
        ((apply_transition-Evolves svc laws id verification_pending).at s) λ out t. same t
  verify_from-Evolves _ id r s = same s

  pub apply_verification-Evolves : (id : String) → Along R (apply_verification svc id)
  unfolding apply_verification
  apply_verification-Evolves id = record {
    at = λ s.
        then_Evolves svc laws (svc.store.get id s) _ s ((get-Evolves laws _ id).at s)
          λ r t. verify_from-Evolves r.migration_state id r t;
  }

  mark_verified_from-Evolves :
      (state : MigrationState) (id : String) (r : Row) (s : S)
      → R s (mark_verified_from svc state id r s).1
  mark_verified_from-Evolves verification_pending id r s =
      then_Evolves svc laws (apply_transition svc id verified s) _ s
        ((apply_transition-Evolves svc laws id verified).at s) λ out t. same t
  mark_verified_from-Evolves _ id r s = same s

  pub mark_verified-Evolves : (id : String) → Along R (mark_verified svc id)
  unfolding mark_verified
  mark_verified-Evolves id = record {
    at = λ s.
        then_Evolves svc laws (svc.store.get id s) _ s ((get-Evolves laws _ id).at s)
          λ r t. mark_verified_from-Evolves r.migration_state id r t;
  }

  -- From a well-formed store the credential stage (`Apply` and `MarkReady`) and the verification
  -- stage (`Apply` and `MarkVerified`) lead to a well-formed store along ledger steps under the
  -- policy of the service, whether they succeed or fail.
  pub stages_refine :
      (id : String) (s : S)
      → laws.IsWell s
      → IsReached svc laws s (apply_credential svc id s).1
        × IsReached svc laws s (mark_ready svc id s).1
        × IsReached svc laws s (apply_verification svc id s).1
        × IsReached svc laws s (mark_verified svc id s).1
  stages_refine id s h = (
    ((apply_credential-Evolves id).at s).evolve h,
    ((mark_ready-Evolves id).at s).evolve h,
    ((apply_verification-Evolves id).at s).evolve h,
    ((mark_verified-Evolves id).at s).evolve h,
  )
