-- ===== src/Migration/Stages/Outcome.antt =====
-- internal/migration/credential.go: what a credential stage that succeeds has done.
use baobab_iam.Base.{String, true, false, not, some, ◌≡◌, refl, sym, ap, ◌∙◌, ◌⊎◌, inl, inr}
use mathlib.Core.Path.{subst}
use baobab_iam.Result.{Result, ok, refuse_if}
use baobab_iam.Migration.Errors.{Error, invalid_strategy}
use baobab_iam.Migration.Types.{
  Row, MigrationState, provisioned, credential_pending, credential_ready, verification_pending,
  verified, cutover_ready, cutover, legacy_retired, CredentialStrategy, direct_import,
  no_credential_required, strategy_valid,
}
use baobab_iam.Migration.Store.{View, IsLawful}
use baobab_iam.Migration.Service.{Service, apply_transition}
use baobab_iam.Migration.Service.Effect.{Advanced, Ends-ok, apply_transition-Ends}
use baobab_iam.Migration.Ledger.History.Identity.{advance_keeps}
use baobab_iam.Migration.Bridge.Provision.Outcome.{resume-ok, Written-at}
use baobab_iam.Migration.Stages.Credential
use baobab_iam.Migration.Stages.Credential.{
  CredentialResult, apply_credential, to_ready, to_pending, apply_from, by_strategy, ready_from,
  pending_from,
}

-- The state that the credential stage leads to.
abbrev pub credential_target : CredentialStrategy → MigrationState
credential_target no_credential_required = credential_ready
credential_target _ = credential_pending

-- The states in which the credential stage has its work to do.
abbrev pub IsInStage : MigrationState → Type 0
IsInStage st = (st ≡ provisioned) ⊎ (st ≡ credential_pending)

-- The states behind the credential stage on the happy path.
abbrev pub IsPast : MigrationState → Type 0
IsPast credential_ready = Unit
IsPast verification_pending = Unit
IsPast verified = Unit
IsPast cutover_ready = Unit
IsPast cutover = Unit
IsPast legacy_retired = Unit
IsPast _ = ⊥

-- The row that is returned is stored, in the state `to`.
pub record IsLed (id : String) (to : MigrationState) (out : Row) (w : View) : Type 0 where
  pub found : w id ≡ some out
  pub state : out.migration_state ≡ to

module _ {S : Type 0} (svc : Service S) (laws : IsLawful svc.store) where
  open laws use {view, IsWell}

  moved_lem :
      (id : String) (to : MigrationState) (outcome : String) (out : CredentialResult) (s : S)
      → IsWell s
      → (Credential.moved_to svc id to outcome s).0 ≡ ok out
      → (out.already_ready ≡ false)
        × IsLed id to out.row (view (Credential.moved_to svc id to outcome s).1)
  moved_lem id to outcome out s h done =
      let p = apply_transition svc id to s in
      let (row, moved, rest, same) = resume-ok p _ out done in
      let (well, a) =
        Ends-ok svc laws (Advanced svc laws id to (view s)) (view s) p row
          (apply_transition-Ends svc laws id to s h) moved in
      let (kept, state) = advance_keeps a.time to a.old row a.effect in
      let same_row : out.row ≡ row = cc in
      (
        cc,
        record {
          found =
              ap (λ x. view x.1 id) same
              ∙ (Written-at id (view s) (view p.1) row a.written (kept.same_id ∙ a.key)
                  ∙ ap some (sym same_row));
          state = cc (same_row, state);
        },
      )

  ready_lem :
      (st : MigrationState) (id : String) (r : Row) (outcome : String) (out : CredentialResult)
      (s : S)
      → IsInStage st
      → IsWell s
      → (ready_from svc st id r outcome s).0 ≡ ok out
      → (out.already_ready ≡ false)
        × IsLed id credential_ready out.row (view (ready_from svc st id r outcome s).1)
  ready_lem provisioned id r outcome out s known h done =
      moved_lem id credential_ready outcome out s h done
  ready_lem credential_pending id r outcome out s known h done =
      moved_lem id credential_ready outcome out s h done
  ready_lem _ id r outcome out s (inl e) h done = cc
  ready_lem _ id r outcome out s (inr e) h done = cc

  pending_lem :
      (st : MigrationState) (id : String) (r : Row) (outcome : String) (out : CredentialResult)
      (s : S)
      → r.migration_state ≡ st
      → IsWell s
      → view s id ≡ some r
      → (pending_from svc st id r outcome s).0 ≡ ok out
      → (out.already_ready ≡ false)
        × IsLed id credential_pending out.row (view (pending_from svc st id r outcome s).1)
  pending_lem credential_pending id r outcome out s e h held done =
      (cc, record { found = cc; state = cc })
  pending_lem _ id r outcome out s e h held done =
      moved_lem id credential_pending outcome out s h done

  strategy_lem :
      (strategy : CredentialStrategy) (id : String) (r : Row) (out : CredentialResult) (s : S)
      → IsInStage r.migration_state
      → IsWell s
      → view s id ≡ some r
      → (by_strategy svc strategy id r s).0 ≡ ok out
      → (out.already_ready ≡ false)
        × IsLed id (credential_target strategy) out.row (view (by_strategy svc strategy id r s).1)
  unfolding to_ready to_pending
  strategy_lem no_credential_required id r out s known h held done =
      ready_lem r.migration_state id r _ out s known h done
  strategy_lem (CredentialStrategy.unlisted _) id r out s known h held done = cc
  strategy_lem direct_import id r out s known h held done =
      pending_lem r.migration_state id r _ out s refl h held done
  strategy_lem _ id r out s known h held done =
      pending_lem r.migration_state id r _ out s refl h held done

  -- How a call of `CredentialStage.Apply` that succeeds has ended.
  abbrev pub Credentialed : String → Row → CredentialResult → View → View → Type 0
  Credentialed id r out v w =
      (IsPast r.migration_state × (out.already_ready ≡ true) × (out.row ≡ r) × (w ≡ v))
      ⊎ (IsInStage r.migration_state
          × (out.already_ready ≡ false)
          × IsLed id (credential_target r.credential_strategy) out.row w)

  from_lem :
      (st : MigrationState) (id : String) (r : Row) (out : CredentialResult) (s : S)
      → r.migration_state ≡ st
      → IsWell s
      → view s id ≡ some r
      → (apply_from svc st id r s).0 ≡ ok out
      → Credentialed id r out (view s) (view (apply_from svc st id r s).1)
  from_lem provisioned id r out s e h held done =
      let (fresh, led) = strategy_lem r.credential_strategy id r out s (inl e) h held done in
      inr (inl e, fresh, led)
  from_lem credential_pending id r out s e h held done =
      let (fresh, led) = strategy_lem r.credential_strategy id r out s (inr e) h held done in
      inr (inr e, fresh, led)
  from_lem credential_ready id r out s e h held done = inl (rw e tt, cc, cc, refl)
  from_lem verification_pending id r out s e h held done = inl (rw e tt, cc, cc, refl)
  from_lem verified id r out s e h held done = inl (rw e tt, cc, cc, refl)
  from_lem cutover_ready id r out s e h held done = inl (rw e tt, cc, cc, refl)
  from_lem cutover id r out s e h held done = inl (rw e tt, cc, cc, refl)
  from_lem legacy_retired id r out s e h held done = inl (rw e tt, cc, cc, refl)
  from_lem _ id r out s e h held done = cc

  -- When `CredentialStage.Apply` succeeds on a well-formed store, then either the stored row was
  -- CREDENTIAL_READY or behind that on the happy path, and it is returned as it is, as already ready,
  -- with the ledger as it was; or it was PROVISIONED or CREDENTIAL_PENDING, and the row that is
  -- returned, not as already ready, is stored and is CREDENTIAL_READY if the strategy is
  -- NO_CREDENTIAL_REQUIRED and CREDENTIAL_PENDING for any other strategy.
  pub apply_credential_succeeds :
      (id : String) (out : CredentialResult) (s : S)
      → IsWell s
      → (apply_credential svc id s).0 ≡ ok out
      → (r : Row) × (view s id ≡ some r)
        × Credentialed id r out (view s) (view (apply_credential svc id s).1)
  unfolding apply_credential
  apply_credential_succeeds id out s h done =
      let g = svc.store.get id s in
      let (r, read, rest, same) = resume-ok g _ out done in
      let held = laws.get_ok id s r h read in
      let kept = laws.get_view id s h in
      let c : Result Error (Unit {0}) × S =
        (refuse_if (not (strategy_valid r.credential_strategy)) invalid_strategy, g.1) in
      let (u, admitted, rest', same') = resume-ok c _ out rest in
      let ends =
        from_lem r.migration_state id r out g.1 refl (laws.get_well id s h)
          (ap (λ v. v id) kept ∙ held) rest' in
      let ends' =
        subst (λ x. Credentialed id r out (view g.1) (view x.1)) (sym (same ∙ same')) ends in
      (
        r,
        held,
        subst (λ v. Credentialed id r out v (view (apply_credential svc id s).1)) kept ends',
      )
