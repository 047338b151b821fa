-- ===== src/Migration/Bridge/Provision/Retry.antt =====
-- internal/migration/bridge.go: `Provision` on a row in a state of failure.
use baobab_iam.Base.{
  String, true, false, Option, some, ◌≡◌, sym, ap, ◌∙◌, ◌≢◌, inl, inr, arith, ◌≤◌, leb, ◌||◌,
}
use baobab_iam.Result.{Result, ok, err, Result-cases}
use baobab_iam.Action.{Action, resume}
use baobab_iam.Migration.Errors.{Error}
use baobab_iam.Migration.Types.{
  Row, MigrationState, MigrationState-discrete, ProviderBinding, validated, ready, provisioning,
  provisioned, is_state,
}
use baobab_iam.Migration.State.{can_transition}
use baobab_iam.Migration.Store.{IsLawful}
use baobab_iam.Migration.Service.{Service, apply_transition, set_target_binding, trimmed}
use baobab_iam.Migration.Service.Effect.{
  Advanced, Bound, Ends-ok, apply_transition-Ends, set_target_binding-Ends,
}
use baobab_iam.Migration.Ledger.History.Identity.{bind_keeps}
use baobab_iam.Migration.Bridge.Targets.{
  ProvisionBridge, WorkloadCredentialProfile, provision_target,
}
use baobab_iam.Migration.Bridge.Advance.{advance_to, state_order}
use baobab_iam.Migration.Bridge.Provision.{
  ProvisionResult, check_class, is_done, is_past_provisioning, attach, execute, provision,
}
use baobab_iam.Migration.Bridge.Provision.Provider.{LeavesLedger}
use baobab_iam.Migration.Bridge.Provision.Whole.{target-Quiet}
use baobab_iam.Migration.Bridge.Provision.Outcome.{resume-ok, Written-at}

-- The states of failure: `stateOrder` puts them behind all that `Provision` walks to.
abbrev pub IsStuck : MigrationState → Type 0
IsStuck st = (state_order st ≡ 100) × (is_past_provisioning st ≡ false)

into_provisioned : (t : MigrationState) → can_transition t provisioned ≡ true → state_order t ≡ 3
unfolding can_transition MigrationState-discrete state_order
into_provisioned t h = ground arith

walked_over :
    (st to : MigrationState)
    → state_order st ≡ 100
    → state_order to ≤ 100
    → (is_state st to || leb (state_order to) (state_order st)) ≡ true
walked_over st to h le = ground arith

order_le : (to : MigrationState) → state_order to ≤ 100
unfolding state_order
order_le to = ground arith

module _ {S : Type 0} (svc : Service S) (laws : IsLawful svc.store) where
  open laws use {view, IsWell}

  -- `advanceTo` does nothing.
  advance_to_lem :
      (id : String) (to : MigrationState) (r : Row) (s : S)
      → IsWell s
      → view s id ≡ some r
      → state_order r.migration_state ≡ 100
      → let t = (advance_to svc id to s).1 in IsWell t × (view t ≡ view s)
  unfolding advance_to
  advance_to_lem id to r s h held stuck =
      let g = svc.store.get id s in
      elim (Result-cases g.0) [
        | inr (e, failed) ↦ rw failed (laws.get_well id s h, laws.get_view id s h)
        | inl (r', read) ↦
            let same : r' ≡ r = cc (laws.get_ok id s r' h read, held) in
            let order : state_order r'.migration_state ≡ 100 =
              ap (λ x. state_order x.migration_state) same ∙ stuck in
            rw (read, walked_over r'.migration_state to order (order_le to))
              (laws.get_well id s h, laws.get_view id s h)
      ]

  -- After a target has been bound the row still cannot move to PROVISIONED.
  refused :
      (id : String) (raw : ProviderBinding) (r q out : Row) (s : S)
      → IsWell s
      → view s id ≡ some r
      → state_order r.migration_state ≡ 100
      → (set_target_binding svc id raw s).0 ≡ ok q
      → let t = (set_target_binding svc id raw s).1 in
        (apply_transition svc id provisioned t).0 ≢ ok out
  refused id raw r q out s h held stuck bound done =
      let p = set_target_binding svc id raw s in
      let (well, a) =
        Ends-ok svc laws (Bound svc laws id (trimmed raw) (view s)) (view s) p q
          (set_target_binding-Ends svc laws id raw s h) bound in
      let (same, stayed) = bind_keeps (trimmed raw) a.old q a.effect in
      let now = Written-at id (view s) (view p.1) q a.written (same.same_id ∙ a.key) in
      let (_, moved) =
        Ends-ok svc laws (Advanced svc laws id provisioned (view p.1)) (view p.1)
          (apply_transition svc id provisioned p.1) out
          (apply_transition-Ends svc laws id provisioned p.1 well) done in
      let before : a.old ≡ r = cc (a.held, held) in
      let after : moved.old ≡ q = cc (moved.held, now) in
      let order : state_order moved.old.migration_state ≡ 100 =
        ap (λ x. state_order x.migration_state) after
        ∙ (ap state_order stayed ∙ (ap (λ x. state_order x.migration_state) before ∙ stuck)) in
      let three = into_provisioned moved.old.migration_state moved.edge in omega arith

module _ {S : Type 0} (b : ProvisionBridge S) (laws : IsLawful b.service.store)
    (leaves : LeavesLedger b laws) (parse_address : String → Option String) where
  open laws use {view, IsWell}

  -- A store in which the row is still as it was.
  abbrev Stands : String → Row → S → Type 0
  Stands id r s = IsWell s × (view s id ≡ some r)

  attach_refused :
      (id : String) (r : Row) (answer : Result Error (ProviderBinding × WorkloadCredentialProfile))
      (out : ProvisionResult) (s : S)
      → Stands id r s
      → state_order r.migration_state ≡ 100
      → (attach b parse_address id answer s).0 ≢ ok out
  attach_refused id r (err e) out s stands stuck done = cc
  attach_refused id r (ok (target, profile)) out s stands stuck done =
      let p = set_target_binding b.service id target s in
      elim (Result-cases p.0) [
        | inr (e, failed) ↦ let done' = rw failed at done in cc
        | inl (q, bound) ↦
            let done' = rw bound at done in
            let (row, moved, rest, same) =
              resume-ok (apply_transition b.service id provisioned p.1) _ out done' in
            refused b.service laws id target r q row s stands.0 stands.1 stuck bound moved
      ]

  walk_refused :
      (id : String) (to : MigrationState) (r : Row) (f : Unit {0} → Action Error S ProvisionResult)
      (out : ProvisionResult) (s : S)
      → Stands id r s
      → state_order r.migration_state ≡ 100
      → ((u : Unit {0}) (t : S) → Stands id r t → (f u t).0 ≢ ok out)
      → let p = advance_to b.service id to s in (resume p.0 f p.1).0 ≢ ok out
  walk_refused id to r f out s stands stuck next done =
      let p = advance_to b.service id to s in
      let (u, walked, rest, same) = resume-ok p f out done in
      let (well, still) = advance_to_lem b.service laws id to r s stands.0 stands.1 stuck in
      next u p.1 (well, ap (λ v. v id) still ∙ stands.1) rest

  execute_refused :
      (id : String) (r : Row) (out : ProvisionResult) (s : S)
      → Stands id r s
      → state_order r.migration_state ≡ 100
      → (execute b parse_address id s).0 ≢ ok out
  unfolding execute
  execute_refused id r out s stands stuck =
      walk_refused id validated r _ out s stands stuck λ _ t at_t.
        walk_refused id ready r _ out t at_t stuck λ _ u at_u.
          walk_refused id provisioning r _ out u at_u stuck λ _ v at_v done.
            let g = b.service.store.get id v in
            let (r', read, rest, same) = resume-ok g _ out done in
            let q = provision_target b parse_address r' g.1 in
            let still = laws.get_view id v at_v.0 in
            let (well, quiet) =
              (target-Quiet b laws leaves parse_address r' g.1).quiet (laws.get_well id v at_v.0) in
            attach_refused id r q.0 out q.1 (well, ap (λ w. w id) (quiet ∙ still) ∙ at_v.1) stuck
              rest

  not_done : (st : MigrationState) → is_past_provisioning st ≡ false → is_done st ≡ false
  not_done st h = ground arith

  -- A row in BLOCKED, FAILED_RETRYABLE, FAILED_MANUAL_REVIEW, ROLLED_BACK or QUARANTINED (the listed
  -- states of order 100 that are not past the provisioning) is never provisioned by `Provision`: the
  -- call does not succeed on a well-formed store, whatever the provider answers, as long as the
  -- provider and the source of traits write nothing to the ledger.
  pub no_retry :
      (id : String) (r : Row) (out : ProvisionResult) (s : S)
      → IsWell s
      → view s id ≡ some r
      → IsStuck r.migration_state
      → (provision b parse_address id s).0 ≢ ok out
  unfolding provision
  no_retry id r out s h held stuck done =
      let g = b.service.store.get id s in
      let (r', read, rest, same) = resume-ok g _ out done in
      let same_row : r ≡ r' = cc (laws.get_ok id s r' h read, held) in
      let p : Result Error (Unit {0}) × S = (check_class r'.identity_class, g.1) in
      let (u, admitted, rest', same') = resume-ok p _ out rest in
      let go =
        not_done r'.migration_state
          (ap (λ x. is_past_provisioning x.migration_state) (sym same_row) ∙ stuck.1) in
      let rest'' = rw go at rest' in
      execute_refused id r out g.1
        (laws.get_well id s h, ap (λ v. v id) (laws.get_view id s h) ∙ held) stuck.0 rest''
