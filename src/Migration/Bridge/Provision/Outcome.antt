-- ===== src/Migration/Bridge/Provision/Outcome.antt =====
-- internal/migration/bridge.go: what a call of `Provision` that succeeds has done.
use baobab_iam.Base.{
  ℕ, String, true, false, Option, some, ◌≡◌, refl, sym, ap, ◌∙◌, ◌⊎◌, inl, inr, eq_refl, arith,
  trim_space, Bool-cases, if◌then◌else◌,
}
use mathlib.Core.Path.{subst}
use baobab_iam.Result.{Result, ok, err}
use baobab_iam.Action.{Action, pure, resume}
use baobab_iam.Migration.Errors.{Error}
use baobab_iam.Migration.Types.{
  Row, MigrationState, ProviderBinding, validated, ready, provisioning, provisioned,
}
use baobab_iam.Migration.State.{count_attempt}
use baobab_iam.Migration.Store.{View, Written, IsLawful}
use baobab_iam.Migration.Service.{Service, apply_transition, set_target_binding, trimmed, stamp}
use baobab_iam.Migration.Service.Effect.{
  advanced, Advanced, Bound, Ends-ok, apply_transition-Ends, set_target_binding-Ends,
}
use baobab_iam.Migration.Ledger.History.Identity.{
  advance_keeps, bind_keeps, Follows, row_never_lost,
}
use baobab_iam.Migration.Bridge.Targets.{
  ProvisionBridge, WorkloadCredentialProfile, provision_target,
}
use baobab_iam.Migration.Bridge.Advance.{advance_to}
use baobab_iam.Migration.Bridge.Provision.{
  ProvisionResult, returned, check_class, is_done, finish, attach, execute, provision,
}
use baobab_iam.Migration.Ledger.Refines.{set_target_binding-Evolves}
use baobab_iam.Migration.Bridge.Provision.Refines.{advance_to-Evolves}
use baobab_iam.Migration.Bridge.Provision.Provider.{LeavesLedger}
use baobab_iam.Migration.Bridge.Provision.Whole.{target-Quiet, provision-Evolves}

advanced_target :
    (to : MigrationState) (n : ℕ) (r r' : Row)
    → r' ≡ record (advanced n to r) { revision = r'.revision }
    → r'.target ≡ r.target
unfolding stamp count_attempt
advanced_target to n r r' e = rw e (ground arith)

-- What is found under the id of a row that has just been written.
pub Written-at :
    (id : String) (v w : View) (r : Row) → Written v r w → r.migration_id ≡ id → w id ≡ some r
Written-at id v w r put key = sym (ap w key) ∙ (put r.migration_id ∙ rw (eq_refl r.migration_id))

-- A call that succeeds has succeeded in its first part.
pub resume-ok :
    {A B S : Type 0} (p : Result Error A × S) (f : A → Action Error S B) (c : B)
    → (resume p.0 f p.1).0 ≡ ok c
    → (a : A) × (p.0 ≡ ok a) × ((f a p.1).0 ≡ ok c) × (resume p.0 f p.1 ≡ f a p.1)
resume-ok (ok a, t) f c h = (a, refl, h, refl)
resume-ok (err e, t) f c h = cc

-- The row of the result is stored, PROVISIONED, and bound to what the provider has answered.
pub record IsProvisioned (id : String) (out : ProvisionResult) (w : View) : Type 0 where
  pub found : w id ≡ some out.row
  pub state : out.row.migration_state ≡ provisioned
  pub subject : out.row.target.subject ≡ trim_space out.provider_subject

module _ {S : Type 0} (svc : Service S) (laws : IsLawful svc.store) where
  open laws use {view, IsWell}

  -- After a successful `SetTargetBinding` the row under the id has that target.
  bound_row :
      (id : String) (raw : ProviderBinding) (out : Row) (s : S)
      → IsWell s
      → (set_target_binding svc id raw s).0 ≡ ok out
      → let t = (set_target_binding svc id raw s).1 in
        IsWell t × (view t id ≡ some out) × (out.target ≡ trimmed raw)
  bound_row id raw out s h done =
      let p = set_target_binding svc id raw s in
      let (well, a) =
        Ends-ok svc laws (Bound svc laws id (trimmed raw) (view s)) (view s) p out
          (set_target_binding-Ends svc laws id raw s h) done in
      let (same, stayed) = bind_keeps (trimmed raw) a.old out a.effect in
      (
        well,
        Written-at id (view s) (view p.1) out a.written (same.same_id ∙ a.key),
        ap (λ r. r.target) a.effect,
      )

  -- A row that has been moved to PROVISIONED keeps the target that it had.
  moved_row_found :
      (id : String) (q out : Row) (s : S)
      → IsWell s
      → view s id ≡ some q
      → (apply_transition svc id provisioned s).0 ≡ ok out
      → (view (apply_transition svc id provisioned s).1 id ≡ some out)
        × (out.migration_state ≡ provisioned)
        × (out.target ≡ q.target)
  moved_row_found id q out s h held done =
      let p = apply_transition svc id provisioned s in
      let (well, a) =
        Ends-ok svc laws (Advanced svc laws id provisioned (view s)) (view s) p out
          (apply_transition-Ends svc laws id provisioned s h) done in
      let (same, moved) = advance_keeps a.time provisioned a.old out a.effect in
      let old : a.old ≡ q = cc (a.held, held) in
      (
        Written-at id (view s) (view p.1) out a.written (same.same_id ∙ a.key),
        moved,
        advanced_target provisioned a.time a.old out a.effect ∙ ap (λ r. r.target) old,
      )

module _ {S : Type 0} (b : ProvisionBridge S) (laws : IsLawful b.service.store)
    (leaves : LeavesLedger b laws) (parse_address : String → Option String) where
  open laws use {view, IsWell}

  finish_lem :
      (id : String) (answer : ProviderBinding × WorkloadCredentialProfile)
      (bound : Result Error Row) (out : ProvisionResult) (s : S)
      → IsWell s
      → ((q : Row) → bound ≡ ok q → (view s id ≡ some q) × (q.target ≡ trimmed answer.0))
      → (finish b parse_address id answer bound s).0 ≡ ok out
      → IsProvisioned id out (view (finish b parse_address id answer bound s).1)
  unfolding trimmed
  finish_lem id (target, profile) (err e) out s h bound done = cc
  finish_lem id (target, profile) (ok q) out s h bound done =
      let (held, attached) = bound q refl in
      let p = apply_transition b.service id provisioned s in
      let (row, moved, rest, same) = resume-ok p _ out done in
      let (found, state, target_kept) = moved_row_found b.service laws id q row s h held moved in
      let subject : out.provider_subject ≡ target.subject = cc in
      let same_row : out.row ≡ row = cc in
      record {
        found = ap (λ x. view x.1 id) same ∙ (found ∙ ap some (sym same_row));
        state = cc (same_row, state);
        subject =
            ap (λ r. r.target.subject) same_row
            ∙ (ap (λ t. t.subject) (target_kept ∙ attached) ∙ ap trim_space (sym subject));
      }

  attach_lem :
      (id : String) (answer : Result Error (ProviderBinding × WorkloadCredentialProfile))
      (out : ProvisionResult) (s : S)
      → IsWell s
      → (attach b parse_address id answer s).0 ≡ ok out
      → IsProvisioned id out (view (attach b parse_address id answer s).1)
  attach_lem id (err e) out s h done = cc
  attach_lem id (ok answer) out s h done =
      let p = set_target_binding b.service id answer.0 s in
      finish_lem id answer p.0 out p.1
        (((set_target_binding-Evolves b.service laws id answer.0).at s).evolve h).0
        (λ q bound.
          let (well, held, attached) = bound_row b.service laws id answer.0 q s h bound in
          (held, attached))
        done

  -- The walk of `advanceTo` and what follows it.
  walk :
      (id : String) (to : MigrationState) (f : Unit {0} → Action Error S ProvisionResult)
      (out : ProvisionResult) (s : S)
      → IsWell s
      → ((u : Unit {0}) (t : S)
          → IsWell t
          → (f u t).0 ≡ ok out
          → IsProvisioned id out (view (f u t).1))
      → let p = advance_to b.service id to s in
        (resume p.0 f p.1).0 ≡ ok out → IsProvisioned id out (view (resume p.0 f p.1).1)
  walk id to f out s h next done =
      let p = advance_to b.service id to s in
      let (u, walked, rest, same) = resume-ok p f out done in
      subst (λ x. IsProvisioned id out (view x.1)) (sym same)
        (next u p.1 (((advance_to-Evolves b.service laws id to).at s).evolve h).0 rest)

  execute_lem :
      (id : String) (out : ProvisionResult) (s : S)
      → IsWell s
      → (execute b parse_address id s).0 ≡ ok out
      → IsProvisioned id out (view (execute b parse_address id s).1)
  unfolding execute
  execute_lem id out s h done =
      walk id validated _ out s h
        (λ _ t ht. walk id ready _ out t ht (λ _ u hu.
          walk id provisioning _ out u hu (λ _ v hv done'.
            let g = b.service.store.get id v in
            let (r, read, rest, same) = resume-ok g _ out done' in
            let q = provision_target b parse_address r g.1 in
            let well =
              ((target-Quiet b laws leaves parse_address r g.1).quiet (laws.get_well id v hv)).0 in
            subst (λ x. IsProvisioned id out (view x.1)) (sym same)
              (attach_lem id q.0 out q.1 well rest))))
        done

  -- The two ways in which it can succeed, after the row has been read.
  abbrev pub Outcomes : String → Row → ProvisionResult → View → View → Type 0
  Outcomes id r out v w =
      ((is_done r.migration_state ≡ true)
        × (w ≡ v)
        × (out.row ≡ r)
        × (out.already_provisioned ≡ true))
      ⊎ ((is_done r.migration_state ≡ false) × IsProvisioned id out w × Follows r out.row)

  -- How a call of `Provision` that succeeds has ended, from the ledger `v` to `w`.
  pub record Succeeded (id : String) (out : ProvisionResult) (v w : View) : Type 0 where
    pub old : Row
    pub held : v id ≡ some old
    pub admitted : check_class old.identity_class ≡ ok tt
    pub done : Outcomes id old out v w

  -- The row that is found afterwards follows the one that was stored.
  follows :
      (id : String) (r : Row) (out : ProvisionResult) (s : S)
      → IsWell s
      → view s id ≡ some r
      → IsProvisioned id out (view (provision b parse_address id s).1)
      → Follows r out.row
  follows id r out s h held made =
      let key = (laws.stored s h id r held).0 in
      let steps = (((provision-Evolves b laws leaves parse_address id).at s).evolve h).1 in
      let d = row_never_lost _ r (ap (view s) key ∙ held) steps in
      let same : d.row ≡ out.row =
        cc (sym d.found ∙ (ap (view (provision b parse_address id s).1) key ∙ made.found)) in
      subst (Follows r) same d.related

  branches :
      (id : String) (r : Row) (out : ProvisionResult) (v : View) (t : S)
      → IsWell t
      → view t ≡ v
      → let rest =
          if is_done r.migration_state then pure (returned r) else execute b parse_address id in
        (IsProvisioned id out (view (rest t).1) → Follows r out.row)
        → (rest t).0 ≡ ok out
        → Outcomes id r out v (view (rest t).1)
  branches id r out v t h same fol done = elim (Bool-cases (is_done r.migration_state)) [
    | inl past ↦ let done' = rw past at done in rw past (inl (refl, same, cc, cc))
    | inr before ↦
        let done' = rw before at done in
        let made = execute_lem id out t h done' in
        rw before (inr (refl, made, (rw before at fol) made))
  ]

  -- When `Provision` succeeds on a well-formed store, the row was stored and its class is not refused,
  -- and either it was past the provisioning, and it is returned as it is with the ledger as it was, or
  -- the row that is returned is stored under the id, is PROVISIONED, tells of the same identity and has
  -- the trimmed provider subject of the result as its target's subject. The provider and the source of
  -- traits write nothing to the ledger.
  pub provision_succeeds :
      (id : String) (out : ProvisionResult) (s : S)
      → IsWell s
      → (provision b parse_address id s).0 ≡ ok out
      → Succeeded id out (view s) (view (provision b parse_address id s).1)
  unfolding provision
  provision_succeeds id out s h done =
      let g = b.service.store.get id s in
      let (r, read, rest, same) = resume-ok g _ out done in
      let held = laws.get_ok id s r h read in
      let p : Result Error (Unit {0}) × S = (check_class r.identity_class, g.1) in
      let (u, admitted, rest', same') = resume-ok p _ out rest in
      let whole = same ∙ same' in
      record {
        old = r;
        held = held;
        admitted = cc;
        done =
            subst (λ x. Outcomes id r out (view s) (view x.1)) (sym whole)
              (branches id r out (view s) g.1 (laws.get_well id s h) (laws.get_view id s h)
                (λ made.
                  follows id r out s h held
                    (subst (λ x. IsProvisioned id out (view x.1)) (sym whole) made))
                rest');
      }
