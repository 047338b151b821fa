-- ===== src/Migration/Ledger/Refines.antt =====
-- internal/migration/service.go: the operations of the service over a lawful store, as steps of the
-- ledger.
use baobab_iam.Base.{ℕ, String, true, none, some, ◌≡◌, refl, sym, ◌∙◌, ap, inl, inr, eq_refl, arith}
use mathlib.Core.Path.{subst}
use baobab_iam.Result.{Result, ok, err, Result-cases}
use baobab_iam.Action.{Action, resume}
use baobab_iam.Action.Along.{IsPreorder, Along}
use baobab_iam.Migration.Errors.{Error, is_not_found}
use baobab_iam.Migration.Types.{Row, MigrationState, ProviderBinding}
use baobab_iam.Migration.Validate.{validate_structural}
use baobab_iam.Migration.State.{transition}
use baobab_iam.Migration.Store.{RecordStore, View, Written, IsLawful}
use baobab_iam.Migration.Service.{
  Service, PolicyGate, effective_policy, stamp, must_be_absent, with_defaults, moved_row, trimmed,
  must_be_complete, register, apply_transition, set_target_binding,
}
use baobab_iam.Migration.Service.Effect.{moved_of_transition}
use baobab_iam.Migration.Ledger.{Step, appear, advance, bind_target, Reach, here, next, Reach-trans}

module _ {S : Type 0} {st : RecordStore S} (laws : IsLawful st) (gate : PolicyGate) where
  open laws use {view, IsWell}

  -- From a well-formed store the call leads to a well-formed store, along steps of the ledger.
  pub record Evolves (s s' : S) : Type 0 where
    pub evolve : IsWell s → IsWell s' × Reach gate (view s) (view s')

  pub Evolves-order : IsPreorder Evolves
  Evolves-order = record {
    same = λ s. record { evolve = λ h. (h, here) };
    trans = λ s t u p q. record {
      evolve = λ h. let a = p.evolve h in let b = q.evolve a.0 in (b.0, Reach-trans a.1 b.1);
    };
  }

  pub get-Evolves : (id : String) → Along Evolves (st.get id)
  get-Evolves id = record {
    at = λ s. record {
      evolve = λ h.
          (laws.get_well id s h, subst (Reach gate (view s)) (sym (laws.get_view id s h)) here);
    };
  }

  -- What follows a read may use what was read.
  pub get-resume-Evolves :
      {B : Type 0} (id : String) (f : Row → Action Error S B) (s : S)
      → ((t : S) (r : Row)
          → IsWell t
          → r.migration_id ≡ id
          → view t r.migration_id ≡ some r
          → Evolves t (f r t).1)
      → Evolves s (resume (st.get id s).0 f (st.get id s).1).1
  get-resume-Evolves id f s h = elim (Result-cases (st.get id s).0) [
    | inr (e, failed) ↦ rw failed ((get-Evolves id).at s)
    | inl (r, found) ↦ rw found (record {
      evolve = λ ok_s.
          let t = (st.get id s).1 in
          let ok_t = laws.get_well id s ok_s in
          let same = laws.get_view id s ok_s in
          let here_t = ap (λ v. v id) same ∙ laws.get_ok id s r ok_s found in
          let key = (laws.stored t ok_t id r here_t).0 in
          let rest = (h t r ok_t key (ap (view t) key ∙ here_t)).evolve ok_t in
          (rest.0, subst (λ v. Reach gate v (view (f r t).1)) same rest.1);
    })
  ]

  -- What follows a check may use that it passed.
  pub lift-resume-Evolves :
      {A B : Type 0} (r : Result Error A) (f : A → Action Error S B) (s : S)
      → ((a : A) → r ≡ ok a → Evolves s (f a s).1)
      → Evolves s (resume r f s).1
  lift-resume-Evolves (ok a) f s h = h a refl
  lift-resume-Evolves (err e) f s h = Evolves-order.same s

  -- A write is a step of the ledger if it is one whenever it succeeds.
  pub put-Evolves :
      (r : Row) (s : S)
      → ((r' : Row) (w : View)
          → r' ≡ record r { revision = r'.revision }
          → validate_structural r' ≡ ok tt
          → Written (view s) r' w
          → Step gate (view s) w)
      → Evolves s (st.put r s).1
  put-Evolves r s step = record {
    evolve = λ ok_s.
        let t = (st.put r s).1 in
        let ok_t = laws.put_well r s ok_s in
        elim (Result-cases (st.put r s).0) [
          | inr (e, failed) ↦
              (ok_t, subst (Reach gate (view s)) (sym (laws.put_err r s e ok_s failed)) here)
          | inl (r', done) ↦
              let put = laws.put_ok r s r' ok_s done in
              let key = put r'.migration_id ∙ rw (eq_refl r'.migration_id) in
              let passes = (laws.stored t ok_t r'.migration_id r' key).1 in
              (ok_t, next here (step r' (view t) (laws.put_row r s r' ok_s done) passes put))
        ];
  }

pub must_be_absent_lem :
    (found : Result Error Row) (u : Unit {0})
    → must_be_absent found ≡ ok u
    → (e : Error) × (found ≡ err e) × (is_not_found e ≡ true)
must_be_absent_lem (ok r) u h = cc
must_be_absent_lem (err e) u h = (e, refl, ground arith)

module _ {S : Type 0} (svc : Service S) (laws : IsLawful svc.store) where
  open laws use {view, IsWell}

  abbrev pub ServiceEvolves : S → S → Type 0
  ServiceEvolves = Evolves laws (effective_policy svc.policy)

  -- The write of `ApplyTransition` is a step of the ledger.
  put_moved :
      (to : MigrationState) (r moved : Row) (s : S) (n : ℕ)
      → view s r.migration_id ≡ some r
      → effective_policy svc.policy r.migration_id r.migration_state to ≡ ok tt
      → moved_row (transition to r) ≡ ok moved
      → ServiceEvolves s (svc.store.put (stamp n to moved) s).1
  put_moved to r moved s n held allowed done =
      let (edge, resolved, p) = moved_of_transition to r moved done in
      put-Evolves laws _ (stamp n to moved) s
        λ r' w e passes put. advance r r' n to held edge allowed resolved (rw p at e) passes put

  pub apply_transition-Evolves :
      (id : String) (to : MigrationState) → Along ServiceEvolves (apply_transition svc id to)
  unfolding apply_transition
  apply_transition-Evolves id to = record {
    at = λ s. get-resume-Evolves laws _ id _ s λ t r ok_t key held.
        lift-resume-Evolves laws _ (effective_policy svc.policy id r.migration_state to) _ t
          λ u allowed.
            lift-resume-Evolves laws _ (moved_row (transition to r)) _ t
              λ moved done. put_moved to r moved t _ held (rw key allowed) done;
  }

  pub set_target_binding-Evolves :
      (id : String) (raw : ProviderBinding) → Along ServiceEvolves (set_target_binding svc id raw)
  unfolding set_target_binding
  set_target_binding-Evolves id raw = record {
    at = λ s. lift-resume-Evolves laws _ (must_be_complete (trimmed raw)) _ s λ u complete.
        get-resume-Evolves laws _ id _ s λ t r ok_t key held.
          lift-resume-Evolves laws _ (validate_structural (record r { target = trimmed raw })) _ t
            λ v valid.
              put-Evolves laws _ (record r { target = trimmed raw }) t
                λ r' w e passes put. bind_target r r' (trimmed raw) held e passes put;
  }

  -- The write of `Register` makes a row appear that was not there.
  put_new :
      (r : Row) (s : S) (u : Unit {0})
      → IsWell s
      → must_be_absent (svc.store.get r.migration_id s).0 ≡ ok u
      → let t = (svc.store.get r.migration_id s).1 in ServiceEvolves t (svc.store.put r t).1
  put_new r s u ok_s absent_row =
      let (e, failed, missing) = must_be_absent_lem _ u absent_row in
      let id = r.migration_id in
      let t = (svc.store.get id s).1 in
      let nothing : view t id ≡ none =
        ap (λ v. v id) (laws.get_view id s ok_s) ∙ laws.get_missing id s e ok_s failed missing in
      put-Evolves laws _ r t λ r' w same passes put.
        let key : r'.migration_id ≡ id = ap (λ x. x.migration_id) same in
        appear r' (ap (view t) key ∙ nothing) passes put

  pub register-Evolves : (row : Row) → Along ServiceEvolves (register svc row)
  unfolding register
  register-Evolves row = record {
    at = λ s.
        let r = with_defaults (svc.now s) row in
        lift-resume-Evolves laws _ (validate_structural r) _ s λ u passes. record {
          evolve = λ ok_s.
              let t = (svc.store.get r.migration_id s).1 in
              let first = (get-Evolves laws (effective_policy svc.policy) r.migration_id).at s in
              let rest =
                lift-resume-Evolves laws (effective_policy svc.policy)
                  (must_be_absent (svc.store.get r.migration_id s).0) (λ _. svc.store.put r) t
                  λ v absent_row. put_new r s v ok_s absent_row in
              ((Evolves-order laws _).trans s t _ first rest).evolve ok_s;
        };
  }

  -- A well-formed store, the content of which the ledger steps have led to.
  abbrev pub IsReached : S → S → Type 0
  IsReached s s' = IsWell s' × Reach (effective_policy svc.policy) (view s) (view s')

  -- From a well-formed store, `Register` and `SetTargetBinding` lead to a well-formed store along
  -- ledger steps under the policy of the service, whether they succeed or fail, for any row, id and
  -- target.
  pub service_refines :
      (row : Row) (id : String) (raw : ProviderBinding) (s : S)
      → IsWell s
      → IsReached s (register svc row s).1 × IsReached s (set_target_binding svc id raw s).1
  service_refines row id raw s h =
      (((register-Evolves row).at s).evolve h, ((set_target_binding-Evolves id raw).at s).evolve h)
