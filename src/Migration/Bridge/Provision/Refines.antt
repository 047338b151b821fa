-- ===== src/Migration/Bridge/Provision/Refines.antt =====
-- internal/migration/bridge.go: `advanceTo` and `fail`, as steps of the ledger.
use baobab_iam.Base.{
  ℕ, zero, suc, String, Bool, true, false, some, ◌≡◌, ap, ◌∙◌, inl, inr, ltb, leb, ◌||◌, Bool-cases,
  Option-cases, if◌then◌else◌,
}
use baobab_iam.Result.{Result, err, Result-cases}
use baobab_iam.Action.{Action, resume, pure}
use baobab_iam.Action.Along.{IsPreorder, Along}
use baobab_iam.Migration.Errors.{Error}
use baobab_iam.Migration.Types.{is_state, Row, MigrationState}
use baobab_iam.Migration.State.{can_transition}
use baobab_iam.Migration.Store.{IsLawful}
use baobab_iam.Migration.Service.{Service, effective_policy, apply_transition}
use baobab_iam.Migration.Service.Effect.{Ends-err, Advanced, apply_transition-Ends}
use baobab_iam.Migration.Ledger.{mark}
use baobab_iam.Migration.Ledger.Refines.{
  Evolves-order, get-Evolves, get-resume-Evolves, lift-resume-Evolves, put-Evolves, ServiceEvolves,
  apply_transition-Evolves,
}
use baobab_iam.Migration.Bridge.Advance.{state_order, next_happy, advance_loop, advance_to}
use baobab_iam.Migration.Bridge.Failing.{fail, failure_state}

module _ {S : Type 0} (svc : Service S) (laws : IsLawful svc.store) where
  open laws use {view, IsWell}

  abbrev pub R : S → S → Type 0
  R = ServiceEvolves svc laws

  pub order : IsPreorder R
  order = Evolves-order laws (effective_policy svc.policy)

  -- What follows a call, where the call and what follows both evolve.
  pub then_Evolves :
      {A B : Type 0} (p : Result Error A × S) (f : A → Action Error S B) (s : S)
      → R s p.1
      → ((a : A) (t : S) → R t (f a t).1)
      → R s (resume p.0 f p.1).1
  then_Evolves p f s hp hf =
      order.trans s p.1 _ hp (lift-resume-Evolves laws _ p.0 f p.1 λ a e. hf a p.1)

  pub if_Evolves :
      {A : Type 0} (b : Bool) (m n : Action Error S A) (s : S)
      → R s (m s).1
      → R s (n s).1
      → R s ((if b then m else n) s).1
  if_Evolves true m n s hm hn = hm
  if_Evolves false m n s hm hn = hn

  loop-Evolves :
      (fuel : ℕ) (id : String) (to : MigrationState) (r : Row) (s : S)
      → R s (advance_loop svc fuel id to r s).1
  unfolding advance_loop
  loop-Evolves zero id to r s =
      elim (Bool-cases (ltb (state_order r.migration_state) (state_order to))) [
        | inl go ↦ rw go (order.same s)
        | inr stop ↦ rw stop (order.same s)
      ]
  loop-Evolves (suc fuel) id to r s =
      elim (Bool-cases (ltb (state_order r.migration_state) (state_order to))) [
        | inr stop ↦ rw stop (order.same s)
        | inl go ↦ elim (Option-cases (next_happy r.migration_state)) [
          | inl e ↦ rw (go, e) (order.same s)
          | inr (t, e) ↦
              rw (go, e)
                (then_Evolves (apply_transition svc id t s) _ s
                  ((apply_transition-Evolves svc laws id t).at s)
                  λ out u. loop-Evolves fuel id to out u)
        ]
      ]

  pub advance_to-Evolves : (id : String) (to : MigrationState) → Along R (advance_to svc id to)
  unfolding advance_to
  advance_to-Evolves id to = record {
    at = λ s. then_Evolves (svc.store.get id s) _ s ((get-Evolves laws _ id).at s) λ r t.
        if_Evolves
          (is_state r.migration_state to || leb (state_order to) (state_order r.migration_state))
          (pure tt) (advance_loop svc 5 id to r) t (order.same t) (loop-Evolves 5 id to r t);
  }

  -- The code is written on the row that is stored.
  mark-Evolves :
      (code : String) (r : Row) (s : S)
      → (IsWell s → view s r.migration_id ≡ some r)
      → R s (svc.store.put (record r { last_error_code = code }) s).1
  mark-Evolves code r s held = record {
    evolve = λ h.
        (put-Evolves laws _ (record r { last_error_code = code }) s
            λ r' w e passes put. mark r r' code (held h) e passes put).evolve
          h;
  }

  -- The code on the row as it is now.
  record_code-Evolves :
      (id code : String) (s : S)
      → R s
          (resume
            (svc.store.get id s).0
            (λ r t.
              resume
                (svc.store.put (record r { last_error_code = code }) t).0
                (λ _. pure tt)
                (svc.store.put (record r { last_error_code = code }) t).1)
            (svc.store.get id s).1).1
  record_code-Evolves id code s = get-resume-Evolves laws _ id _ s λ t r ok_t key held.
      then_Evolves (svc.store.put (record r { last_error_code = code }) t) _ t
        (mark-Evolves code r t (λ _. held)) λ a u. order.same u

  -- The code on the row as it was read, where the move has failed and so changed nothing.
  stale_code-Evolves :
      (id code : String) (to : MigrationState) (r : Row) (e : Error) (s : S)
      → IsWell s
      → view s r.migration_id ≡ some r
      → (apply_transition svc id to s).0 ≡ err e
      → let t = (apply_transition svc id to s).1 in
        R t (svc.store.put (record r { last_error_code = code }) t).1
  stale_code-Evolves id code to r e s h held failed =
      let p = apply_transition svc id to s in
      let (well, same) =
        Ends-err svc laws (Advanced svc laws id to (view s)) (view s) p e
          (apply_transition-Ends svc laws id to s h) failed in
      mark-Evolves code r p.1 (λ _. ap (λ v. v r.migration_id) same ∙ held)

  pub fail-Evolves : (id code : String) → Along R (fail svc id code)
  unfolding fail
  fail-Evolves id code = record {
    at = λ s. get-resume-Evolves laws _ id _ s λ t r ok_t key held.
        let to = failure_state r.migration_state in
        elim (Bool-cases (can_transition r.migration_state to)) [
          | inr stuck ↦ rw stuck (record_code-Evolves id code t)
          | inl can ↦
              let p = apply_transition svc id to t in
              let first = (apply_transition-Evolves svc laws id to).at t in
              rw can (elim (Result-cases p.0) [
                | inl (out, done) ↦
                    rw done (order.trans t p.1 _ first (record_code-Evolves id code p.1))
                | inr (e, failed) ↦ rw failed (
                    order.trans t p.1 _ first
                      (stale_code-Evolves id code to r e t ok_t held failed))
              ])
        ];
  }
