-- ===== src/Migration/Batch/Laws.antt =====
-- internal/migration/batch.go: what a batch does to the rows of the ledger.
use baobab_iam.Base.{
  ℕ, String, Option, none, some, List, ◌≡◌, refl, sym, ap, ◌∙◌, inl, inr, eq_iff, arith,
  Option-cases,
}
use baobab_iam.Result.{Result, ok, err, Result-cases}
use baobab_iam.Action.{Action, resume}
use baobab_iam.Action.Along.{IsPreorder, Along}
use baobab_iam.Migration.Errors.{Error}
use baobab_iam.Migration.Types.{Row, ProviderBinding, MigrationState-discrete, discovered}
use baobab_iam.Migration.Validate.{validate_structural}
use baobab_iam.Migration.Store.{View, Written, IsLawful}
use baobab_iam.Migration.Service.{
  Service, effective_policy, register, with_defaults, must_be_absent,
}
use baobab_iam.Migration.Ledger.{Reach, here}
use baobab_iam.Migration.Ledger.Refines.{
  must_be_absent_lem, ServiceEvolves, Evolves-order, get-Evolves, register-Evolves, IsReached,
}
use mathlib.Core.Path.{subst}
use baobab_iam.Migration.Discovery.{SourceBinding, DiscoveryPort, CanonicalResolver}
use baobab_iam.Migration.Batch.Request.{BatchRegisterRequest}
use baobab_iam.Migration.Batch.{register_batch, batch_row}
use baobab_iam.Migration.Batch.Steps.{batch-Along}

-- A row as a batch registers it.
pub record IsFresh (r : Row) : Type 0 where
  pub state : r.migration_state ≡ discovered

-- `w` holds every row of `v` as it was, and what it holds besides is fresh.
pub record IsExtended (v w : View) : Type 0 where
  pub kept : (j : String) (r : Row) → v j ≡ some r → w j ≡ some r
  pub fresh : (j : String) (r : Row) → v j ≡ none → w j ≡ some r → IsFresh r

IsExtended-refl : (v : View) → IsExtended v v
IsExtended-refl v = record { kept = λ j r h. h; fresh = λ j r h e. cc }

IsExtended-trans : (v w u : View) → IsExtended v w → IsExtended w u → IsExtended v u
IsExtended-trans v w u p q = record {
  kept = λ j r h. q.kept j r (p.kept j r h);
  fresh = λ j r h e. elim (Option-cases (w j)) [
    | inl missing ↦ q.fresh j r missing e
    | inr (r', found) ↦
        let again : u j ≡ some r' = q.kept j r' found in
        let same : r ≡ r' = cc (again, e) in
        record { state = ap (λ x. x.migration_state) same ∙ (p.fresh j r' h found).state }
  ];
}

-- A write under an id that was free.
Written-IsExtended :
    (v w : View) (r : Row) → Written v r w → v r.migration_id ≡ none → IsFresh r → IsExtended v w
Written-IsExtended v w r put free new = record {
  kept = λ j q h. ground (arith, put j, eq_iff j r.migration_id);
  fresh = λ j q h e. record { state = ground (arith, put j, new.state) };
}

with_defaults_lem :
    (n : ℕ) (r : Row)
    → r.migration_state ≡ discovered
    → ((with_defaults n r).migration_state ≡ discovered)
unfolding with_defaults MigrationState-discrete
with_defaults_lem n r h = ground arith

module _ {S : Type 0} (svc : Service S) (laws : IsLawful svc.store) where
  open laws use {view, IsWell}

  -- The call writes nothing to the ledger.
  abbrev pub LeavesStore : {A : Type 0} → Action Error S A → Type 0
  LeavesStore m = (s : S) → IsWell s → IsWell (m s).1 × (view (m s).1 ≡ view s)

  quiet-Evolves :
      {A : Type 0} (m : Action Error S A) → LeavesStore m → Along (ServiceEvolves svc laws) m
  quiet-Evolves m quiet = record {
    at = λ s. record {
      evolve = λ h.
          let (well, same) = quiet s h in
          (well, subst (Reach (effective_policy svc.policy) (view s)) (sym same) here);
    };
  }

  record Extends (s s' : S) : Type 0 where
    extend : IsWell s → IsWell s' × IsExtended (view s) (view s')

  Extends-order : IsPreorder Extends
  Extends-order = record {
    same = λ s. record { extend = λ h. (h, IsExtended-refl (view s)) };
    trans = λ s t u p q. record {
      extend = λ h.
          let (well, first) = p.extend h in
          let (well', rest) = q.extend well in
          (well', IsExtended-trans (view s) (view t) (view u) first rest);
    };
  }

  quiet-Extends : {A : Type 0} (m : Action Error S A) → LeavesStore m → Along Extends m
  quiet-Extends m quiet = record {
    at = λ s. record {
      extend = λ h. let (well, same) = quiet s h in (well, rw same (IsExtended-refl (view s)));
    };
  }

  get-Extends : (id : String) → Along Extends (svc.store.get id)
  get-Extends id =
      quiet-Extends (svc.store.get id) λ s h. (laws.get_well id s h, laws.get_view id s h)

  put-Extends :
      (r : Row) (s : S)
      → (IsWell s → view s r.migration_id ≡ none)
      → r.migration_state ≡ discovered
      → Extends s (svc.store.put r s).1
  put-Extends r s free new = record {
    extend = λ h. elim (Result-cases (svc.store.put r s).0) [
      | inr (e, failed) ↦
          (laws.put_well r s h, rw (laws.put_err r s e h failed) (IsExtended-refl (view s)))
      | inl (r', done) ↦
          let same = laws.put_row r s r' h done in
          let key : r'.migration_id ≡ r.migration_id = ap (λ x. x.migration_id) same in
          (
            laws.put_well r s h,
            Written-IsExtended (view s) _ r' (laws.put_ok r s r' h done) (ap (view s) key ∙ free h)
                (record { state = ap (λ x. x.migration_state) same ∙ new }),
          )
    ];
  }

  lift_then :
      {A B : Type 0} (c : Result Error A) (f : A → Action Error S B) (s : S)
      → ((a : A) → c ≡ ok a → Extends s (f a s).1)
      → Extends s (resume c f s).1
  lift_then (ok a) f s h = h a refl
  lift_then (err e) f s h = Extends-order.same s

  register-Extends :
      (row : Row) → row.migration_state ≡ discovered → Along Extends (register svc row)
  unfolding register
  register-Extends row new = record {
    at = λ s.
        let r = with_defaults (svc.now s) row in
        let g = svc.store.get r.migration_id s in
        lift_then (validate_structural r) _ s λ u passes. record {
          extend = λ h.
              let rest =
                lift_then (must_be_absent g.0) (λ _. svc.store.put r) g.1
                  λ v absent_row.
                    let (e, failed, missing) = must_be_absent_lem g.0 v absent_row in
                    let same = laws.get_view r.migration_id s h in
                    put-Extends r g.1
                      (λ _.
                        ap (λ w. w r.migration_id) same
                        ∙ laws.get_missing r.migration_id s e h failed missing)
                      (with_defaults_lem (svc.now s) row new) in
              (Extends-order.trans s g.1 _ ((get-Extends r.migration_id).at s) rest).extend h;
        };
  }

  batch_row_state :
      (req : BatchRegisterRequest) (id : String) (b : SourceBinding) (canonical : Option String)
      → (batch_row req id b canonical).migration_state ≡ discovered
  unfolding batch_row
  batch_row_state req id b canonical = refl

  module _ (resolve_canonical : CanonicalResolver S) (digest : List String → String)
      (list_source_bindings : DiscoveryPort S)
      (quiet : (source : ProviderBinding) → LeavesStore (resolve_canonical source))
      (still : (id : String) → LeavesStore (list_source_bindings id)) where
    batch-Extends :
        (raw : BatchRegisterRequest)
        → Along Extends (register_batch svc resolve_canonical digest list_source_bindings raw)
    batch-Extends raw =
        batch-Along svc resolve_canonical digest Extends-order get-Extends
          (λ source. quiet-Extends (resolve_canonical source) (quiet source))
          (λ req id b canonical.
            register-Extends (batch_row req id b canonical) (batch_row_state req id b canonical))
          list_source_bindings raw λ id. quiet-Extends (list_source_bindings id) (still id)

    batch-Evolves :
        (raw : BatchRegisterRequest)
        → Along
            (ServiceEvolves svc laws)
            (register_batch svc resolve_canonical digest list_source_bindings raw)
    batch-Evolves raw =
        batch-Along svc resolve_canonical digest (Evolves-order laws _) (get-Evolves laws _)
          (λ source. quiet-Evolves (resolve_canonical source) (quiet source))
          (λ req id b canonical. register-Evolves svc laws (batch_row req id b canonical))
          list_source_bindings raw λ id. quiet-Evolves (list_source_bindings id) (still id)

    -- However `RegisterBatch` ends on a well-formed store, also where it fails at a binding in the
    -- middle, it has led to a well-formed store along ledger steps, every row that was there is as it
    -- was, and every row that was not there is DISCOVERED, as long as discovery and the resolver write
    -- nothing to the ledger.
    pub batch_only_adds :
        (raw : BatchRegisterRequest) (s : S)
        → IsWell s
        → let t = (register_batch svc resolve_canonical digest list_source_bindings raw s).1 in
          IsReached svc laws s t × IsExtended (view s) (view t)
    batch_only_adds raw s h =
        (((batch-Evolves raw).at s).evolve h, (((batch-Extends raw).at s).extend h).1)
