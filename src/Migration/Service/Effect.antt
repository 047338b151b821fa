-- ===== src/Migration/Service/Effect.antt =====
-- internal/migration/service.go: what each operation of the service does over a lawful store, on
-- success and on failure.
use baobab_iam.Base.{ℕ, String, true, some, ◌≡◌, refl, sym, ◌∙◌, ap, ◌⊎◌, inl, inr}
use mathlib.Core.Path.{subst}
use baobab_iam.Result.{Result, ok, err}
use baobab_iam.Action.{Action, resume}
use baobab_iam.Migration.Errors.{Error}
use baobab_iam.Migration.Types.{Row, MigrationState, ProviderBinding}
use baobab_iam.Migration.Validate.{validate_structural}
use baobab_iam.Migration.State.{can_transition, transition, count_attempt, is_parking}
use baobab_iam.Migration.State.Laws.{IsResolved, transition_iff, transition-count_attempt}
use baobab_iam.Migration.Store.{View, Written, IsLawful}
use baobab_iam.Migration.Service.{
  Service, effective_policy, stamp, moved_row, trimmed, must_be_complete, apply_transition,
  set_target_binding,
}

moved_row-eq_ok :
    (p : Result Error (Unit {0}) × Row) (moved : Row)
    → moved_row p ≡ ok moved
    → (p.0 ≡ ok tt) × (moved ≡ p.1)
moved_row-eq_ok (ok u, r) moved h = (refl, cc)
moved_row-eq_ok (err e, r) moved h = cc

-- What a successful `Transition` has done.
pub moved_of_transition :
    (to : MigrationState) (r moved : Row)
    → moved_row (transition to r) ≡ ok moved
    → (can_transition r.migration_state to ≡ true)
      × (IsResolved r ⊎ (is_parking to ≡ true))
      × (moved ≡ count_attempt to (record r { migration_state = to }))
moved_of_transition to r moved h =
    let (done, same) = moved_row-eq_ok (transition to r) moved h in
    let (edge, resolved, passes) = (transition_iff to r).0 done in
    elim (transition-count_attempt to r) [
      | inl (_, effect) ↦ (edge, resolved, same ∙ effect)
      | inr (e, failed, kept) ↦ cc
    ]

-- The row after a transition at time `n`, but for its revision.
abbrev pub advanced : ℕ → MigrationState → Row → Row
advanced n to r = stamp n to (count_attempt to (record r { migration_state = to }))

module _ {S : Type 0} (svc : Service S) (laws : IsLawful svc.store) where
  open laws use {view, IsWell}

  -- What a successful `Get` has read.
  pub record Read (id : String) (r : Row) (s : S) : Type 0 where
    pub well : IsWell s
    pub key : r.migration_id ≡ id
    pub held : view s r.migration_id ≡ some r

  pub get-Read :
      (id : String) (s : S) (r : Row)
      → IsWell s
      → (svc.store.get id s).0 ≡ ok r
      → Read id r (svc.store.get id s).1
  get-Read id s r h found =
      let t = (svc.store.get id s).1 in
      let ok_t = laws.get_well id s h in
      let here_t = ap (λ v. v id) (laws.get_view id s h) ∙ laws.get_ok id s r h found in
      let key = (laws.stored t ok_t id r here_t).0 in
      record { well = ok_t; key = key; held = ap (view t) key ∙ here_t }

  -- `ApplyTransition` from the ledger `v` to `w`, when it succeeds.
  pub record Advanced (id : String) (to : MigrationState) (v : View) (out : Row) (w : View)
      : Type 0 where
    pub old : Row
    pub time : ℕ
    pub key : old.migration_id ≡ id
    pub held : v id ≡ some old
    pub edge : can_transition old.migration_state to ≡ true
    pub allowed : effective_policy svc.policy id old.migration_state to ≡ ok tt
    pub resolved : IsResolved old ⊎ (is_parking to ≡ true)
    pub effect : out ≡ record (advanced time to old) { revision = out.revision }
    pub written : Written v out w

  -- How a call that changes the ledger has ended.
  abbrev pub Ends : {A : Type 0} → (A → View → Type 0) → View → Result Error A × S → Type 0
  Ends P v (ok a, s') = IsWell s' × P a (view s')
  Ends P v (err e, s') = IsWell s' × (view s' ≡ v)

  -- To show how a call ends, by the two ways.
  pub Ends-of :
      {A : Type 0} (P : A → View → Type 0) (v : View) (p : Result Error A × S)
      → ((a : A) → p.0 ≡ ok a → IsWell p.1 × P a (view p.1))
      → ((e : Error) → p.0 ≡ err e → IsWell p.1 × (view p.1 ≡ v))
      → Ends P v p
  Ends-of P v (ok a, t) good bad = good a refl
  Ends-of P v (err e, t) good bad = bad e refl

  -- The two uses of how a call has ended.
  pub Ends-ok :
      {A : Type 0} (P : A → View → Type 0) (v : View) (p : Result Error A × S) (a : A)
      → Ends P v p
      → p.0 ≡ ok a
      → IsWell p.1 × P a (view p.1)
  Ends-ok P v (ok a', t) a h e = let q : a' ≡ a = cc in (h.0, subst (λ x. P x (view t)) q h.1)
  Ends-ok P v (err x, t) a h e = cc

  pub Ends-err :
      {A : Type 0} (P : A → View → Type 0) (v : View) (p : Result Error A × S) (e : Error)
      → Ends P v p
      → p.0 ≡ err e
      → IsWell p.1 × (view p.1 ≡ v)
  Ends-err P v (ok a', t) a h e = cc
  Ends-err P v (err x, t) a h e = h

  put-Ends :
      (r : Row) (s : S) (P : Row → View → Type 0)
      → IsWell s
      → ((out : Row) (w : View)
          → out ≡ record r { revision = out.revision }
          → Written (view s) out w
          → P out w)
      → Ends P (view s) (svc.store.put r s)
  put-Ends r s P h done =
      Ends-of P (view s) (svc.store.put r s)
        (λ out e.
          (laws.put_well r s h, done out _ (laws.put_row r s out h e) (laws.put_ok r s out h e)))
        (λ x e. (laws.put_well r s h, laws.put_err r s x h e))

  lift-Ends :
      {A B : Type 0} (P : B → View → Type 0) (c : Result Error A) (f : A → Action Error S B) (s : S)
      → IsWell s
      → ((a : A) → c ≡ ok a → Ends P (view s) (f a s))
      → Ends P (view s) (resume c f s)
  lift-Ends P (ok a) f s h next = next a refl
  lift-Ends P (err e) f s h next = (h, refl)

  resume-Ends :
      {A B : Type 0} (P : B → View → Type 0) (v : View) (p : Result Error A × S)
      (f : A → Action Error S B)
      → ((a : A) → p.0 ≡ ok a → Ends P v (f a p.1))
      → ((e : Error) → p.0 ≡ err e → IsWell p.1 × (view p.1 ≡ v))
      → Ends P v (resume p.0 f p.1)
  resume-Ends P v (ok a, t) f good bad = good a refl
  resume-Ends P v (err e, t) f good bad = bad e refl

  get-Ends :
      {B : Type 0} (P : B → View → Type 0) (id : String) (f : Row → Action Error S B) (s : S)
      → IsWell s
      → ((t : S) (r : Row) → Read id r t → view t ≡ view s → Ends P (view t) (f r t))
      → Ends P (view s) (resume (svc.store.get id s).0 f (svc.store.get id s).1)
  get-Ends P id f s h next =
      resume-Ends P (view s) (svc.store.get id s) f
        (λ r found.
          let t = (svc.store.get id s).1 in
          let same = laws.get_view id s h in
          subst (λ v. Ends P v (f r t)) same (next t r (get-Read id s r h found) same))
        (λ e failed. (laws.get_well id s h, laws.get_view id s h))

  -- On a well-formed store `ApplyTransition` succeeds with the stored row moved along a legal edge that
  -- the policy allows, resolved unless the edge parks it, stamped and counted, and with no other row
  -- changed, or it fails and leaves the ledger as it was; the store stays well formed.
  pub apply_transition-Ends :
      (id : String) (to : MigrationState) (s : S)
      → IsWell s
      → Ends (Advanced id to (view s)) (view s) (apply_transition svc id to s)
  unfolding apply_transition
  apply_transition-Ends id to s h = get-Ends (Advanced id to (view s)) id _ s h λ t r read same.
      let held : view s id ≡ some r =
        ap (λ v. v id) (sym same) ∙ (ap (view t) (sym read.key) ∙ read.held) in
      lift-Ends (Advanced id to (view s)) (effective_policy svc.policy id r.migration_state to) _ t
        read.well
        λ u allowed.
          lift-Ends (Advanced id to (view s)) (moved_row (transition to r)) _ t read.well
            λ moved done.
              let (edge, resolved, p) = moved_of_transition to r moved done in
              put-Ends (stamp (svc.now t) to moved) t (Advanced id to (view s)) read.well
                λ out w e written. record {
                  old = r;
                  time = svc.now t;
                  key = read.key;
                  held = held;
                  edge = edge;
                  allowed = allowed;
                  resolved = resolved;
                  effect = rw p at e;
                  written = rw same at written;
                }

  -- `SetTargetBinding` from the ledger `v` to `w`, when it succeeds.
  pub record Bound (id : String) (target : ProviderBinding) (v : View) (out : Row) (w : View)
      : Type 0 where
    pub old : Row
    pub key : old.migration_id ≡ id
    pub held : v id ≡ some old
    pub complete : must_be_complete target ≡ ok tt
    pub effect : out ≡ record old { revision = out.revision; target = target }
    pub written : Written v out w

  -- On a well-formed store `SetTargetBinding` succeeds with the trimmed, complete target on the stored
  -- row and nothing else changed, or it fails and leaves the ledger as it was; the store stays well
  -- formed.
  pub set_target_binding-Ends :
      (id : String) (raw : ProviderBinding) (s : S)
      → IsWell s
      → Ends (Bound id (trimmed raw) (view s)) (view s) (set_target_binding svc id raw s)
  unfolding set_target_binding
  set_target_binding-Ends id raw s h =
      lift-Ends (Bound id (trimmed raw) (view s)) (must_be_complete (trimmed raw)) _ s h
        λ u complete. get-Ends (Bound id (trimmed raw) (view s)) id _ s h λ t r read same.
          lift-Ends (Bound id (trimmed raw) (view s))
            (validate_structural (record r { target = trimmed raw })) _ t read.well
            λ v passes.
              put-Ends (record r { target = trimmed raw }) t (Bound id (trimmed raw) (view s))
                read.well
                λ out w e written. record {
                  old = r;
                  key = read.key;
                  held = ap (λ x. x id) (sym same) ∙ (ap (view t) (sym read.key) ∙ read.held);
                  complete = complete;
                  effect = e;
                  written = rw same at written;
                }
