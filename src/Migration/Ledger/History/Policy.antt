-- ===== src/Migration/Ledger/History/Policy.antt =====
-- What the policy gate and the orphan rule keep out, over any sequence of ledger steps.
use baobab_iam.Base.{String, some, ◌≡◌, refl, ◌≢◌, arith, true, ◌⊎◌, inl, inr}
use baobab_iam.Result.{ok}
use baobab_iam.Migration.Types.{
  Row, MigrationState, discovered, cutover, legacy_retired, orphan_candidate,
}
use baobab_iam.Migration.State.{is_parking}
use baobab_iam.Migration.State.Laws.{IsResolved}
use baobab_iam.Migration.Store.{View}
use baobab_iam.Migration.Service.{phase_c_policy_gate, PolicyGate}
use baobab_iam.Migration.Ledger.{Reach}
use baobab_iam.Migration.Ledger.History.{Respects, Reach-Descends}
use baobab_iam.Migration.Ledger.History.Identity.{advance_keeps, bind_keeps, mark_keeps}

-- Before the issuer cutover.
abbrev pub IsBeforeCutover : Row → Type 0
IsBeforeCutover r = (r.migration_state ≢ cutover) × (r.migration_state ≢ legacy_retired)

pub record StaysBefore (r r' : Row) : Type 0 where
  pub same_id : r'.migration_id ≡ r.migration_id
  pub before : IsBeforeCutover r → IsBeforeCutover r'

-- The default policy allows no other state than those before the cutover.
phase_c_allows :
    (id : String) (from to : MigrationState)
    → phase_c_policy_gate id from to ≡ ok tt
    → (to ≢ cutover) × (to ≢ legacy_retired)
unfolding phase_c_policy_gate
phase_c_allows id from to h = ground arith

StaysBefore-Respects : Respects phase_c_policy_gate StaysBefore
StaysBefore-Respects = record {
  stays = λ r. ground arith;
  chain = λ r s t p q. record {
    same_id = cc (p.same_id, q.same_id);
    before = λ h. q.before (p.before h);
  };
  same_id = λ r r' p. p.same_id;
  on_advance = λ r r' n to edge allowed resolved e.
      let (same, moved) = advance_keeps n to r r' e in
      record { same_id = same.same_id; before = λ h. rw moved (phase_c_allows _ _ to allowed) };
  on_bind = λ r r' t e.
      let (same, stayed) = bind_keeps t r r' e in
      record { same_id = same.same_id; before = λ h. rw stayed h };
  on_mark = λ r r' code e.
      let (same, stayed) = mark_keeps code r r' e in
      record { same_id = same.same_id; before = λ h. rw stayed h };
}

-- Under the default policy no sequence of ledger steps takes a row that is before the cutover to
-- CUTOVER or LEGACY_RETIRED.
pub phase_c_no_cutover :
    {v w : View} (r : Row)
    → v r.migration_id ≡ some r
    → IsBeforeCutover r
    → Reach phase_c_policy_gate v w
    → (r' : Row) × (w r.migration_id ≡ some r') × IsBeforeCutover r'
phase_c_no_cutover r held before p =
    let d = Reach-Descends StaysBefore-Respects r held p in
    (d.row, d.found, d.related.before before)

-- An orphan that has not been resolved: it was never taken into execution.
abbrev pub IsParked : MigrationState → Type 0
IsParked s = (s ≡ discovered) ⊎ (is_parking s ≡ true)

pub record StaysOrphan (r r' : Row) : Type 0 where
  pub same_id : r'.migration_id ≡ r.migration_id
  pub same_class : r'.identity_class ≡ r.identity_class
  pub parked :
      r.identity_class ≡ orphan_candidate → IsParked r.migration_state → IsParked r'.migration_state

only_parking :
    (r : Row) (to : MigrationState)
    → IsResolved r ⊎ (is_parking to ≡ true)
    → r.identity_class ≡ orphan_candidate
    → IsParked to
only_parking r to (inl resolved) o = absurd (resolved.0 o)
only_parking r to (inr parking) o = inr parking

StaysOrphan-Respects : (gate : PolicyGate) → Respects gate StaysOrphan
StaysOrphan-Respects gate = record {
  stays = λ r. record { same_id = refl; same_class = refl; parked = λ o h. h };
  chain = λ r s t p q. record {
    same_id = cc (p.same_id, q.same_id);
    same_class = cc (p.same_class, q.same_class);
    parked = λ o h. q.parked (cc (p.same_class)) (p.parked o h);
  };
  same_id = λ r r' p. p.same_id;
  on_advance = λ r r' n to edge allowed resolved e.
      let (same, moved) = advance_keeps n to r r' e in
      record {
        same_id = same.same_id;
        same_class = same.same_class;
        parked = λ o h. rw moved (only_parking r to resolved o);
      };
  on_bind = λ r r' t e.
      let (same, stayed) = bind_keeps t r r' e in
      record { same_id = same.same_id; same_class = same.same_class; parked = λ o h. rw stayed h };
  on_mark = λ r r' code e.
      let (same, stayed) = mark_keeps code r r' e in
      record { same_id = same.same_id; same_class = same.same_class; parked = λ o h. rw stayed h };
}

-- Under any policy an orphan candidate that has not been taken into execution never is: it stays in
-- DISCOVERED, BLOCKED, FAILED_MANUAL_REVIEW or QUARANTINED, and stays an orphan candidate.
pub orphan_never_executes :
    (gate : PolicyGate) {v w : View} (r : Row)
    → v r.migration_id ≡ some r
    → r.identity_class ≡ orphan_candidate
    → IsParked r.migration_state
    → Reach gate v w
    → (r' : Row) × (w r.migration_id ≡ some r')
      × (r'.identity_class ≡ orphan_candidate)
      × IsParked r'.migration_state
orphan_never_executes gate r held orphan parked p =
    let d = Reach-Descends (StaysOrphan-Respects gate) r held p in
    (d.row, d.found, cc (d.related.same_class), d.related.parked orphan parked)
