-- ===== src/Migration/State/Graph.antt =====
-- internal/migration/state.go: paths through the diagram of `allowedTransitions`.
use baobab_iam.Base.{true, false, ◌≡◌, refl, ◌≢◌, ◌↔◌, ◌⊎◌, inl, inr, arith, sym, ap}
use mathlib.Core.Path.{subst}
use baobab_iam.Migration.Types.{
  MigrationState, MigrationState-discrete, discovered, validated, ready, provisioning, provisioned,
  credential_ready, verification_pending, verified, cutover_ready, cutover, legacy_retired, blocked,
  failed_retryable, failed_manual_review, rolled_back, quarantined, state_valid, target_optional,
}
use baobab_iam.Migration.State.{can_transition}

-- A run of the diagram from `s`, the last move outermost.
pub data Trail (s : MigrationState) : MigrationState → Type 0 where
  start : Trail s s
  move : {t u : MigrationState} → Trail s t → can_transition t u ≡ true → Trail s u

-- A trail passes through a state.
abbrev pub Visits : {s t : MigrationState} → MigrationState → Trail s t → Type 0
Visits {s} x start = x ≡ s
Visits x (move {u = u} p e) = (x ≡ u) ⊎ Visits x p

Visits-end : {s t : MigrationState} (p : Trail s t) → Visits t p
Visits-end start = refl
Visits-end (move p e) = inl refl

into_verified : (t : MigrationState) → can_transition t verified ≡ true → t ≡ verification_pending
unfolding can_transition MigrationState-discrete
into_verified t h = ground arith

into_cutover_ready : (t : MigrationState) → can_transition t cutover_ready ≡ true → t ≡ verified
unfolding can_transition MigrationState-discrete
into_cutover_ready t h = ground arith

into_cutover : (t : MigrationState) → can_transition t cutover ≡ true → t ≡ cutover_ready
unfolding can_transition MigrationState-discrete
into_cutover t h = ground arith

into_legacy_retired : (t : MigrationState) → can_transition t legacy_retired ≡ true → t ≡ cutover
unfolding can_transition MigrationState-discrete
into_legacy_retired t h = ground arith

-- The states from which a migration may still go on.
abbrev IsOpen : MigrationState → Type 0
IsOpen legacy_retired = ⊥
IsOpen (MigrationState.unlisted _) = ⊥
IsOpen _ = Unit

-- `x` is the only state with an edge into `y`.
abbrev OnlyInto : MigrationState → MigrationState → Type 0
OnlyInto x y = (t : MigrationState) → can_transition t y ≡ true → t ≡ x

Visits-before :
    (x y : MigrationState)
    → OnlyInto x y
    → {s t : MigrationState} → s ≢ y
    → (p : Trail s t) → Visits y p
    → Visits x p
Visits-before x y only ne start v = absurd (ne (sym v))
Visits-before x y only ne (move {t = t} p e) (inl here) =
    inr (subst (λ z. Visits z p) (only t (rw here e)) (Visits-end p))
Visits-before x y only ne (move p e) (inr v) = inr (Visits-before x y only ne p v)

-- A row that starts in a state without a target and passes CUTOVER has passed CUTOVER_READY,
-- VERIFIED and VERIFICATION_PENDING, whatever failures and recoveries lay between.
pub cutover_needs_verification :
    {s t : MigrationState}
    → target_optional s ≡ true
    → (p : Trail s t) → Visits cutover p
    → Visits cutover_ready p × Visits verified p × Visits verification_pending p
unfolding target_optional
cutover_needs_verification early p v =
    let approved = Visits-before cutover_ready cutover into_cutover (λ e. ground arith) p v in
    let checked =
      Visits-before verified cutover_ready into_cutover_ready (λ e. ground arith) p approved in
    (
      approved,
      checked,
      Visits-before verification_pending verified into_verified (λ e. ground arith) p checked,
    )

-- The emergency stop: QUARANTINED is one edge away from a state exactly when that is a listed state
-- other than LEGACY_RETIRED and QUARANTINED itself.
pub quarantine_everywhere :
    (s : MigrationState)
    → (can_transition s quarantined ≡ true)
      ↔ ((state_valid s ≡ true) × (s ≢ legacy_retired) × (s ≢ quarantined))
unfolding can_transition MigrationState-discrete state_valid
quarantine_everywhere s = ground arith

from_legacy_retired : (t : MigrationState) → can_transition legacy_retired t ≡ false
unfolding can_transition
from_legacy_retired t = refl

legacy_retired_stays : {t : MigrationState} → Trail legacy_retired t → t ≡ legacy_retired
legacy_retired_stays start = refl
legacy_retired_stays (move {u = u} p e) =
    cc (from_legacy_retired u, ap (λ s. can_transition s u) (legacy_retired_stays p), e)

via :
    {s t : MigrationState}
    → Trail s t
    → (u : MigrationState) → can_transition t u ≡ true
    → Trail s u
via p u e = move p e

-- The last stretch of the happy path.
complete : {s : MigrationState} → Trail s ready → Trail s legacy_retired
unfolding can_transition MigrationState-discrete
complete p =
    let made = via (via p provisioning refl) provisioned refl in
    let checked =
      via (via (via made credential_ready refl) verification_pending refl) verified refl in
    via (via (via checked cutover_ready refl) cutover refl) legacy_retired refl

-- READY can be reached from every open state.
reach_ready : (s : MigrationState) → IsOpen s → Trail s ready
unfolding can_transition MigrationState-discrete
reach_ready discovered h = via (via start validated refl) ready refl
reach_ready validated h = via start ready refl
reach_ready ready h = start
reach_ready cutover h = via (via start rolled_back refl) ready refl
reach_ready cutover_ready h = via (via start rolled_back refl) ready refl
reach_ready legacy_retired h = absurd h
reach_ready blocked h = via start ready refl
reach_ready failed_retryable h = via start ready refl
reach_ready failed_manual_review h = via start ready refl
reach_ready rolled_back h = via start ready refl
reach_ready (MigrationState.unlisted _) h = absurd h
reach_ready _ h = via (via start failed_manual_review refl) ready refl

reach_end : (s : MigrationState) → state_valid s ≡ true → Trail s legacy_retired
unfolding state_valid
reach_end legacy_retired h = start
reach_end (MigrationState.unlisted _) h = cc
reach_end s h = complete (reach_ready s tt)

-- No listed state is a dead end but LEGACY_RETIRED, which is final: every listed state has a trail to
-- LEGACY_RETIRED, and a trail from LEGACY_RETIRED ends there.
pub legacy_retired_final :
    (s t : MigrationState)
    → state_valid s ≡ true
    → Trail legacy_retired t
    → Trail s legacy_retired × (t ≡ legacy_retired)
legacy_retired_final s t h p = (reach_end s h, legacy_retired_stays p)
