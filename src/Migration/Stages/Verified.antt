-- ===== src/Migration/Stages/Verified.antt =====
-- internal/migration/verification.go: what a call of `MarkVerified` that succeeds has done.
use baobab_iam.Base.{String, true, some, ◌≡◌, refl, sym, ap, ◌∙◌, ◌⊎◌, inl, inr}
use mathlib.Core.Path.{subst}
use baobab_iam.Result.{ok}
use baobab_iam.Migration.Types.{
  Row, MigrationState, verification_pending, verified, cutover_ready, cutover, legacy_retired,
}
use baobab_iam.Migration.Store.{View, IsLawful}
use baobab_iam.Migration.Service.{Service, apply_transition}
use baobab_iam.Migration.Service.Effect.{Advanced, Ends-ok, apply_transition-Ends}
use baobab_iam.Migration.Ledger.History.Identity.{advance_keeps}
use baobab_iam.Migration.Bridge.Provision.Outcome.{resume-ok, Written-at}
use baobab_iam.Migration.Stages.Outcome.{IsLed}
use baobab_iam.Migration.Stages.Verification
use baobab_iam.Migration.Stages.Verification.{VerificationResult, mark_verified, mark_verified_from}

-- VERIFIED, or a state behind it on the happy path.
abbrev pub IsVerified : MigrationState → Type 0
IsVerified verified = Unit
IsVerified cutover_ready = Unit
IsVerified cutover = Unit
IsVerified legacy_retired = Unit
IsVerified _ = ⊥

-- How a call of `MarkVerified` that succeeds has ended.
abbrev pub Verified : String → Row → VerificationResult → View → View → Type 0
Verified id r out v w =
    (IsVerified r.migration_state × (out.already_verified ≡ true) × (out.row ≡ r) × (w ≡ v))
    ⊎ ((r.migration_state ≡ verification_pending) × IsLed id verified out.row w)

module _ {S : Type 0} (svc : Service S) (laws : IsLawful svc.store) where
  open laws use {view, IsWell}

  moved_lem :
      (id : String) (outcome : String) (out : VerificationResult) (s : S)
      → IsWell s
      → (Verification.moved_to svc id verified outcome s).0 ≡ ok out
      → IsLed id verified out.row (view (Verification.moved_to svc id verified outcome s).1)
  moved_lem id outcome out s h done =
      let p = apply_transition svc id verified s in
      let (row, moved, rest, same) = resume-ok p _ out done in
      let (well, a) =
        Ends-ok svc laws (Advanced svc laws id verified (view s)) (view s) p row
          (apply_transition-Ends svc laws id verified s h) moved in
      let (kept, state) = advance_keeps a.time verified a.old row a.effect in
      let same_row : out.row ≡ row = cc in
      record {
        found =
            ap (λ x. view x.1 id) same
            ∙ (Written-at id (view s) (view p.1) row a.written (kept.same_id ∙ a.key)
                ∙ ap some (sym same_row));
        state = cc (same_row, state);
      }

  from_lem :
      (st : MigrationState) (id : String) (r : Row) (out : VerificationResult) (s : S)
      → r.migration_state ≡ st
      → IsWell s
      → (mark_verified_from svc st id r s).0 ≡ ok out
      → Verified id r out (view s) (view (mark_verified_from svc st id r s).1)
  from_lem verification_pending id r out s e h done = inr (e, moved_lem id _ out s h done)
  from_lem verified id r out s e h done = inl (rw e tt, cc, cc, refl)
  from_lem cutover_ready id r out s e h done = inl (rw e tt, cc, cc, refl)
  from_lem cutover id r out s e h done = inl (rw e tt, cc, cc, refl)
  from_lem legacy_retired id r out s e h done = inl (rw e tt, cc, cc, refl)
  from_lem _ id r out s e h done = cc

  -- When `MarkVerified` succeeds on a well-formed store, then either the stored row was VERIFIED or
  -- behind that on the happy path, and it is returned as it is with the ledger as it was, or it was
  -- VERIFICATION_PENDING and the row that is returned is stored and VERIFIED.
  pub mark_verified_succeeds :
      (id : String) (out : VerificationResult) (s : S)
      → IsWell s
      → (mark_verified svc id s).0 ≡ ok out
      → (r : Row) × (view s id ≡ some r)
        × Verified id r out (view s) (view (mark_verified svc id s).1)
  unfolding mark_verified
  mark_verified_succeeds id out s h done =
      let g = svc.store.get id s in
      let (r, read, rest, same) = resume-ok g _ out done in
      let ends = from_lem r.migration_state id r out g.1 refl (laws.get_well id s h) rest in
      let ends' = subst (λ x. Verified id r out (view g.1) (view x.1)) (sym same) ends in
      (
        r,
        laws.get_ok id s r h read,
        subst (λ v. Verified id r out v (view (mark_verified svc id s).1)) (laws.get_view id s h)
            ends',
      )
