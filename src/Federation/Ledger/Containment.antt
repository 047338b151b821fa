-- ===== src/Federation/Ledger/Containment.antt =====
-- internal/federation/trust_ledger.go: `Trust` and `Contain` keep the ledger sound.
use mathlib.Core.Path.{subst}
use baobab_iam.Base.{
  ℕ, ◌<◌, String, true, false, not, ◌&&◌, ◌||◌, some, ◌≡◌, ◌≢◌, refl, sym, ap, ◌∙◌, inl, inr,
  Bool-cases, arith, str_eq, find_key, ltb,
}
use baobab_iam.Action.Along.{Along, Along-bind, Along-pure}
use baobab_iam.Federation.Types.{denied, invalid, unverified}
use baobab_iam.Federation.Validate.{validate_trust}
use baobab_iam.Federation.Ledger.{CommittedTrust, Disk, find_revision, ApprovalActor, TrustLedger}
use baobab_iam.Federation.Ledger.Tx.{
  read_clock, is_cancelled, still_before, update, observe_clock, fence, actor, put_trust_revision,
  is_present, with_revision,
}
use baobab_iam.Federation.Ledger.Transition.{is_ok, trust_transition}
use baobab_iam.Federation.Ledger.Propose.{read}
use baobab_iam.Federation.Ledger.Decide.{
  activation, trust, same_snapshot, contain, contained, contained_trust, containment_refused,
  not_live, expected, store_containment, fresh_id,
}
use baobab_iam.Federation.Ledger.Sound.{number, IsSound, Follows, Follows-refl, Keeps, Keeps-order}
use baobab_iam.Federation.Ledger.Writes.{IsNext, with_revision-Follows}
use baobab_iam.Federation.Ledger.Guards.{trust_transition-IsTransition, is_present-none}
use baobab_iam.Federation.Ledger.Keeps.{
  PortsKeep, Along-reported, Along-guard, Along-read, Along-update, Along-read_clock,
  Along-is_cancelled, Along-still_before, Along-observe_clock, Along-fence, Along-actor,
}
use baobab_iam.Federation.Ledger.Reading.{read-same, read-good}
use baobab_iam.Federation.Ledger.Operations.{activation-Keeps}

contained_approved :
    (v : CommittedTrust) (snapshot_id status by : String) (now : ℕ)
    → (contained v snapshot_id status by now).snapshot.approved_revision
      ≡ number (contained v snapshot_id status by now)
unfolding contained
contained_approved v snapshot_id status by now = refl

numbered_write :
    (id : String) (w : CommittedTrust) (d : Disk)
    → w.snapshot.approved_revision ≡ number w
    → IsNext id w d
    → IsSound d
    → IsSound (with_revision id w.snapshot.approved_revision w d)
      × Follows d (with_revision id w.snapshot.approved_revision w d)
numbered_write id w d e next sound =
    subst (λ (n : ℕ). IsSound (with_revision id n w d) × Follows d (with_revision id n w d)) (sym e)
      (with_revision-Follows id w d next sound)

module _ {W : Type 0} (l : TrustLedger W) (ports : PortsKeep l) where
  -- `Trust` keeps a sound ledger sound, and what it holds.
  pub trust-Keeps : (d : Disk) (id : String) → Along (Keeps d) (trust l id)
  unfolding trust
  trust-Keeps d id = Along-read d (read l id) _ (read-same l id) (λ v s sound q.
      let order = Keeps-order s.disk in
      Along-bind order (fence l) _ (Along-fence l s.disk) (λ _.
        Along-bind order (read_clock l) _ (Along-read_clock l s.disk) (λ now.
          Along-guard order
            (not (ltb now v.snapshot.valid_until)
              || not (is_ok (validate_trust l.parse v.snapshot.trust)))
            unverified _
            (λ _.
              Along-bind order (activation l v.snapshot v.scope) _
                (activation-Keeps l ports s.disk v.snapshot v.scope)
                (λ _. Along-bind order (fence l) _ (Along-fence l s.disk) (λ _.
                  Along-read s.disk (read l id) _ (read-same l id) (λ current t sound' r.
                    Along-bind (Keeps-order t.disk) (read_clock l) _ (Along-read_clock l t.disk)
                      (λ later.
                        Along-guard (Keeps-order t.disk)
                          (not (ltb later v.snapshot.valid_until)
                            || not (same_snapshot v.snapshot current.snapshot))
                          unverified _ (λ _. Along-pure (Keeps-order t.disk) v.snapshot)))))))))

  -- What is in force is what was read, if its revision is.
  still_there :
      (d e : Disk) (id snapshot_id : String) (v w : CommittedTrust)
      → IsSound d
      → IsSound e
      → Follows d e
      → find_key id d.trusts ≡ some v
      → find_key id e.trusts ≡ some w
      → not_live (some w) v.snapshot.approved_revision snapshot_id ≡ false
      → w ≡ v
  still_there d e id snapshot_id v w sd se after fv fw live =
      let a = after.trusts id v fv in
      let same : a.now ≡ w = let z : some a.now ≡ some w = sym a.found ∙ fw in cc in
      elim a.later [
        | inl q ↦ sym same ∙ q
        | inr q ↦
            let n = ((sd.in_force id v fv).0).approved in
            let m = ((se.in_force id w fw).0).approved in
            let less = subst (λ (x : CommittedTrust). number v < number x) same q.0 in
            let eq : w.snapshot.approved_revision ≡ v.snapshot.approved_revision =
              ground (arith, live) in
            absurd (omega (arith, n, m, less, eq))
      ]

  -- The containment of a trust that was read may be written where that trust is still in force.
  contained-IsNext :
      (d e : Disk) (id snapshot_id status by : String) (now : ℕ) (v : CommittedTrust)
      → IsSound d
      → IsSound e
      → Follows d e
      → find_key id d.trusts ≡ some v
      → not_live (find_key id e.trusts) v.snapshot.approved_revision v.snapshot.snapshot_id ≡ false
      → trust_transition v.snapshot.trust (contained v snapshot_id status by now).snapshot.trust
        ≡ true
      → is_present (find_revision id (number (contained v snapshot_id status by now)) e.history)
        ≡ false
      → IsNext id (contained v snapshot_id status by now) e
  unfolding contained contained_trust
  contained-IsNext d e id snapshot_id status by now v sd se after fv live move free =
      let c = (sd.in_force id v fv).0 in
      let t =
        trust_transition-IsTransition v.snapshot.trust
          (contained v snapshot_id status by now).snapshot.trust move in
      let next = t.next c.numbered.1 in
      record {
        committed = record {
          four_eyes = c.four_eyes;
          approved = refl;
          same_id = c.same_id;
          numbered = (omega (arith, next), t.bounded);
        };
        free = is_present-none _ free;
        later = λ w fw.
            let same =
              still_there d e id v.snapshot.snapshot_id v w sd se after fv fw (rw fw at live) in
            subst
              (λ (x : CommittedTrust).
                (number x < number (contained v snapshot_id status by now))
                × (x.snapshot.trust.status ≢ "REVOKED"))
              (sym same) (omega (arith, next), t.alive);
      }

  -- The transaction of `Contain`, on a disk that follows the one that was read.
  Along-store_containment :
      (d : Disk) (a : ApprovalActor) (id snapshot_id status by : String) (now : ℕ)
      (v : CommittedTrust)
      → IsSound d
      → find_key id d.trusts ≡ some v
      → trust_transition v.snapshot.trust (contained v snapshot_id status by now).snapshot.trust
        ≡ true
      → Along (Keeps d) (
          store_containment l a id v.snapshot.approved_revision v.snapshot.snapshot_id
            (contained v snapshot_id status by now))
  unfolding store_containment put_trust_revision
  Along-store_containment d a id snapshot_id status by now v sd fv move =
      let order = Keeps-order d in
      let w = contained v snapshot_id status by now in
      Along-bind order (observe_clock l) _ (Along-observe_clock l d) (λ _.
        Along-bind order (is_cancelled l) _ (Along-is_cancelled l d) (λ over.
          Along-guard order over denied _ (λ _.
            Along-bind order (still_before l a.valid_until) _ (Along-still_before l d a.valid_until)
              (λ _. record {
                at = λ s sound from.
                    elim (Bool-cases (
                      not_live (find_key id s.disk.trusts) v.snapshot.approved_revision
                        v.snapshot.snapshot_id)) [
                          | inl g ↦ rw g (sound, Follows-refl s.disk)
                          | inr g ↦
                              elim (Bool-cases (
                                is_present
                                  (find_revision id w.snapshot.approved_revision s.disk.history))) [
                                    | inl h ↦ rw (g, h) (sound, Follows-refl s.disk)
                                    | inr h ↦
                                        rw (g, h)
                                          (numbered_write id w s.disk
                                            (contained_approved v snapshot_id status by now)
                                            (contained-IsNext d s.disk id snapshot_id status by now
                                              v sd sound from fv g move
                                              (ap
                                                  (λ (n : ℕ).
                                                    is_present (find_revision id n s.disk.history))
                                                  (sym (
                                                    contained_approved v snapshot_id status by now))
                                                ∙ h))
                                            sound)
                                  ]
                        ];
              }))))

  -- `Contain` keeps a sound ledger sound, and what it holds.
  pub contain-Keeps :
      (d : Disk) (id : String) (revision : ℕ) (status : String)
      → Along (Keeps d) (contain l id revision status)
  unfolding contain
  contain-Keeps d id revision status =
      Along-guard (Keeps-order d) (not (str_eq status "SUSPENDED") && not (str_eq status "REVOKED"))
        invalid _
        (λ _. Along-read d (read l id) _ (read-same l id) (λ v s sound q.
          let order = Keeps-order s.disk in
          Along-guard order (containment_refused v revision status) denied _ (λ k.
            let want =
              expected v.snapshot v.scope v.snapshot.trust.provider_binding.configuration_reference
                "federation_configuration" in
            Along-bind order (actor l "REVOKE" want) _ (Along-actor l s.disk ports "REVOKE" want)
              (λ a. Along-bind order (read_clock l) _ (Along-read_clock l s.disk) (λ now.
                Along-bind order (fresh_id l) _
                  (record { at = λ t sound' from. (sound', Follows-refl t.disk) })
                  (λ snapshot_id.
                    let w = contained v snapshot_id status a.principal_id now in
                    Along-guard order
                      (not (trust_transition v.snapshot.trust w.snapshot.trust)
                        || not (is_ok (validate_trust l.parse w.snapshot.trust)))
                      denied _
                      (λ m.
                        let same : v.snapshot.approved_revision ≡ revision = ground (arith, k) in
                        let body = store_containment l a id revision v.snapshot.snapshot_id w in
                        let kept : Along (Keeps s.disk) body =
                          subst
                            (λ (n : ℕ).
                              Along (Keeps s.disk)
                                (store_containment l a id n v.snapshot.snapshot_id w))
                            same
                            (Along-store_containment s.disk a id snapshot_id status a.principal_id
                              now v sound (read-good l id s v q).1 (ground (arith, m))) in
                        Along-reported (update l body) (Along-update l s.disk body kept))))))))
