-- ===== src/Federation/Ledger/Operations.antt =====
-- internal/federation/trust_ledger.go: `Propose` and `Decide` keep the ledger sound.
use baobab_iam.Base.{
  ℕ, String, Bool, false, not, ◌||◌, List, [], ◌∷◌, Option, some, ◌≡◌, ◌≢◌, sym, ap, ◌∙◌, arith,
  eq_iff, str_eq, ltb, if◌then◌else◌,
}
use baobab_iam.Result.{Result, ok, err}
use baobab_iam.Action.{lift, pure, attempt, ◌>>=◌, ◌>>◌}
use baobab_iam.Action.Along.{Along, Along-bind, Along-attempt, Along-pure, Along-lift, Along-if}
use baobab_iam.Federation.Types.{
  FederationError, denied, invalid, unverified, unsupported, unavailable, adapter,
}
use baobab_iam.Federation.Ports.{Scope, TrustSnapshot, ReferenceExpectation}
use baobab_iam.Federation.Ledger.{TrustProposal, CommittedTrust, Disk, ApprovalActor, TrustLedger}
use baobab_iam.Federation.Ledger.Tx.{reported, refuse, read_clock, update, actor}
use baobab_iam.Federation.Ledger.Transition.{bad_committed, may_follow}
use baobab_iam.Federation.Ledger.Propose.{
  read, propose, pending, store_proposal, candidate_refused, or_absent, same_actor,
}
use baobab_iam.Federation.Ledger.Decide.{
  proposal, each_reference, activation, decided, store_decision, decide, expected, receipt_refused,
  trust_references,
}
use baobab_iam.Federation.Ledger.Sound.{IsProposal, Keeps, Keeps-order}
use baobab_iam.Federation.Ledger.Keeps.{
  PortsKeep, SameDisk-order, Along-reported, Along-guard, Along-read, Along-update,
  Along-read_clock, Along-actor,
}
use baobab_iam.Federation.Ledger.Guards.{pending-IsProposal}
use baobab_iam.Federation.Ledger.Reading.{read-same, read-good, proposal-same, proposal-good}
use baobab_iam.Federation.Ledger.Stored.{Along-store_proposal, Along-store_decision}

-- What stood before a proposal came from `read`.
read_before :
    (r : Result FederationError CommittedTrust) (o : Option CommittedTrust) (v : CommittedTrust)
    → or_absent r ≡ ok o
    → o ≡ some v
    → r ≡ ok v
read_before (ok w) o v h e = let same : w ≡ v = cc in ap ok same
read_before (err unverified) o v h e = cc
read_before (err unsupported) o v h e = cc
read_before (err denied) o v h e = cc
read_before (err unavailable) o v h e = cc
read_before (err invalid) o v h e = cc
read_before (err (adapter s)) o v h e = cc

module _ {W : Type 0} (l : TrustLedger W) (ports : PortsKeep l) where
  -- The steps of `Propose` after what stood before is read.
  propose_from :
      (d : Disk) (id : String) (c : TrustSnapshot) (want : ReferenceExpectation) (a : ApprovalActor)
      (now : ℕ) (previous : Option CommittedTrust)
      → candidate_refused l id c want ≡ false
      → ((v : CommittedTrust) → previous ≡ some v → bad_committed l.parse c.trust.id v ≡ false)
      → Along (Keeps d) (do
        refuse (not (may_follow previous c.trust)) denied
        digest ← reported (l.targets want)
        refuse (not (str_eq digest (l.digest c))) unverified
        again ← attempt (actor l "PROPOSE" want)
        b ← lift (same_actor a again)
        reported (update l (store_proposal l b (pending id c want digest previous a now)))
        pure (pending id c want digest previous a now))
  unfolding pending
  propose_from d id c want a now previous h k =
      let order = Keeps-order d in
      Along-guard order (not (may_follow previous c.trust)) denied _ (λ q.
        Along-bind order (reported (l.targets want)) _
          (Along-reported (l.targets want) (ports.targets d want))
          (λ digest. Along-guard order (not (str_eq digest (l.digest c))) unverified _ (λ _.
            Along-bind order (attempt (actor l "PROPOSE" want)) _
              (Along-attempt (actor l "PROPOSE" want) (Along-actor l d ports "PROPOSE" want))
              (λ again.
                Along-bind order (lift (same_actor a again)) _
                  (Along-lift order (same_actor a again))
                  (λ b.
                    let p = pending id c want digest previous a now in
                    let good =
                      pending-IsProposal l id c want digest previous a now h k
                        (ground (arith, q)) in
                    Along-bind order (reported (update l (store_proposal l b p))) _
                      (Along-reported (update l (store_proposal l b p)) (
                        Along-update l d (store_proposal l b p)
                          (Along-store_proposal l d b p good)))
                      (λ _. Along-pure order p))))))

  -- `Propose` keeps a sound ledger sound, and what it holds.
  pub propose-Keeps :
      (d : Disk) (id : String) (c : TrustSnapshot) (want : ReferenceExpectation)
      → Along (Keeps d) (propose l id c want)
  unfolding propose
  propose-Keeps d id c want =
      let order = Keeps-order d in
      Along-guard order (candidate_refused l id c want) invalid _ (λ h.
        Along-bind order (actor l "PROPOSE" want) _ (Along-actor l d ports "PROPOSE" want) (λ a.
          Along-bind order (read_clock l) _ (Along-read_clock l d) (λ now.
            Along-guard order (ltb now c.trust.updated_at || not (ltb now c.valid_until)) denied _
              (λ _.
                Along-read d (attempt (read l c.trust.id)) _
                  (Along-attempt (read l c.trust.id) (read-same l c.trust.id))
                  (λ found s sound q.
                    Along-read s.disk (lift (or_absent found)) _
                      (Along-lift SameDisk-order (or_absent found))
                      (λ previous t sound' r.
                        let same : (read l c.trust.id s).0 ≡ found = cc in
                        propose_from t.disk id c want a now previous h (λ v e.
                          (read-good l c.trust.id s v
                            (same ∙ read_before found previous v r e)).0)))))))

  each_reference-Keeps :
      (d : Disk) (s : TrustSnapshot) (scope : Scope) (xs : List (String × String))
      → Along (Keeps d) (each_reference l s scope xs)
  unfolding each_reference
  each_reference-Keeps d s scope [] = Along-pure (Keeps-order d) tt
  each_reference-Keeps d s scope ((id, kind) ∷ rest) =
      let order = Keeps-order d in
      let want = expected s scope id kind in
      Along-bind order (reported (l.references want)) _
        (Along-reported (l.references want) (ports.references d want))
        (λ r. Along-bind order (read_clock l) _ (Along-read_clock l d) (λ now.
          Along-guard order (receipt_refused want r now || ltb r.expires_at s.valid_until)
            unverified _ (λ _. each_reference-Keeps d s scope rest)))

  pub activation-Keeps :
      (d : Disk) (s : TrustSnapshot) (scope : Scope) → Along (Keeps d) (activation l s scope)
  unfolding activation
  activation-Keeps d s scope =
      Along-if (not (str_eq s.trust.status "ACTIVE")) _ _ (Along-pure (Keeps-order d) tt)
        (each_reference-Keeps d s scope (trust_references s.trust))

  -- The last steps of `Decide`.
  decide_from :
      (d : Disk) (id : String) (approve : Bool) (p : TrustProposal) (a : ApprovalActor)
      → IsProposal id p
      → str_eq a.principal_id p.maker ≡ false
      → Along (Keeps d) (do
        again ← attempt (actor l "DECIDE" p.target)
        b ← lift (same_actor a again)
        now ← read_clock l
        reported (update l (store_decision l b id approve (decided p a now approve)))
        pure (decided p a now approve))
  unfolding decided
  decide_from d id approve p a good other =
      let order = Keeps-order d in
      Along-bind order (attempt (actor l "DECIDE" p.target)) _
        (Along-attempt (actor l "DECIDE" p.target) (Along-actor l d ports "DECIDE" p.target))
        (λ again.
          Along-bind order (lift (same_actor a again)) _ (Along-lift order (same_actor a again))
            (λ b. Along-bind order (read_clock l) _ (Along-read_clock l d) (λ now.
              let q = decided p a now approve in
              let m = store_decision l b id approve q in
              let eyes : q.maker ≢ q.checker =
                λ e. let z = (eq_iff a.principal_id p.maker).1 (sym e) in cc in
              let good' : IsProposal id q = record {
                approved = good.approved;
                numbered = good.numbered;
                first = good.first;
              } in
              Along-bind order (reported (update l m)) _
                (Along-reported (update l m)
                  (Along-update l d m (Along-store_decision l d b id approve q good' eyes)))
                (λ _. Along-pure order q))))

  -- `Decide` keeps a sound ledger sound, and what it holds.
  pub decide-Keeps :
      (d : Disk) (id digest : String) (approve : Bool)
      → Along (Keeps d) (decide l id digest approve)
  unfolding decide
  decide-Keeps d id digest approve =
      Along-read d (proposal l id) _ (proposal-same l id) (λ p s sound read.
        let good = sound.proposals id p (proposal-good l id s p read) in
        let order = Keeps-order s.disk in
        Along-guard order (not (str_eq p.status "PENDING") || not (str_eq p.target_digest digest))
          denied _
          (λ _.
            Along-bind order (actor l "DECIDE" p.target) _
              (Along-actor l s.disk ports "DECIDE" p.target)
              (λ a. Along-guard order (str_eq a.principal_id p.maker) denied _ (λ other.
                Along-bind order (reported (l.targets p.target)) _
                  (Along-reported (l.targets p.target) (ports.targets s.disk p.target))
                  (λ actual.
                    Along-guard order
                      (not (str_eq actual digest) || not (str_eq actual (l.digest p.snapshot)))
                      unverified _
                      (λ _.
                        Along-bind order
                          (if approve then activation l p.snapshot p.target.scope else pure tt) _
                          (Along-if approve _ _ (activation-Keeps s.disk p.snapshot p.target.scope)
                            (Along-pure order tt))
                          (λ _. decide_from s.disk id approve p a good other)))))))
