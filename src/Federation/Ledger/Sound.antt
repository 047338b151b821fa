-- ===== src/Federation/Ledger/Sound.antt =====
-- internal/federation/trust_ledger.go: what a disk keeps true, and how one disk follows another.
use mathlib.Core.Path.{subst}
use baobab_iam.Base.{
  ℕ, ◌≤◌, ◌<◌, String, some, ◌≡◌, ◌≢◌, refl, sym, ◌∙◌, ◌⊎◌, inl, inr, arith, find_key,
}
use baobab_iam.Action.Along.{IsPreorder}
use baobab_iam.Federation.Ledger.{TrustProposal, CommittedTrust, Disk, find_revision, World}
use baobab_iam.Federation.Ledger.Transition.{max_uint64}

abbrev pub number : CommittedTrust → ℕ
number v = v.snapshot.trust.revision

-- A committed trust: decided by another than its maker, under a revision that fits its type.
pub record IsCommitted (id : String) (v : CommittedTrust) : Type 0 where
  pub four_eyes : v.maker ≢ v.checker
  pub approved : v.snapshot.approved_revision ≡ number v
  pub same_id : v.snapshot.trust.id ≡ id
  pub numbered : (0 < number v) × (number v ≤ max_uint64)

-- A proposal: the first revision follows nothing.
pub record IsProposal (id : String) (p : TrustProposal) : Type 0 where
  pub approved : p.snapshot.approved_revision ≡ p.snapshot.trust.revision
  pub numbered : (0 < p.snapshot.trust.revision) × (p.snapshot.trust.revision ≤ max_uint64)
  pub first : p.previous_revision ≡ 0 → p.snapshot.trust.revision ≡ 1

-- Every trust in force is the entry of the history under its revision.
pub record IsSound (d : Disk) : Type 0 where
  pub in_force :
      (id : String) (v : CommittedTrust)
      → find_key id d.trusts ≡ some v
      → IsCommitted id v × (find_revision id (number v) d.history ≡ some v)
  pub proposals :
      (id : String) (p : TrustProposal) → find_key id d.proposals ≡ some p → IsProposal id p

-- The trust in force under an id is still there, or has been replaced by a later revision, which
-- cannot be if it is revoked.
pub record Advances (id : String) (v : CommittedTrust) (d : Disk) : Type 0 where
  pub now : CommittedTrust
  pub found : find_key id d.trusts ≡ some now
  pub later : (now ≡ v) ⊎ ((number v < number now) × (v.snapshot.trust.status ≢ "REVOKED"))

-- One disk follows another: no entry of the history is lost or changed, trusts only advance, and a
-- decided proposal stays as it is.
pub record Follows (d d' : Disk) : Type 0 where
  pub history :
      (id : String) (n : ℕ) (v : CommittedTrust)
      → find_revision id n d.history ≡ some v
      → find_revision id n d'.history ≡ some v
  pub trusts : (id : String) (v : CommittedTrust) → find_key id d.trusts ≡ some v → Advances id v d'
  pub decided :
      (id : String) (p : TrustProposal)
      → find_key id d.proposals ≡ some p
      → p.status ≢ "PENDING"
      → find_key id d'.proposals ≡ some p
  pub clock : (n : ℕ) → d.clock ≡ some n → (m : ℕ) × (d'.clock ≡ some m) × (n ≤ m)

pub Follows-refl : (d : Disk) → Follows d d
Follows-refl d = record {
  history = λ id n v h. h;
  trusts = λ id v h. record { now = v; found = h; later = inl refl };
  decided = λ id p h q. h;
  clock = λ n h. (n, h, omega arith);
}

Advances-trans :
    (id : String) (v : CommittedTrust) (d e : Disk)
    → (a : Advances id v d) → Advances id a.now e
    → Advances id v e
Advances-trans id v d e a b = record {
  now = b.now;
  found = b.found;
  later = elim a.later [
    | inl p ↦ elim b.later [
      | inl q ↦ inl (q ∙ p)
      | inr q ↦ inr (
          subst
            (λ (x : CommittedTrust).
              (number x < number b.now) × (x.snapshot.trust.status ≢ "REVOKED"))
            p q)
    ]
    | inr p ↦ elim b.later [
      | inl q ↦ inr (subst (λ (x : CommittedTrust). number v < number x) (sym q) p.0, p.1)
      | inr q ↦ inr (omega (arith, p.0, q.0), p.1)
    ]
  ];
}

pub Follows-trans : (d e f : Disk) → Follows d e → Follows e f → Follows d f
Follows-trans d e f p q = record {
  history = λ id n v h. q.history id n v (p.history id n v h);
  trusts =
      λ id v h. let a = p.trusts id v h in Advances-trans id v e f a (q.trusts id a.now a.found);
  decided = λ id r h k. q.decided id r (p.decided id r h k) k;
  clock = λ n h.
      let (m, g, l) = p.clock n h in let (o, k, j) = q.clock m g in (o, k, omega (arith, l, j));
}

-- Sound disks stay sound and are followed, from one that followed `d` on.
abbrev pub Keeps : {W : Type 0} → Disk → World W → World W → Type 0
Keeps d s t = IsSound s.disk → Follows d s.disk → IsSound t.disk × Follows s.disk t.disk

pub Keeps-order : {W : Type 0} (d : Disk) → IsPreorder {S = World W} (Keeps d)
Keeps-order d = record {
  same = λ s h f. (h, Follows-refl s.disk);
  trans = λ s t u p q h f.
      let (a, b) = p h f in
      let (c, e) = q a (Follows-trans d s.disk t.disk f b) in
      (c, Follows-trans s.disk t.disk u.disk b e);
}
