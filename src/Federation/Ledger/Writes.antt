-- ===== src/Federation/Ledger/Writes.antt =====
-- internal/federation/trust_ledger.go: each write, under its guards, keeps a disk sound and follows it.
use mathlib.Core.Path.{subst}
use baobab_iam.Base.{
  ℕ, ◌≤◌, ◌<◌, String, true, false, ◌&&◌, List, ◌∷◌, Option, none, some, ◌≡◌, ◌≢◌, refl, sym, ◌∙◌,
  ◌⊎◌, inl, inr, Bool-cases, arith, eq_iff, eq_refl, str_eq, ◌==◌, find_key,
}
use baobab_iam.Federation.Ledger.{TrustProposal, CommittedTrust, Revision, Disk, find_revision}
use baobab_iam.Federation.Ledger.Tx.{went_back, set_clock, with_revision}
use baobab_iam.Federation.Ledger.Propose.{put_proposal}
use baobab_iam.Federation.Ledger.Sound.{number, IsCommitted, IsProposal, IsSound, Follows}

not_back : (now n : ℕ) (o : Option ℕ) → went_back now o ≡ false → o ≡ some n → n ≤ now
not_back now n none h e = cc
not_back now n (some m) h e = let q : m ≡ n = cc in ground arith

pub set_clock-Follows :
    (now : ℕ) (d : Disk)
    → went_back now d.clock ≡ false
    → IsSound d
    → IsSound (set_clock now d) × Follows d (set_clock now d)
set_clock-Follows now d h s = (
  record { in_force = s.in_force; proposals = s.proposals },
  record {
    history = λ id n v k. k;
    trusts = λ id v k. record { now = v; found = k; later = inl refl };
    decided = λ id p k q. k;
    clock = λ n k. (now, refl, not_back now n d.clock h k);
  },
)

-- A lookup in a map with one more entry.
found_under :
    {A : Type 0} (k j : String) (v w : A) (m : List (String × A))
    → find_key k ((j, v) ∷ m) ≡ some w
    → ((k ≡ j) × (v ≡ w)) ⊎ ((str_eq k j ≡ false) × (find_key k m ≡ some w))
unfolding find_key
found_under k j v w m h = elim (Bool-cases (str_eq k j)) [
  | inl e ↦ inl ((eq_iff k j).0 e, let q = rw e at h in cc)
  | inr e ↦ inr (e, rw e at h)
]

find_key-other :
    {A : Type 0} (k j : String) (v : A) (m : List (String × A))
    → str_eq k j ≡ false
    → find_key k ((j, v) ∷ m) ≡ find_key k m
unfolding find_key
find_key-other k j v m h = rw h refl

find_key-same :
    {A : Type 0} (k : String) (v : A) (m : List (String × A)) → find_key k ((k, v) ∷ m) ≡ some v
unfolding find_key
find_key-same k v m = rw (eq_refl k) refl

pub put_proposal-Follows :
    (id : String) (p : TrustProposal) (d : Disk)
    → IsProposal id p
    → ((q : TrustProposal) → find_key id d.proposals ≡ some q → q.status ≡ "PENDING")
    → IsSound d
    → IsSound (put_proposal id p d) × Follows d (put_proposal id p d)
put_proposal-Follows id p d good pending s = (
  record {
    in_force = s.in_force;
    proposals = λ k q h. elim (found_under k id p q d.proposals h) [
      | inl (e, f) ↦
          subst (λ (x : TrustProposal). IsProposal k x) f
            (subst (λ (x : String). IsProposal x p) (sym e) good)
      | inr (e, f) ↦ s.proposals k q f
    ];
  },
  record {
    history = λ k n v h. h;
    trusts = λ k v h. record { now = v; found = h; later = inl refl };
    decided = λ k q h n. elim (Bool-cases (str_eq k id)) [
      | inl e ↦ absurd (
          n (
            pending q
              (subst (λ (x : String). find_key x d.proposals ≡ some q) ((eq_iff k id).0 e) h)))
      | inr e ↦ find_key-other k id p d.proposals e ∙ h
    ];
    clock = λ n h. (n, h, omega arith);
  },
)

-- A revision that may be written: the history is free there, and it is later than what is in force,
-- which is not revoked.
pub record IsNext (id : String) (v : CommittedTrust) (d : Disk) : Type 0 where
  pub committed : IsCommitted id v
  pub free : find_revision id (number v) d.history ≡ none
  pub later :
      (w : CommittedTrust)
      → find_key id d.trusts ≡ some w
      → (number w < number v) × (w.snapshot.trust.status ≢ "REVOKED")

find_revision-kept :
    (id k : String) (n m : ℕ) (v w : CommittedTrust) (h : List Revision)
    → find_revision id n h ≡ none
    → find_revision k m h ≡ some w
    → find_revision k m (record { trust_id = id; number = n; value = v } ∷ h) ≡ some w
unfolding find_revision
find_revision-kept id k n m v w h free found = elim (Bool-cases (str_eq k id && m == n)) [
  | inl e ↦
      let same = (eq_iff k id).0 (ground (arith, e)) in
      let at : m ≡ n = ground (arith, e) in absurd (let q = rw (same, at) at found in cc)
  | inr e ↦ rw e found
]

find_revision-new :
    (id : String) (n : ℕ) (v : CommittedTrust) (h : List Revision)
    → find_revision id n (record { trust_id = id; number = n; value = v } ∷ h) ≡ some v
unfolding find_revision
find_revision-new id n v h =
    let q : (str_eq id id && n == n) ≡ true = let r = eq_refl id in ground (arith, r) in rw q refl

pub with_revision-Follows :
    (id : String) (v : CommittedTrust) (d : Disk)
    → IsNext id v d
    → IsSound d
    → IsSound (with_revision id (number v) v d) × Follows d (with_revision id (number v) v d)
with_revision-Follows id v d next s =
    let kept =
      λ (k : String) (m : ℕ) (w : CommittedTrust) (h : find_revision k m d.history ≡ some w).
        find_revision-kept id k (number v) m v w d.history next.free h in
    (
      record {
        in_force = λ k w h. elim (found_under k id v w d.trusts h) [
          | inl (e, f) ↦
              subst
                (λ (x : CommittedTrust).
                  IsCommitted k x
                  × (find_revision k (number x) (with_revision id (number v) v d).history ≡ some x))
                f
                (subst
                  (λ (x : String).
                    IsCommitted x v
                    × (find_revision x (number v) (with_revision id (number v) v d).history
                        ≡ some v))
                  (sym e) (next.committed, find_revision-new id (number v) v d.history))
          | inr (e, f) ↦ let (c, r) = s.in_force k w f in (c, kept k (number w) w r)
        ];
        proposals = s.proposals;
      },
      record {
        history = kept;
        trusts = λ k w h. elim (Bool-cases (str_eq k id)) [
          | inl e ↦
              let same = (eq_iff k id).0 e in
              record {
                now = v;
                found =
                    subst (λ (x : String). find_key x ((id, v) ∷ d.trusts) ≡ some v) (sym same)
                      (find_key-same id v d.trusts);
                later =
                    inr
                      (next.later w (subst (λ (x : String). find_key x d.trusts ≡ some w) same h));
              }
          | inr e ↦ record {
            now = w;
            found = find_key-other k id v d.trusts e ∙ h;
            later = inl refl;
          }
        ];
        decided = λ k q h n. h;
        clock = λ n h. (n, h, omega arith);
      },
    )
