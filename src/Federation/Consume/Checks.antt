-- ===== src/Federation/Consume/Checks.antt =====
-- internal/federation/consume.go: what each check of `Consume` has established when it passes.
use mathlib.Core.Path.{subst}
use baobab_iam.Base.{
  ℕ, ◌≤◌, ◌<◌, String, Bool, true, false, not, List, [], ◌∷◌, ◌≡◌, refl, ap, arith, eq_iff,
}
use baobab_iam.Result.{Result, ok, err}
use baobab_iam.Action.{Action, pure}
use baobab_iam.Action.Done.{bind-ok}
use baobab_iam.Federation.Types.{FederationError, unverified, invalid}
use baobab_iam.Federation.Ports.{
  ReferenceExpectation, ReferenceExpectation-discrete, ApprovedReference,
}
use baobab_iam.Federation.Grammar.{valid_ref}
use baobab_iam.Federation.Validate.{fresh}
use baobab_iam.Federation.Ledger.Tx.{by_authority}
use baobab_iam.Federation.Ledger.Decide.{is_yes, receipt_refused}
use baobab_iam.Federation.Conditions.{earlier}
use baobab_iam.Federation.Consume.{Consumer, deny_if, asked, check, check_all}

pub deny_done :
    {S : Type 0} (bad : Bool) (e : FederationError) (u : Unit {0}) (s : S)
    → (deny_if bad e s).0 ≡ ok u
    → bad ≡ false
deny_done true e u s h = cc
deny_done false e u s h = refl

by_authority_done :
    {A : Type 0} (r : Result FederationError A) (a : A) → by_authority r ≡ ok a → r ≡ ok a
by_authority_done (ok b) a h = h
by_authority_done (err e) a h = cc

pub asked_done :
    {S A : Type 0} (m : Action FederationError S A) (s : S) (a : A)
    → (asked m s).0 ≡ ok a
    → m s ≡ (ok a, (m s).1)
unfolding asked
asked_done m s a h =
    ap (λ (r : Result FederationError _). (r, (m s).1)) (by_authority_done (m s).0 a h)

pub pure_done :
    {S A : Type 0} (a b : A) (s t : S)
    → pure {E = FederationError} a s ≡ (ok b, t)
    → (a ≡ b) × (s ≡ t)
pure_done a b s t h = (
  let q : ok a ≡ ok b = ap (λ (r : Result FederationError _ × _). r.0) h in cc,
  ap (λ (r : Result FederationError _ × _). r.1) h,
)

pub earlier-≤ : (a b : ℕ) → (earlier a b ≤ a) × (earlier a b ≤ b)
unfolding earlier
earlier-≤ a b = (ground arith, ground arith)

pub is_yes-≡ : {P : Type 0} (d : Dec P) → is_yes d ≡ true → P
is_yes-≡ (yes p) h = p
is_yes-≡ (no n) h = cc

module _ {S : Type 0} (c : Consumer S) where
  -- Asked in the one state and leaving the other, the authority approved a reference for exactly what
  -- is expected, at a time and for as long as a bound.
  pub record IsApproved (now : ℕ) (want : ReferenceExpectation) (bound : ℕ) (s t : S) : Type 0 where
    pub receipt : ApprovedReference
    pub answered : c.authorities.reference want s ≡ (ok receipt, t)
    pub exactly : receipt.expectation ≡ want
    pub status : receipt.status ≡ "APPROVED"
    pub non_secret : receipt.non_secret ≡ true
    pub begun : receipt.valid_from ≤ now
    pub lasts : (now < receipt.expires_at) × (bound ≤ receipt.expires_at)

  pub shorter :
      (now : ℕ) (want : ReferenceExpectation) (bound less : ℕ) (s t : S)
      → less ≤ bound
      → IsApproved now want bound s t
      → IsApproved now want less s t
  shorter now want bound less s t h a = record {
    receipt = a.receipt;
    answered = a.answered;
    exactly = a.exactly;
    status = a.status;
    non_secret = a.non_secret;
    begun = a.begun;
    lasts = (a.lasts.0, let q = a.lasts.1 in omega (arith, h, q));
  }

  receipt-IsApproved :
      (now : ℕ) (want : ReferenceExpectation) (expires : ℕ) (r : ApprovedReference) (s t : S)
      → c.authorities.reference want s ≡ (ok r, t)
      → receipt_refused want r now ≡ false
      → IsApproved now want (earlier expires r.expires_at) s t
  unfolding receipt_refused fresh
  receipt-IsApproved now want expires r s t h q = record {
    receipt = r;
    answered = h;
    exactly = is_yes-≡ (ReferenceExpectation-discrete r.expectation want) (ground (arith, q));
    status = (eq_iff r.status "APPROVED").0 (ground (arith, q));
    non_secret = ground (arith, q);
    begun = ground (arith, q);
    lasts = (ground (arith, q), (earlier-≤ expires r.expires_at).1);
  }

  pub check-IsApproved :
      (now : ℕ) (want : ReferenceExpectation) (expires bound : ℕ) (s t : S)
      → check c now want expires s ≡ (ok bound, t)
      → IsApproved now want bound s t × (bound ≤ expires)
  unfolding check
  check-IsApproved now want expires bound s t h =
      let (_, _, a) = bind-ok (deny_if (not (valid_ref want.id)) invalid) _ bound s t h in
      let m = asked (c.authorities.reference want) in
      let (r, answered, b) = bind-ok m _ bound s t a in
      let u = (m s).1 in
      let (v, fine, d) = bind-ok (deny_if (receipt_refused want r now) unverified) _ bound u t b in
      let (same, at) = pure_done (earlier expires r.expires_at) bound u t d in
      subst (λ (w : S). IsApproved now want bound s w × (bound ≤ expires)) at
        (subst (λ (n : ℕ). IsApproved now want n s u × (n ≤ expires)) same
          (
            receipt-IsApproved now want expires r s u
                (asked_done (c.authorities.reference want) s r answered)
                (deny_done (receipt_refused want r now) unverified v u fine),
            (earlier-≤ expires r.expires_at).0,
          ))

  -- Every reference of a list is approved, one after the other.
  abbrev pub AllApproved : ℕ → ReferenceExpectation → List (String × String) → ℕ → S → S → Type 0
  AllApproved now want [] bound s t = s ≡ t
  AllApproved now want ((id, kind) ∷ rest) bound s t =
      (u : S) × IsApproved now (record want { id = id; kind = kind }) bound s u
      × AllApproved now want rest bound u t

  pub all_shorter :
      (now : ℕ) (want : ReferenceExpectation) (xs : List (String × String)) (bound less : ℕ)
      (s t : S)
      → less ≤ bound
      → AllApproved now want xs bound s t
      → AllApproved now want xs less s t
  all_shorter now want [] bound less s t h a = a
  all_shorter now want ((id, kind) ∷ rest) bound less s t h (u, one, others) = (
    u,
    shorter now (record want { id = id; kind = kind }) bound less s u h one,
    all_shorter now want rest bound less u t h others,
  )

  pub check_all-AllApproved :
      (now : ℕ) (want : ReferenceExpectation) (xs : List (String × String)) (expires bound : ℕ)
      (s t : S)
      → check_all c now want xs expires s ≡ (ok bound, t)
      → AllApproved now want xs bound s t × (bound ≤ expires)
  unfolding check_all
  check_all-AllApproved now want [] expires bound s t h =
      let (e, at) = pure_done expires bound s t h in (at, omega (arith, e))
  check_all-AllApproved now want ((id, kind) ∷ rest) expires bound s t h =
      let first = check c now (record want { id = id; kind = kind }) expires in
      let (sooner, q, a) = bind-ok first _ bound s t h in
      let u = (first s).1 in
      let (one, less) =
        check-IsApproved now (record want { id = id; kind = kind }) expires sooner s u
          (ap (λ (r : Result FederationError ℕ). (r, u)) q) in
      let (others, less') = check_all-AllApproved now want rest sooner bound u t a in
      (
        (u, shorter now (record want { id = id; kind = kind }) sooner bound s u less' one, others),
        omega (arith, less, less'),
      )
