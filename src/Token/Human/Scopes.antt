-- ===== src/Token/Human/Scopes.antt =====
-- internal/tokenprofile/human.go: which scopes are picked, and the audience they stand for.
use mathlib.Core.List.{Nodup, Nodup-nil, Nodup-cons}
use baobab_iam.Base.{
  String, true, false, ◌&&◌, ◌||◌, List, [], ◌∷◌, ◌≡◌, refl, sym, ap, ◌⊎◌, inl, inr, Bool-cases,
  arith, eq_iff, eq_refl, str_eq, contains, contains-of_Mem,
}
use baobab_iam.Result.{ok, Result-cases}
use baobab_iam.Token.Errors.{TokenError}
use baobab_iam.Token.Types.{Workload}
use baobab_iam.Token.Human.Profile.{scope_audiences}
use baobab_iam.Token.Human.{pick_scopes, is_issued_for, human_audience}

-- What the loop over the scopes found out.
pub record IsPicked (profile beside seen scopes granted : List String) : Type 0 where
  pub distinct : Nodup scopes
  pub fresh : (v : String) → contains scopes v ≡ true → contains seen v ≡ false
  pub within :
      (v : String) → contains scopes v ≡ true → (contains profile v || contains beside v) ≡ true
  pub picked : (v : String) → contains granted v ≡ (contains scopes v && contains profile v)

-- One pass of the loop.
record IsPass (e : TokenError) (profile beside seen : List String) (s : String)
    (rest granted more : List String) : Type 0 where
  new : contains seen s ≡ false
  then_more : pick_scopes e profile beside (s ∷ seen) rest ≡ ok more
  either :
      ((contains profile s ≡ true) × (granted ≡ s ∷ more))
      ⊎ ((contains profile s ≡ false) × (contains beside s ≡ true) × (granted ≡ more))

pick_scopes-IsPass :
    (e : TokenError) (profile beside seen : List String) (s : String) (rest granted : List String)
    → pick_scopes e profile beside seen (s ∷ rest) ≡ ok granted
    → (more : List String) × IsPass e profile beside seen s rest granted more
unfolding pick_scopes
pick_scopes-IsPass e profile beside seen s rest granted h = elim (Bool-cases (contains seen s)) [
  | inl a ↦ absurd (let q = rw a at h in cc)
  | inr a ↦ elim (Result-cases (pick_scopes e profile beside (s ∷ seen) rest)) [
    | inr (x, b) ↦ absurd (let q = rw (a, b) at h in ground arith)
    | inl (more, b) ↦ elim (Bool-cases (contains profile s)) [
      | inl d ↦
          let q = rw (a, b, d) at h in
          (more, record { new = a; then_more = b; either = inl (d, cc) })
      | inr d ↦ elim (Bool-cases (contains beside s)) [
        | inl f ↦
            let q = rw (a, b, d, f) at h in
            (more, record { new = a; then_more = b; either = inr (d, f, cc) })
        | inr f ↦ absurd (let q = rw (a, b, d, f) at h in cc)
      ]
    ]
  ]
]

pub pick_scopes-IsPicked :
    (e : TokenError) (profile beside seen scopes granted : List String)
    → pick_scopes e profile beside seen scopes ≡ ok granted
    → IsPicked profile beside seen scopes granted
unfolding pick_scopes contains
pick_scopes-IsPicked e profile beside seen [] granted h = record {
  distinct = Nodup-nil;
  fresh = λ v p. cc;
  within = λ v p. cc;
  picked = λ v. let q : [] ≡ granted = cc in ap (λ (g : List String). contains g v) (sym q);
}
pick_scopes-IsPicked e profile beside seen (s ∷ rest) granted h =
    let (more, pass) = pick_scopes-IsPass e profile beside seen s rest granted h in
    let later : IsPicked profile beside (s ∷ seen) rest more =
      pick_scopes-IsPicked e profile beside (s ∷ seen) rest more pass.then_more in
    let here : (contains profile s || contains beside s) ≡ true = elim pass.either [
      | inl (a, _) ↦ rw a refl
      | inr (_, b, _) ↦ ground (arith, b)
    ] in
    let new = pass.new in
    record {
      distinct = Nodup-cons.1 (
        λ m.
            let a = later.fresh s (contains-of_Mem rest s m) in
            let q = eq_refl s in ground (arith, a, q),
        later.distinct,
      );
      fresh = λ v q. let a = later.fresh v in ground (arith, a, new, eq_iff v s);
      within = λ v q. let a = later.within v in ground (arith, a, here, eq_iff v s);
      picked = λ v.
          let a = later.picked v in
          elim pass.either [
            | inl (d, g) ↦ rw g (ground (arith, a, d, eq_iff v s))
            | inr (d, f, g) ↦ rw g (ground (arith, a, d, eq_iff v s))
          ];
    }

pub human_audience-contains :
    (p : Workload) (scopes audiences : List String) (a : String)
    → contains (human_audience p scopes audiences) a
      ≡ (contains audiences a && is_issued_for p a scopes)
unfolding human_audience contains
human_audience-contains p scopes [] a = refl
human_audience-contains p scopes (x ∷ rest) a =
    let ih = human_audience-contains p scopes rest a in
    elim (Bool-cases (str_eq a x)) [
      | inl e ↦
          let q = (eq_iff a x).0 e in
          elim (Bool-cases (is_issued_for p x scopes)) [
            | inl b ↦ rw b (rw q (rw b (rw (eq_refl x) refl)))
            | inr b ↦ rw b (let c : is_issued_for p a scopes ≡ false = cc in ground (arith, ih, c))
          ]
      | inr e ↦ ground (arith, ih, e)
    ]

-- One of the scopes that the audience is issued for.
pub is_issued_for_lem :
    (p : Workload) (a : String) (scopes : List String)
    → is_issued_for p a scopes ≡ true
    → (s : String) × (contains scopes s ≡ true) × (contains (scope_audiences p s) a ≡ true)
unfolding is_issued_for contains
is_issued_for_lem p a [] h = cc
is_issued_for_lem p a (s ∷ rest) h = elim (Bool-cases (contains (scope_audiences p s) a)) [
  | inl e ↦ (s, (let q = eq_refl s in ground (arith, q)), e)
  | inr e ↦
      let (t, m, f) = is_issued_for_lem p a rest (ground (arith, e, h)) in (t, ground (arith, m), f)
]
