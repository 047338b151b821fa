-- ===== src/Token/Human/Laws.antt =====
-- internal/tokenprofile/human.go: what governed consent grants, and for whom human tokens are issued.
use mathlib.Core.List.{Nodup}
use baobab_iam.Base.{
  String, true, not, ◌||◌, List, [], Option, none, some, ◌≡◌, refl, sym, ap, ◌∙◌, inl, inr,
  Bool-cases, arith, eq_iff, str_eq, is_empty, contains,
}
use baobab_iam.Result.{Result, ok, err, ◌>>=◌, refuse_if, refuse_done, check_then}
use baobab_iam.Provider.Validate.{is_nil}
use baobab_iam.Token.Errors.{
  TokenError, consent_denied, openid_required, consent_scope_mismatch, profile_scope_required,
}
use baobab_iam.Token.Types.{HumanTokenProfile, Workload, Config}
use baobab_iam.Token.Hold.{tms_proposal_hold}
use baobab_iam.Token.Profile.{workload_of, is_registered}
use baobab_iam.Token.Human.Profile.{scope_audiences}
use baobab_iam.Token.Human.Scopes.{
  IsPicked, pick_scopes-IsPicked, human_audience-contains, is_issued_for_lem,
}
use baobab_iam.Token.Human.{
  consent_scopes, pick_scopes, human_audience, active_profile, human_consent,
}

-- The client may have human tokens, under a profile.
pub record IsActiveClient (c : Config) (id : String) (h : HumanTokenProfile) : Type 0 where
  pub registered : is_registered c id ≡ true
  pub active : (workload_of c id).status ≡ "ACTIVE"
  pub at_home : (workload_of c id).environment ≡ c.environment
  pub has_profile : (workload_of c id).human_token_profile ≡ some h

pub active_profile-IsActiveClient :
    (e : TokenError) (c : Config) (id : String) (p : Workload) (h : HumanTokenProfile)
    (o : Option HumanTokenProfile)
    → p ≡ workload_of c id
    → p.human_token_profile ≡ o
    → active_profile e c id p o ≡ ok h
    → IsActiveClient c id h
active_profile-IsActiveClient e c id p h none q r a = cc
active_profile-IsActiveClient e c id p h (some g) q r a =
    elim (Bool-cases (
      not (is_registered c id)
      || not (str_eq p.status "ACTIVE")
      || is_empty p.environment
      || not (str_eq p.environment c.environment))) [
        | inl b ↦ absurd (let z = rw b at a in cc)
        | inr b ↦
            let z = rw b at a in
            let s = (eq_iff p.status "ACTIVE").0 (ground (arith, b)) in
            let n = (eq_iff p.environment c.environment).0 (ground (arith, b)) in
            record {
              registered = ground (arith, b);
              active = ap (λ (w : Workload). w.status) (sym q) ∙ s;
              at_home = ap (λ (w : Workload). w.environment) (sym q) ∙ n;
              has_profile = cc;
            }
      ]

-- What a chain that goes on with a value returned.
pub result_then :
    {A B : Type 0} (m : Result TokenError A) (f : A → Result TokenError B) (b : B)
    → (m >>= f) ≡ ok b
    → (a : A) × (m ≡ ok a) × (f a ≡ ok b)
result_then (ok a) f b h = (a, refl, h)
result_then (err e) f b h = cc

-- The audience is issued for a scope of the profile that is among the scopes.
abbrev pub IsEarned : Workload → HumanTokenProfile → List String → String → Type 0
IsEarned p h scopes audience =
    (s : String) × (contains scopes s ≡ true)
    × (contains h.scopes s ≡ true)
    × (contains (scope_audiences p s) audience ≡ true)

pub earned :
    (p : Workload) (h : HumanTokenProfile) (beside scopes granted : List String) (a : String)
    → IsPicked h.scopes beside [] scopes granted
    → contains (human_audience p granted h.audiences) a ≡ true
    → (contains h.audiences a ≡ true) × IsEarned p h scopes a
earned p h beside scopes granted a picked q =
    let r = human_audience-contains p granted h.audiences a in
    let (s, m, f) = is_issued_for_lem p a granted (ground (arith, r, q)) in
    let n = picked.picked s in
    (ground (arith, r, q), (s, ground (arith, n, m), ground (arith, n, m), f))

-- What governed consent decided.
pub record IsConsented (c : Config) (id : String) (requested audience : List String)
    (h : HumanTokenProfile) : Type 0 where
  pub client : IsActiveClient c id h
  pub openid : contains requested "openid" ≡ true
  pub distinct : Nodup requested
  pub within :
      (s : String)
      → contains requested s ≡ true
      → (contains h.scopes s || contains consent_scopes s) ≡ true
  pub audiences_earned :
      (a : String)
      → contains audience a ≡ true
      → (contains h.audiences a ≡ true) × IsEarned (workload_of c id) h requested a

-- Governed consent is given only to an ACTIVE client of this environment with a human token profile,
-- for distinct scopes with openid among them, each a scope of the profile or one that may stand
-- beside. Each audience that it returns is one of the profile, issued for a profile scope asked for.
pub human_consent_lem :
    (c : Config) (id : String) (requested audience : List String)
    → human_consent c id requested ≡ ok audience
    → (h : HumanTokenProfile) × IsConsented c id requested audience h
unfolding human_consent
human_consent_lem c id requested audience q =
    let p = workload_of c id in
    let (_, a) = check_then (tms_proposal_hold id p) _ audience q in
    let (h, client, b) =
      result_then (active_profile consent_denied c id p p.human_token_profile) _ audience a in
    let (openid, d) =
      check_then (refuse_if (not (contains requested "openid")) openid_required) _ audience b in
    let (granted, picks, f) =
      result_then (pick_scopes consent_scope_mismatch h.scopes consent_scopes [] requested) _
        audience d in
    let (_, g) =
      check_then (refuse_if (is_nil granted) profile_scope_required)
        (ok (human_audience p granted h.audiences)) audience f in
    let o = refuse_done (not (contains requested "openid")) openid_required openid in
    let picked =
      pick_scopes-IsPicked consent_scope_mismatch h.scopes consent_scopes [] requested granted
        picks in
    let same : human_audience p granted h.audiences ≡ audience = cc in
    (
      h,
      record {
        client =
            active_profile-IsActiveClient consent_denied c id p h p.human_token_profile refl refl
              client;
        openid = ground (arith, o);
        distinct = picked.distinct;
        within = picked.within;
        audiences_earned = λ a m.
            earned p h consent_scopes requested granted a picked
              (ap (λ (l : List String). contains l a) same ∙ m);
      },
    )
