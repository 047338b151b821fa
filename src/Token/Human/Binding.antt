-- ===== src/Token/Human/Binding.antt =====
-- internal/tokenprofile/consent_seal.go: a seal stands for one consent decision only.
use mathlib.Core.List
use mathlib.Core.List.{Perm}
use mathlib.Core.Path.{subst}
use Prim.Native.Char.{nul}
use Prim.Native.String.{◌++◌}
use Prim.Native.String.append
use baobab_iam.Base.{
  ℕ, String, true, false, ◌||◌, List, [], ◌∷◌, some, ◌≡◌, refl, sym, ap, ◌∙◌, inl, inr, Bool-cases,
  arith, eq_iff, has_code, contains_any, join, split, ltb, length,
}
use baobab_iam.Result.{
  ok, Result-cases, refuse_if, for_each, for_each-Every, Every, Every-map, refuse_done, check_then,
}
use baobab_iam.Provider.Validate.{is_nil}
use baobab_iam.Token.Errors.{noncanonical_consent, incomplete_consent}
use baobab_iam.Token.Types.{HumanConsentSeal}
use baobab_iam.Token.Split.{split-join}
use baobab_iam.Token.Profile.{space}
use baobab_iam.Token.Human.Seal.{
  insert_sorted, sort_texts, leq_texts, consent_separators, is_bad_consent_value, canonical_consent,
  sealed_parts, consent_seal_message, seal_human_consent, verify_human_consent,
  min_consent_seal_key_bytes,
}

contains_any-has_code :
    (n : ℕ) (s chars : String)
    → has_code n chars ≡ true
    → contains_any s chars ≡ false
    → has_code n s ≡ false
unfolding has_code contains_any
contains_any-has_code n String.[] chars h q = refl
contains_any-has_code n (String.◌∷◌ c s) chars h q =
    let ih = contains_any-has_code n s chars h (ground arith) in ground (arith, ih)

-- A value that stands apart from its neighbours in the sealed form.
pub record IsPlain (s : String) : Type 0 where
  pub no_space : has_code 32 s ≡ false
  pub no_nul : has_code 0 s ≡ false

canonical_consent-IsPlain : (s : String) → canonical_consent s ≡ ok tt → IsPlain s
unfolding is_bad_consent_value has_code
canonical_consent-IsPlain s h =
    let q = refuse_done (is_bad_consent_value s) noncanonical_consent h in
    let r : contains_any s consent_separators ≡ false = ground (arith, q) in
    record {
      no_space = contains_any-has_code 32 s consent_separators refl r;
      no_nul = contains_any-has_code 0 s consent_separators refl r;
    }

has_code-append : (n : ℕ) (s t : String) → has_code n (s ++ t) ≡ (has_code n s || has_code n t)
unfolding has_code
has_code-append n String.[] t = rw append.nil refl
has_code-append n (String.◌∷◌ c s) t =
    rw append.cons (let ih = has_code-append n s t in ground (arith, ih))

join-no_nul : (xs : List String) → Every IsPlain xs → has_code 0 (join space xs) ≡ false
unfolding join has_code
join-no_nul [] h = refl
join-no_nul (x ∷ []) h = h.0.no_nul
join-no_nul (x ∷ (y ∷ rest)) h =
    let ih = join-no_nul (y ∷ rest) h.1 in
    let a = h.0.no_nul in
    let e = has_code-append 0 x (String.◌∷◌ space (join space (y ∷ rest))) in
    ground (arith, e, a, ih)

-- What a message is made of.
pub record IsMessage (id client subject : String) (sorted audience : List String) (m : String)
    : Type 0 where
  pub names : Every IsPlain (id ∷ client ∷ subject ∷ [])
  pub scopes : Every IsPlain sorted
  pub audiences : Every IsPlain audience
  pub some_scope : is_nil sorted ≡ false
  pub some_audience : is_nil audience ≡ false
  pub text : m ≡ join nul (sealed_parts id client subject sorted audience)

consent_seal_message-IsMessage :
    (id client subject : String) (scopes audience : List String) (m : String)
    → consent_seal_message id client subject scopes audience ≡ ok m
    → IsMessage id client subject (sort_texts scopes) audience m
unfolding consent_seal_message
consent_seal_message-IsMessage id client subject scopes audience m h =
    let plain = λ (xs : List String) (q : for_each xs canonical_consent ≡ ok tt).
      Every-map xs canonical_consent-IsPlain (for_each-Every xs canonical_consent q) in
    let (n, a) = check_then (for_each (id ∷ client ∷ subject ∷ []) canonical_consent) _ m h in
    let (s, b) = check_then (for_each (sort_texts scopes) canonical_consent) _ m a in
    let (u, d) = check_then (for_each audience canonical_consent) _ m b in
    let (f, k) =
      check_then (refuse_if (is_nil (sort_texts scopes) || is_nil audience) incomplete_consent)
        (ok (join nul (sealed_parts id client subject (sort_texts scopes) audience))) m d in
    let g = refuse_done (is_nil (sort_texts scopes) || is_nil audience) incomplete_consent f in
    record {
      names = plain (id ∷ client ∷ subject ∷ []) n;
      scopes = plain (sort_texts scopes) s;
      audiences = plain audience u;
      some_scope = ground (arith, g);
      some_audience = ground (arith, g);
      text = cc;
    }

-- The parts of a message come back by splitting it.
IsMessage-split :
    (id client subject : String) (sorted audience : List String) (m : String)
    → IsMessage id client subject sorted audience m
    → split nul m ≡ sealed_parts id client subject sorted audience
unfolding has_code
IsMessage-split id client subject sorted audience m h =
    let (i, (c, (s, _))) = h.names in
    ap (split nul) h.text
    ∙ split-join nul "baobab-iam/human-consent/v1"
        (id ∷ client ∷ subject ∷ join space sorted ∷ join space audience ∷ [])
        (
          refl,
          (
            i.no_nul,
            (
              c.no_nul,
              (s.no_nul, (join-no_nul sorted h.scopes, (join-no_nul audience h.audiences, tt))),
            ),
          ),
        )

join-injective :
    (xs ys : List String)
    → is_nil xs ≡ false
    → is_nil ys ≡ false
    → Every IsPlain xs
    → Every IsPlain ys
    → join space xs ≡ join space ys
    → xs ≡ ys
join-injective [] ys a b h k e = cc
join-injective (x ∷ xs) [] a b h k e = cc
join-injective (x ∷ xs) (y ∷ ys) a b h k e =
    let plain = λ (v : String) (p : IsPlain v). p.no_space in
    sym (split-join space x xs (Every-map (x ∷ xs) plain h))
    ∙ ap (split space) e
    ∙ split-join space y ys (Every-map (y ∷ ys) plain k)

-- One message is the sealed form of one decision.
record IsSameDecision (id client subject : String) (scopes audience : List String)
    (id' client' subject' : String) (scopes' audience' : List String) : Type 0 where
  same_id : id ≡ id'
  same_client : client ≡ client'
  same_subject : subject ≡ subject'
  same_scopes : scopes ≡ scopes'
  same_audience : audience ≡ audience'

IsMessage-IsSameDecision :
    (id client subject : String) (scopes audience : List String) (id' client' subject' : String)
    (scopes' audience' : List String) (m : String)
    → IsMessage id client subject scopes audience m
    → IsMessage id' client' subject' scopes' audience' m
    → IsSameDecision id client subject scopes audience id' client' subject' scopes' audience'
IsMessage-IsSameDecision id client subject scopes audience id' client' subject' scopes' audience' m
      h k =
    let e =
      sym (IsMessage-split id client subject scopes audience m h)
      ∙ IsMessage-split id' client' subject' scopes' audience' m k in
    let s : join space scopes ≡ join space scopes' = cc in
    let a : join space audience ≡ join space audience' = cc in
    record {
      same_id = cc;
      same_client = cc;
      same_subject = cc;
      same_scopes = join-injective scopes scopes' h.some_scope k.some_scope h.scopes k.scopes s;
      same_audience =
          join-injective audience audience' h.some_audience k.some_audience h.audiences k.audiences
            a;
    }

insert_sorted-Perm : (x : String) (xs : List String) → Perm (insert_sorted x xs) (x ∷ xs)
unfolding insert_sorted
insert_sorted-Perm x [] = List.Perm.refl (x ∷ [])
insert_sorted-Perm x (y ∷ ys) = elim (Bool-cases (leq_texts x y)) [
  | inl e ↦ rw e (List.Perm.refl (x ∷ (y ∷ ys)))
  | inr e ↦
      rw e (List.Perm.trans (List.Perm.cons y (insert_sorted-Perm x ys)) (List.Perm.swap x y ys))
]

sort_texts-Perm : (xs : List String) → Perm (sort_texts xs) xs
unfolding sort_texts
sort_texts-Perm [] = List.Perm.refl []
sort_texts-Perm (x ∷ xs) =
    List.Perm.trans (insert_sorted-Perm x (sort_texts xs)) (List.Perm.cons x (sort_texts-Perm xs))

module _ (mac : List ℕ → String → String) (key : List ℕ) where
  seal_human_consent_lem :
      (id client subject : String) (scopes audience : List String) (s : HumanConsentSeal)
      → seal_human_consent mac key id client subject scopes audience ≡ ok s
      → (m : String) × (consent_seal_message id client subject scopes audience ≡ ok m)
        × (s.seal ≡ mac key m)
  unfolding seal_human_consent
  seal_human_consent_lem id client subject scopes audience s h =
      elim (Result-cases (consent_seal_message id client subject scopes audience)) [
        | inl (m, e) ↦ (
          m,
          e,
          let q = rw e at h in
              elim (Bool-cases (ltb (length key) min_consent_seal_key_bytes)) [
                | inl b ↦ let z = rw b at q in cc
                | inr b ↦ let z = rw b at q in cc
              ],
        )
        | inr (x, e) ↦ absurd (let q = rw e at h in cc)
      ]

  verify_human_consent_lem :
      (id client subject : String) (scopes audience : List String) (s : HumanConsentSeal)
      → verify_human_consent mac key (some s) id client subject scopes audience ≡ true
      → (m : String) × (consent_seal_message id client subject scopes audience ≡ ok m)
        × (s.seal ≡ mac key m)
  unfolding verify_human_consent
  verify_human_consent_lem id client subject scopes audience s h =
      elim (Result-cases (consent_seal_message id client subject scopes audience)) [
        | inl (m, e) ↦
            (m, e, let q = rw e at h in (eq_iff s.seal (mac key m)).0 (ground (arith, q)))
        | inr (x, e) ↦ absurd (let q = rw e at h in ground (arith, q))
      ]

  -- Under a keyed hash that no two texts share, a seal that was made for one consent decision is
  -- accepted for no other one: the consent request, the client, the subject and the audience are those
  -- that were sealed, and the scopes are the sealed ones up to their order.
  pub seal_binds :
      (id client subject : String) (scopes audience : List String) (id' client' subject' : String)
      (scopes' audience' : List String) (s : HumanConsentSeal)
      → ((m m' : String) → mac key m ≡ mac key m' → m ≡ m')
      → seal_human_consent mac key id client subject scopes audience ≡ ok s
      → verify_human_consent mac key (some s) id' client' subject' scopes' audience' ≡ true
      → (id ≡ id')
        × (client ≡ client')
        × (subject ≡ subject')
        × Perm scopes scopes'
        × (audience ≡ audience')
  seal_binds id client subject scopes audience id' client' subject' scopes' audience' s inj h v =
      let (m, e, p) = seal_human_consent_lem id client subject scopes audience s h in
      let (m', e', p') = verify_human_consent_lem id' client' subject' scopes' audience' s v in
      let same = inj m m' (sym p ∙ p') in
      let d =
        IsMessage-IsSameDecision id client subject (sort_texts scopes) audience id' client' subject'
          (sort_texts scopes') audience' m
          (consent_seal_message-IsMessage id client subject scopes audience m e)
          (consent_seal_message-IsMessage id' client' subject' scopes' audience' m
            (e' ∙ ap ok (sym same))) in
      (
        d.same_id,
        d.same_client,
        d.same_subject,
        List.Perm.trans (List.Perm.symm (sort_texts-Perm scopes))
            (subst (λ l. Perm l scopes') (sym d.same_scopes) (sort_texts-Perm scopes')),
        d.same_audience,
      )
