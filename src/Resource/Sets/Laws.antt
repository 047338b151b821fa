-- ===== src/Resource/Sets/Laws.antt =====
-- pkg/workloadresource/gate.go: the gate's `sameSet` against the one of internal/tokenprofile.
use mathlib.Core.List
use mathlib.Core.List.{Mem, Nodup, Nodup-nil, Nodup-cons, Perm, Subset}
use baobab_iam.Base.{
  String, true, false, List, [], ◌∷◌, ◌≡◌, refl, sym, ap, ◌∙◌, ◌↔◌, inl, inr, Bool-cases, length,
  contains, contains-of_Mem, Mem-of_contains, arith, eq_iff, eq_refl,
}
use baobab_iam.Token.Sets.{same_set}
use baobab_iam.Token.Sets.Laws.{same_set_iff, Nodup-Perm, length-Perm}
use baobab_iam.Resource.Sets.{distinct_from, distinct, all_in, same_members, contains_all}

distinct_from-Nodup :
    (seen values : List String)
    → distinct_from seen values ≡ true
    → Nodup values × ((v : String) → contains values v ≡ true → contains seen v ≡ false)
unfolding distinct_from contains
distinct_from-Nodup seen [] h = (Nodup-nil, λ v p. cc)
distinct_from-Nodup seen (x ∷ rest) h =
    let (later, fresh) = distinct_from-Nodup (x ∷ seen) rest (ground arith) in
    (
      Nodup-cons.1 (
        λ m.
            let z = fresh x (contains-of_Mem rest x m) in let w = eq_refl x in ground (arith, z, w),
        later,
      ),
      λ v p. let z = fresh v in ground (arith, z, eq_iff v x),
    )

Nodup-distinct_from :
    (seen values : List String)
    → Nodup values
    → ((v : String) → contains values v ≡ true → contains seen v ≡ false)
    → distinct_from seen values ≡ true
unfolding distinct_from contains
Nodup-distinct_from seen [] d f = refl
Nodup-distinct_from seen (x ∷ rest) d f =
    let (first, others) = Nodup-cons.0 d in
    let ih = Nodup-distinct_from (x ∷ seen) rest others (λ v p.
      let a = f v in
      elim (Bool-cases (contains (x ∷ []) v)) [
        | inl e ↦ absurd (
            first (
              Mem-of_contains rest x
                (ap (contains rest) (sym ((eq_iff v x).0 (ground (arith, e)))) ∙ p)))
        | inr e ↦ ground (arith, a, e)
      ]) in
    let new = f x in ground (arith, new, ih, eq_refl x)

-- `distinct` accepts exactly the lists in which no text stands twice.
pub distinct_iff : (values : List String) → (distinct values ≡ true) ↔ Nodup values
unfolding distinct contains
distinct_iff values =
    (λ h. (distinct_from-Nodup [] values h).0, λ d. Nodup-distinct_from [] values d (λ v p. refl))

all_in-within :
    (actual needed : List String)
    → all_in actual needed ≡ true
    → (v : String) → contains needed v ≡ true
    → contains actual v ≡ true
unfolding all_in contains
all_in-within actual [] h v p = cc
all_in-within actual (x ∷ rest) h v p =
    let ih = all_in-within actual rest (ground arith) v in ground (arith, ih, eq_iff v x)

within-all_in :
    (actual needed : List String)
    → ((v : String) → contains needed v ≡ true → contains actual v ≡ true)
    → all_in actual needed ≡ true
unfolding all_in contains
within-all_in actual [] f = refl
within-all_in actual (x ∷ rest) f =
    let ih = within-all_in actual rest (λ v p. f v (ground (arith, p))) in
    let here = f x in ground (arith, here, ih, eq_refl x)

pub all_in_iff :
    (actual needed : List String) → (all_in actual needed ≡ true) ↔ Subset needed actual
all_in_iff actual needed = (
  λ h v m. Mem-of_contains actual v (all_in-within actual needed h v (contains-of_Mem needed v m)),
  λ s.
      within-all_in actual needed
        (λ v p. contains-of_Mem actual v (s v (Mem-of_contains needed v p))),
)

-- `containsAll` accepts exactly the lists without a repetition that hold every text needed.
pub contains_all_iff :
    (actual needed : List String)
    → (contains_all actual needed ≡ true) ↔ (Nodup actual × Subset needed actual)
unfolding contains_all
contains_all_iff actual needed = (
  λ h. ((distinct_iff actual).0 (ground arith), (all_in_iff actual needed).0 (ground arith)),
  λ r.
      let d = (distinct_iff actual).1 r.0 in
      let a = (all_in_iff actual needed).1 r.1 in ground (arith, d, a),
)

pub same_members_iff : (a b : List String) → (same_members a b ≡ true) ↔ (Nodup a × Perm a b)
unfolding same_members
same_members_iff a b = (
  λ h.
      let d = (distinct_iff a).0 (ground arith) in
      let e = (distinct_iff b).0 (ground arith) in
      let s = (all_in_iff b a).0 (ground arith) in
      let l : length a ≡ length b = ground arith in (d, Nodup-Perm a b d s l),
  λ r.
      let d = (distinct_iff a).1 r.0 in
      let e = (distinct_iff b).1 (List.Perm.nodup r.1 r.0) in
      let s = (all_in_iff b a).1 (λ v m. List.Perm.subset r.1 v m) in
      let l = length-Perm a b r.1 in ground (arith, d, e, s, l),
)

-- The resource's `sameSet` and the issuer's, which are written apart and in different ways, decide
-- alike on all lists: both accept the permutations of a list without a repetition.
pub same_members-same_set : (a b : List String) → same_members a b ≡ same_set a b
same_members-same_set a b =
    let m = same_members_iff a b in
    let s = same_set_iff a b in
    elim (Bool-cases (same_members a b)) [
      | inl e ↦ e ∙ sym (s.1 (m.0 e))
      | inr e ↦ elim (Bool-cases (same_set a b)) [
        | inl f ↦ absurd (let g = m.1 (s.0 f) in cc)
        | inr f ↦ e ∙ sym f
      ]
    ]
