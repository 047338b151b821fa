-- ===== src/Token/Sets/Laws.antt =====
-- internal/tokenprofile/profile.go: `subset` and `sameSet` decide inclusion and equality of lists
-- that hold no text twice.
use mathlib.Core.List
use mathlib.Core.List.{
  Mem, Nodup, Nodup-cons, Nodup-nil, Perm, Subset, mem-cons, not-mem-nil, length as count_of,
}
use mathlib.Core.Nat.{le_of_eq, suc as succ}
use baobab_iam.Base.{
  String, true, false, List, [], ◌∷◌, ◌≡◌, refl, sym, ap, ◌∙◌, ◌↔◌, inl, inr, length, contains,
  Mem-of_contains, contains-of_Mem, Bool-cases, arith, suc, eq_iff, str_eq, eq_refl,
}
use baobab_iam.Token.Sets.{subset_from, subset, same_set}

-- What the loop of `subset` finds out, as a property.
pub record IsSubset (seen values allowed : List String) : Type 0 where
  pub distinct : Nodup values
  pub within : (v : String) → contains values v ≡ true → contains allowed v ≡ true
  pub fresh : (v : String) → contains values v ≡ true → contains seen v ≡ false

subset_from-IsSubset :
    (seen values allowed : List String)
    → subset_from seen values allowed ≡ true
    → IsSubset seen values allowed
unfolding subset_from contains
subset_from-IsSubset seen [] allowed h = record {
  distinct = Nodup-nil;
  within = λ v p. cc;
  fresh = λ v p. cc;
}
subset_from-IsSubset seen (value ∷ rest) allowed h =
    let later : IsSubset (value ∷ seen) rest allowed =
      subset_from-IsSubset (value ∷ seen) rest allowed (ground arith) in
    record {
      distinct = Nodup-cons.1 (
        λ m.
            let a = later.fresh value (contains-of_Mem rest value m) in
            let e = eq_refl value in ground (arith, e),
        later.distinct,
      );
      within = λ v p. let a = later.within v in ground (arith, a, eq_iff v value);
      fresh = λ v p. let a = later.fresh v in ground (arith, a, eq_iff v value);
    }

IsSubset-subset_from :
    (seen values allowed : List String)
    → Nodup values
    → Subset values allowed
    → ((v : String) → contains values v ≡ true → contains seen v ≡ false)
    → subset_from seen values allowed ≡ true
unfolding subset_from contains
IsSubset-subset_from seen [] allowed d s f = refl
IsSubset-subset_from seen (value ∷ rest) allowed d s f =
    let (first, others) = Nodup-cons.0 d in
    let ih =
      IsSubset-subset_from (value ∷ seen) rest allowed others (λ v m. s v (mem-cons.1 ∣ inr m ∣₁))
        (λ v p.
          let a = f v in
          elim (Bool-cases (str_eq v value)) [
            | inl e ↦
                let q = first (
                  Mem-of_contains rest value
                    (ap (contains rest) (sym ((eq_iff v value).0 e)) ∙ p)) in
                absurd q
            | inr e ↦ ground (arith, a)
          ]) in
    let here = contains-of_Mem allowed value (s value (mem-cons.1 ∣ inl refl ∣₁)) in
    let new = f value in ground (arith, here, new, ih, eq_refl value)

-- The library's count of a list agrees with ours.
count-length : (a b : List String) → length a ≡ length b → count_of a ≡ count_of b
count-length [] [] h = refl
count-length [] (y ∷ b) h = absurd (omega arith)
count-length (x ∷ a) [] h = absurd (omega arith)
count-length (x ∷ a) (y ∷ b) h = ap succ (count-length a b (omega arith))

-- Lists of one length, the first without a repetition and within the second, are permutations.
pub Nodup-Perm : (a b : List String) → Nodup a → Subset a b → length a ≡ length b → Perm a b
Nodup-Perm a b d s e =
    List.Subperm.perm_of_length_le (List.Nodup.subperm d s) (le_of_eq (sym (count-length a b e)))

length-count : (a b : List String) → count_of a ≡ count_of b → length a ≡ length b
length-count [] [] h = refl
length-count [] (y ∷ b) h = cc
length-count (x ∷ a) [] h = cc
length-count (x ∷ a) (y ∷ b) h = ap suc (length-count a b (cc))

pub length-Perm : (a b : List String) → Perm a b → length a ≡ length b
length-Perm a b p = length-count a b (List.Perm.length-eq p)

-- `subset` accepts exactly the lists without a repetition, every text of which is allowed.
pub subset_iff :
    (values allowed : List String)
    → (subset values allowed ≡ true) ↔ (Nodup values × Subset values allowed)
unfolding subset contains
subset_iff values allowed = (
  λ h.
      let r = subset_from-IsSubset [] values allowed h in
      (r.distinct, λ v m. Mem-of_contains allowed v (r.within v (contains-of_Mem values v m))),
  λ r. IsSubset-subset_from [] values allowed r.0 r.1 (λ v p. refl),
)

-- `sameSet` accepts exactly the permutations of a list in which no text stands twice: a second list
-- that repeats a text is never accepted, though only the first is searched for repetitions.
pub same_set_iff : (a b : List String) → (same_set a b ≡ true) ↔ (Nodup a × Perm a b)
unfolding same_set
same_set_iff a b = (
  λ h.
      let (d, s) = (subset_iff a b).0 (ground arith) in
      let e : length a ≡ length b = ground arith in (d, Nodup-Perm a b d s e),
  λ r.
      let e = length-Perm a b r.1 in
      let s = (subset_iff a b).1 (r.0, λ v m. List.Perm.subset r.1 v m) in ground (arith, e, s),
)
