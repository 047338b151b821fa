-- ===== src/Result.antt =====
-- Go's calls that return an error.
use baobab_iam.Base.{Bool, true, false, ◌≡◌, refl, ◌⊎◌, inl, inr, List, [], ◌∷◌}

pub data Result {ℓ κ} (E : Type ℓ) (A : Type κ) : Type (ℓ ⊔ κ) where
  ok : A → Result E A
  err : E → Result E A

-- `if err != nil { return err }`
infixl 10 ◌>>=◌ ◌>>◌
abbrev pub ◌>>=◌ {ℓ κ λ'} :
    {E : Type ℓ} {A : Type κ} {B : Type λ'} → Result E A → (A → Result E B) → Result E B
ok a >>= f = f a
err e >>= f = err e

abbrev pub ◌>>◌ {ℓ κ λ'} :
    {E : Type ℓ} {A : Type κ} {B : Type λ'} → Result E A → Result E B → Result E B
m >> k = m >>= λ _. k

-- `if bad { return e }`
abbrev pub refuse_if {ℓ} : {E : Type ℓ} → Bool → E → Result E (Unit {0})
refuse_if true e = err e
refuse_if false e = ok tt

-- To split on how a call ended and keep the equation.
pub Result-cases {ℓ κ} :
    {E : Type ℓ} {A : Type κ} (r : Result E A) → ((a : A) × (r ≡ ok a)) ⊎ ((e : E) × (r ≡ err e))
Result-cases (ok a) = inl (a, refl)
Result-cases (err e) = inr (e, refl)

-- `for _, x := range xs { if err := f(x); err != nil { return err } }`
unfoldable pub for_each {ℓ κ} :
    {E : Type ℓ} {A : Type κ} → List A → (A → Result E (Unit {0})) → Result E (Unit {0})
for_each [] f = ok tt
for_each (x ∷ xs) f = f x >> for_each xs f

-- The property of every element of a list.
abbrev pub Every {ℓ κ} : {A : Type ℓ} → (A → Type κ) → List A → Type κ
Every P [] = Unit
Every P (x ∷ xs) = P x × Every P xs

pub then_done {ℓ} :
    {E : Type ℓ} (c d : Result E (Unit {0})) → c >> d ≡ ok tt → (c ≡ ok tt) × (d ≡ ok tt)
then_done (ok u) d h = (refl, h)
then_done (err e) d h = cc

pub refuse_done {ℓ} :
    {E : Type ℓ} (wrong : Bool) (e : E) → refuse_if wrong e ≡ ok tt → wrong ≡ false
refuse_done true e h = cc
refuse_done false e h = refl

-- A loop that ended had no element that its body refuses.
pub for_each-Every {ℓ κ} :
    {E : Type ℓ} {A : Type κ} (xs : List A) (f : A → Result E (Unit {0}))
    → for_each xs f ≡ ok tt
    → Every (λ x. f x ≡ ok tt) xs
unfolding for_each
for_each-Every [] f h = tt
for_each-Every (x ∷ xs) f h =
    let (a, b) = then_done (f x) (for_each xs f) h in (a, for_each-Every xs f b)

pub Every-map {ℓ κ λ'} :
    {A : Type ℓ} {P : A → Type κ} {Q : A → Type λ'} (xs : List A)
    → ((x : A) → P x → Q x)
    → Every P xs
    → Every Q xs
Every-map [] f h = tt
Every-map (x ∷ xs) f h = (f x h.0, Every-map xs f h.1)

-- What the steps of a chain that ends in `ok` returned.
pub check_then {ℓ κ} :
    {E : Type ℓ} {A : Type κ} (m : Result E (Unit {0})) (n : Result E A) (a : A)
    → m >> n ≡ ok a
    → (m ≡ ok tt) × (n ≡ ok a)
check_then (ok u) n a h = (refl, h)
check_then (err e) n a h = cc
