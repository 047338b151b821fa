-- ===== src/Migration/Validate/Spelling.antt =====
-- internal/migration/types.go: a marker in a text, in letters of either case, is still there when
-- the text is trimmed and in lower case, as the scan reads it.
use Prim.Native.Char.{code}
use baobab_iam.Base.{
  ℕ, ◌+◌, ◌≤◌, String, codes, Bool, true, false, not, ◌&&◌, List, [], ◌∷◌, ◌++◌, map, ◌≡◌, refl, ap,
  ◌∙◌, ◌⊎◌, inl, inr, arith, Bool-cases, ◌==◌, is_empty, is_space, trim_left, trim_right,
  trim_space,
}
use baobab_iam.Migration.Validate.{lower_ascii}

-- A character is a given one, or an ASCII capital where that is the small letter.
abbrev IsLetter : ℕ → ℕ → Type 0
IsLetter c d = (c ≡ d) ⊎ ((65 ≤ c) × (c ≤ 90) × (d ≡ c + 32))

-- The characters spell a word, in letters of either case.
abbrev pub Spells : List ℕ → List ℕ → Type 0
Spells [] [] = Unit
Spells (c ∷ cs) (d ∷ ds) = IsLetter c d × Spells cs ds
Spells _ _ = ⊥

-- A word without capitals and spaces.
abbrev pub is_plain : List ℕ → Bool
is_plain [] = true
is_plain (d ∷ ds) = (not (is_space d) && lower_ascii d == d) && is_plain ds

-- Characters none of which is a space.
abbrev IsSolid : List ℕ → Type 0
IsSolid [] = Unit
IsSolid (c ∷ cs) = (is_space c ≡ false) × IsSolid cs

letter_lem :
    (c d : ℕ)
    → IsLetter c d
    → (not (is_space d) && lower_ascii d == d) ≡ true
    → (lower_ascii c ≡ d) × (is_space c ≡ false)
unfolding lower_ascii is_space
letter_lem c d h p = ground (arith, h, p)

spells_lem :
    (cs ds : List ℕ) → Spells cs ds → is_plain ds ≡ true → (map lower_ascii cs ≡ ds) × IsSolid cs
spells_lem [] [] h p = (refl, tt)
spells_lem [] (d ∷ ds) h p = absurd h
spells_lem (c ∷ cs) [] h p = absurd h
spells_lem (c ∷ cs) (d ∷ ds) h p =
    let (low, solid) = letter_lem c d h.0 (ground (arith, p)) in
    let (lows, solids) = spells_lem cs ds h.1 (ground (arith, p)) in
    (cc (low, lows), (solid, solids))

map-append :
    (xs ys : List ℕ) → map lower_ascii (xs ++ ys) ≡ map lower_ascii xs ++ map lower_ascii ys
map-append [] ys = refl
map-append (x ∷ xs) ys = ap (λ (zs : List ℕ). lower_ascii x ∷ zs) (map-append xs ys)

head_same : (c d : ℕ) (xs ys : List ℕ) → c ∷ xs ≡ d ∷ ys → (c ≡ d) × (xs ≡ ys)
head_same c d xs ys h = (cc, cc)

trim_left_keeps :
    (v : String) (pre mid post : List ℕ) (c : ℕ)
    → is_space c ≡ false
    → codes v ≡ pre ++ (c ∷ mid ++ post)
    → (front : List ℕ) × (codes (trim_left v) ≡ front ++ (c ∷ mid ++ post))
unfolding trim_left
trim_left_keeps String.[] pre mid post c solid h = (pre, h)
trim_left_keeps (String.◌∷◌ x s) [] mid post c solid h =
    let (same, _) = head_same (code x) c (codes s) (mid ++ post) h in
    let still : is_space (code x) ≡ false = cc in rw still ([], h)
trim_left_keeps (String.◌∷◌ x s) (p ∷ pre) mid post c solid h =
    elim (Bool-cases (is_space (code x))) [
      | inl e ↦
          let (_, rest) = head_same (code x) p (codes s) (pre ++ (c ∷ mid ++ post)) h in
          rw e (trim_left_keeps s pre mid post c solid rest)
      | inr e ↦ rw e (p ∷ pre, h)
    ]

trim_right_keeps :
    (v : String) (mid post : List ℕ)
    → IsSolid mid
    → codes v ≡ mid ++ post
    → (back : List ℕ) × (codes (trim_right v) ≡ mid ++ back)
unfolding trim_right
trim_right_keeps v [] post solid h = (codes (trim_right v), refl)
trim_right_keeps String.[] (c ∷ mid) post solid h = cc
trim_right_keeps (String.◌∷◌ x s) (c ∷ mid) post solid h =
    let (same, rest) = head_same (code x) c (codes s) (mid ++ post) h in
    let (back, kept) = trim_right_keeps s mid post solid.1 rest in
    let still : is_space (code x) ≡ false = cc (same, solid.0) in
    let front : (is_empty (trim_right s) && is_space (code x)) ≡ false = ground (arith, still) in
    (back, rw front (cc (same, kept)))

not_empty :
    (v : String) (pre mid back : List ℕ) (c : ℕ)
    → codes v ≡ pre ++ (c ∷ mid ++ back)
    → is_empty v ≡ false
not_empty String.[] [] mid back c h = cc
not_empty String.[] (p ∷ pre) mid back c h = cc
not_empty (String.◌∷◌ x s) pre mid back c h = refl

trim_right_inside :
    (v : String) (pre mid post : List ℕ) (c : ℕ)
    → IsSolid (c ∷ mid)
    → codes v ≡ pre ++ (c ∷ mid ++ post)
    → (back : List ℕ) × (codes (trim_right v) ≡ pre ++ (c ∷ mid ++ back))
unfolding trim_right
trim_right_inside v [] mid post c solid h = trim_right_keeps v (c ∷ mid) post solid h
trim_right_inside String.[] (p ∷ pre) mid post c solid h = cc
trim_right_inside (String.◌∷◌ x s) (p ∷ pre) mid post c solid h =
    let (same, rest) = head_same (code x) p (codes s) (pre ++ (c ∷ mid ++ post)) h in
    let (back, kept) = trim_right_inside s pre mid post c solid rest in
    let full = not_empty (trim_right s) pre mid back c kept in
    let front : (is_empty (trim_right s) && is_space (code x)) ≡ false = ground (arith, full) in
    (back, rw front (cc (same, kept)))

-- A word that a text spells is in the trimmed text, in small letters.
pub spelled_in_trimmed :
    (v : String) (pre piece post : List ℕ) (d : ℕ) (word : List ℕ)
    → Spells piece (d ∷ word)
    → is_plain (d ∷ word) ≡ true
    → codes v ≡ pre ++ (piece ++ post)
    → (front back : List ℕ) × (map lower_ascii (codes (trim_space v)) ≡ front ++ (d ∷ word ++ back))
unfolding trim_space
spelled_in_trimmed v pre [] post d word h p e = absurd h
spelled_in_trimmed v pre (c ∷ piece) post d word h p e =
    let (low, solid) = spells_lem (c ∷ piece) (d ∷ word) h p in
    let (front, left) = trim_left_keeps v pre piece post c solid.0 e in
    let (back, kept) = trim_right_inside (trim_left v) front piece post c solid left in
    let split = map-append front (c ∷ piece ++ back) in
    let split' = map-append (c ∷ piece) back in
    (
      map lower_ascii front,
      map lower_ascii back,
      ap (map lower_ascii) kept
          ∙ split
          ∙ ap (λ (zs : List ℕ). map lower_ascii front ++ zs)
              (split' ∙ ap (λ (zs : List ℕ). zs ++ map lower_ascii back) low),
    )
