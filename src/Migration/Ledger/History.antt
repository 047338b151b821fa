-- ===== src/Migration/Ledger/History.antt =====
-- What becomes of one row under any sequence of ledger steps. A relation between rows that each kind
-- of step respects holds between the row as it was and the row as it is found later.
pub mod Identity
pub mod Policy
use baobab_iam.Base.{
  ℕ, String, true, false, some, ◌≡◌, refl, sym, ◌∙◌, ap, ◌⊎◌, inl, inr, str_eq, eq_iff, Bool-cases,
}
use mathlib.Core.Path.{subst}
use baobab_iam.Result.{ok}
use baobab_iam.Migration.Types.{Row, MigrationState, ProviderBinding}
use baobab_iam.Migration.State.{can_transition, is_parking}
use baobab_iam.Migration.State.Laws.{IsResolved}
use baobab_iam.Migration.Store.{View, Written}
use baobab_iam.Migration.Service.{PolicyGate}
use baobab_iam.Migration.Service.Effect.{advanced}
use baobab_iam.Migration.Ledger.{Step, appear, advance, bind_target, mark, Reach, here, next}

-- A relation between a row and what later became of it.
pub record Respects (gate : PolicyGate) (Rel : Row → Row → Type 0) : Type 0 where
  pub stays : (r : Row) → Rel r r
  pub chain : (r s t : Row) → Rel r s → Rel s t → Rel r t
  pub same_id : (r r' : Row) → Rel r r' → r'.migration_id ≡ r.migration_id
  pub on_advance :
      (r r' : Row) (n : ℕ) (to : MigrationState)
      → can_transition r.migration_state to ≡ true
      → gate r.migration_id r.migration_state to ≡ ok tt
      → IsResolved r ⊎ (is_parking to ≡ true)
      → r' ≡ record (advanced n to r) { revision = r'.revision }
      → Rel r r'
  pub on_bind :
      (r r' : Row) (t : ProviderBinding)
      → r' ≡ record r { revision = r'.revision; target = t }
      → Rel r r'
  pub on_mark :
      (r r' : Row) (code : String)
      → r' ≡ record r { revision = r'.revision; last_error_code = code }
      → Rel r r'

-- The row that is found under the id of `r` in `w`, with how it is related to `r`.
pub record Descends (Rel : Row → Row → Type 0) (r : Row) (w : View) : Type 0 where
  pub row : Row
  pub found : w r.migration_id ≡ some row
  pub related : Rel r row

module _ {gate : PolicyGate} {Rel : Row → Row → Type 0} (laws : Respects gate Rel) where
  untouched :
      (v w : View) (r r' : Row)
      → v r.migration_id ≡ some r
      → Written v r' w
      → str_eq r.migration_id r'.migration_id ≡ false
      → Descends Rel r w
  untouched v w r r' held put other = record {
    row = r;
    found = put r.migration_id ∙ rw other held;
    related = laws.stays r;
  }

  -- A write of `r'` over the row `r₀` that it descends from.
  overwritten :
      (v w : View) (r r₀ r' : Row)
      → v r.migration_id ≡ some r
      → v r₀.migration_id ≡ some r₀
      → Rel r₀ r'
      → Written v r' w
      → Descends Rel r w
  overwritten v w r r₀ r' held old related put =
      elim (Bool-cases (str_eq r.migration_id r'.migration_id)) [
        | inr other ↦ untouched v w r r' held put other
        | inl it ↦
            let key : r.migration_id ≡ r₀.migration_id =
              (eq_iff _ _).0 it ∙ laws.same_id r₀ r' related in
            let p : some r₀ ≡ some r = sym old ∙ (ap v (sym key) ∙ held) in
            let q : r₀ ≡ r = cc in
            subst (λ x. Descends Rel x w) q
              (record { row = r'; found = put r₀.migration_id ∙ rw (← key, it); related = related })
      ]

  Step-Descends :
      {v w : View} (r : Row) → v r.migration_id ≡ some r → Step gate v w → Descends Rel r w
  Step-Descends {v = v} {w = w} r held (appear r' missing passes put) =
      elim (Bool-cases (str_eq r.migration_id r'.migration_id)) [
        | inr other ↦ untouched v w r r' held put other
        | inl it ↦ cc (ap v ((eq_iff r.migration_id r'.migration_id).0 it), held, missing)
      ]
  Step-Descends {v = v} {w = w} r held (advance r₀ r' n to old edge allowed resolved e passes put) =
      overwritten v w r r₀ r' held old (laws.on_advance r₀ r' n to edge allowed resolved e) put
  Step-Descends {v = v} {w = w} r held (bind_target r₀ r' t old e passes put) =
      overwritten v w r r₀ r' held old (laws.on_bind r₀ r' t e) put
  Step-Descends {v = v} {w = w} r held (mark r₀ r' code old e passes put) =
      overwritten v w r r₀ r' held old (laws.on_mark r₀ r' code e) put

  -- One more step.
  Descends-Step : {w u : View} (r : Row) → Descends Rel r w → Step gate w u → Descends Rel r u
  Descends-Step {w = w} {u = u} r d st =
      let key = laws.same_id r d.row d.related in
      let d' = Step-Descends d.row (ap w key ∙ d.found) st in
      record {
        row = d'.row;
        found = ap u (sym key) ∙ d'.found;
        related = laws.chain r d.row d'.row d.related d'.related;
      }

  pub Reach-Descends :
      {v w : View} (r : Row) → v r.migration_id ≡ some r → Reach gate v w → Descends Rel r w
  Reach-Descends r held here = record { row = r; found = held; related = laws.stays r }
  Reach-Descends r held (next p st) = Descends-Step r (Reach-Descends r held p) st
