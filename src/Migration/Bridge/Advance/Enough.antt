-- ===== src/Migration/Bridge/Advance/Enough.antt =====
-- internal/migration/bridge.go: the number of rounds of `advanceTo`.
use baobab_iam.Base.{
  ℕ, zero, suc, ◌≤◌, ◌<◌, String, true, false, none, some, ◌≡◌, refl, inl, inr, arith, ltb,
  Bool-cases, Option-cases,
}
use baobab_iam.Result.{Result, ok, err}
use baobab_iam.Action.{resume}
use baobab_iam.Migration.Errors.{Error, cannot_advance}
use baobab_iam.Migration.Types.{Row, MigrationState, discovered, validated, ready, provisioning}
use baobab_iam.Migration.Store.{IsLawful}
use baobab_iam.Migration.Service.{Service, apply_transition}
use baobab_iam.Migration.Service.Effect.{Ends-ok, Advanced, apply_transition-Ends}
use baobab_iam.Migration.Ledger.History.Identity.{advance_keeps}
use baobab_iam.Migration.Bridge.Advance.{state_order, next_happy, advance_loop}

-- The moves that the happy path has left before PROVISIONED.
left : MigrationState → ℕ
left discovered = 4
left validated = 3
left ready = 2
left provisioning = 1
left _ = 0

left-next_happy : (s t : MigrationState) → next_happy s ≡ some t → left s ≡ suc (left t)
unfolding left next_happy
left-next_happy s t h = ground arith

left_le : (s : MigrationState) → left s ≤ 4
unfolding left
left_le s = ground arith

module _ {S : Type 0} (svc : Service S) where
  -- How Go's loop runs, round by round and without fuel: from a row and a store to its result and the
  -- store at its end. The bound has no rule here: a loop that runs does not end for want of fuel.
  pub data Runs (id : String) (to : MigrationState) (end : Result Error (Unit {0}) × S)
      : Row → S → Type 0 where
    stops :
        (r : Row) (s : S)
        → ltb (state_order r.migration_state) (state_order to) ≡ false
        → end ≡ (ok tt, s)
        → Runs id to end r s
    stuck :
        (r : Row) (s : S)
        → ltb (state_order r.migration_state) (state_order to) ≡ true
        → next_happy r.migration_state ≡ none
        → end ≡ (err cannot_advance, s)
        → Runs id to end r s
    refused :
        (r : Row) (s : S) (t : MigrationState) (e : Error) (u : S)
        → ltb (state_order r.migration_state) (state_order to) ≡ true
        → next_happy r.migration_state ≡ some t
        → apply_transition svc id t s ≡ (err e, u)
        → end ≡ (err e, u)
        → Runs id to end r s
    moves :
        (r : Row) (s : S) (t : MigrationState) (moved : Row) (u : S)
        → ltb (state_order r.migration_state) (state_order to) ≡ true
        → next_happy r.migration_state ≡ some t
        → apply_transition svc id t s ≡ (ok moved, u)
        → Runs id to end moved u
        → Runs id to end r s

module _ {S : Type 0} (svc : Service S) (laws : IsLawful svc.store) where
  open laws use {view, IsWell}

  -- A round that succeeds leaves one move less.
  round_left :
      (id : String) (t : MigrationState) (r out : Row) (s : S)
      → IsWell s
      → next_happy r.migration_state ≡ some t
      → (apply_transition svc id t s).0 ≡ ok out
      → IsWell (apply_transition svc id t s).1
        × (left r.migration_state ≡ suc (left out.migration_state))
  round_left id t r out s h e done =
      let p = apply_transition svc id t s in
      let (well, a) =
        Ends-ok svc laws (Advanced svc laws id t (view s)) (view s) p out
          (apply_transition-Ends svc laws id t s h) done in
      let (same, moved) = advance_keeps a.time t a.old out a.effect in
      (well, rw moved (left-next_happy r.migration_state t e))

  -- A round, by what the move returned.
  round-Runs :
      (fuel : ℕ) (id : String) (to t : MigrationState) (r : Row) (s : S) (p : Result Error Row × S)
      → apply_transition svc id t s ≡ p
      → ltb (state_order r.migration_state) (state_order to) ≡ true
      → next_happy r.migration_state ≡ some t
      → ((moved : Row)
          → p.0 ≡ ok moved
          → Runs svc id to (advance_loop svc fuel id to moved p.1) moved p.1)
      → Runs svc id to (resume p.0 (advance_loop svc fuel id to) p.1) r s
  round-Runs fuel id to t r s (ok moved, u) e go next rest =
      moves r s t moved u go next e (rest moved refl)
  round-Runs fuel id to t r s (err x, u) e go next rest = refused r s t x u go next e refl

  loop-Runs :
      (fuel : ℕ) (id : String) (to : MigrationState) (r : Row) (s : S)
      → IsWell s
      → left r.migration_state < fuel
      → Runs svc id to (advance_loop svc fuel id to r s) r s
  unfolding advance_loop
  loop-Runs zero id to r s h p = absurd (omega arith)
  loop-Runs (suc fuel) id to r s h p =
      elim (Bool-cases (ltb (state_order r.migration_state) (state_order to))) [
        | inr stop ↦ rw stop (stops r s stop refl)
        | inl go ↦ elim (Option-cases (next_happy r.migration_state)) [
          | inl e ↦ rw (go, e) (stuck r s go e refl)
          | inr (t, e) ↦
              rw (go, e)
                (round-Runs fuel id to t r s (apply_transition svc id t s) refl go e λ out done.
                  let (well, fewer) = round_left id t r out s h e done in
                  loop-Runs fuel id to out (apply_transition svc id t s).1 well (omega arith))
        ]
      ]

  -- On a well-formed store five rounds are enough, and the loop of `advanceTo` ends: with any fuel from
  -- there on, what is returned and stored is what the loop without fuel comes to, whatever the row, the
  -- state to reach and the answers of the store. It stops at a row that is not before the state to
  -- reach, or at the first error of a move, or at a row without a next state, with the error for that.
  pub advance_loop_enough :
      (fuel : ℕ) (id : String) (to : MigrationState) (r : Row) (s : S)
      → 5 ≤ fuel
      → IsWell s
      → Runs svc id to (advance_loop svc fuel id to r s) r s
  advance_loop_enough fuel id to r s enough h =
      loop-Runs fuel id to r s h (omega (arith, left_le r.migration_state))
