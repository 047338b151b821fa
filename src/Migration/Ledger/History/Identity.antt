-- ===== src/Migration/Ledger/History/Identity.antt =====
-- What a row keeps over any sequence of ledger steps.
use baobab_iam.Base.{ℕ, String, some, ◌≡◌, arith}
use baobab_iam.Migration.Types.{Row, MigrationState, ProviderBinding}
use baobab_iam.Migration.State.{count_attempt}
use baobab_iam.Migration.State.Graph.{Trail, start, move}
use baobab_iam.Migration.Store.{View}
use baobab_iam.Migration.Service.{PolicyGate, stamp}
use baobab_iam.Migration.Service.Effect.{advanced}
use baobab_iam.Migration.Ledger.{Reach}
use baobab_iam.Migration.Ledger.History.{Respects, Descends, Reach-Descends}

-- What a row keeps for ever: its id and batch, the canonical identity, the source, the class, the
-- credential strategy and the time of its creation.
pub record SameIdentity (r r' : Row) : Type 0 where
  pub same_id : r'.migration_id ≡ r.migration_id
  pub same_batch : r'.migration_batch_id ≡ r.migration_batch_id
  pub same_canonical : r'.canonical_identity_id ≡ r.canonical_identity_id
  pub same_source : r'.source ≡ r.source
  pub same_class : r'.identity_class ≡ r.identity_class
  pub same_strategy : r'.credential_strategy ≡ r.credential_strategy
  pub same_creation : r'.created_at ≡ r.created_at

-- The same identity, in a state that a trail of the diagram leads to.
pub record Follows (r r' : Row) : Type 0 where
  pub identity : SameIdentity r r'
  pub trail : Trail r.migration_state r'.migration_state

pub SameIdentity-refl : (r : Row) → SameIdentity r r
SameIdentity-refl r = ground arith

pub SameIdentity-trans : (r s t : Row) → SameIdentity r s → SameIdentity s t → SameIdentity r t
SameIdentity-trans r s t p q = ground arith

Trail-trans : {s t u : MigrationState} → Trail s t → Trail t u → Trail s u
Trail-trans p start = p
Trail-trans p (move q e) = move (Trail-trans p q) e

advanced-SameIdentity : (n : ℕ) (to : MigrationState) (r : Row) → SameIdentity r (advanced n to r)
unfolding stamp count_attempt
advanced-SameIdentity n to r = ground arith

pub advanced_state :
    (n : ℕ) (to : MigrationState) (r : Row) → (advanced n to r).migration_state ≡ to
unfolding stamp count_attempt
advanced_state n to r = ground arith

pub advance_keeps :
    (n : ℕ) (to : MigrationState) (r r' : Row)
    → r' ≡ record (advanced n to r) { revision = r'.revision }
    → SameIdentity r r' × (r'.migration_state ≡ to)
advance_keeps n to r r' e =
    rw e (ground (arith, advanced-SameIdentity n to r, advanced_state n to r))

pub bind_keeps :
    (t : ProviderBinding) (r r' : Row)
    → r' ≡ record r { revision = r'.revision; target = t }
    → SameIdentity r r' × (r'.migration_state ≡ r.migration_state)
bind_keeps t r r' e = rw e (ground arith)

pub mark_keeps :
    (code : String) (r r' : Row)
    → r' ≡ record r { revision = r'.revision; last_error_code = code }
    → SameIdentity r r' × (r'.migration_state ≡ r.migration_state)
mark_keeps code r r' e = rw e (ground arith)

Follows-Respects : (gate : PolicyGate) → Respects gate Follows
Follows-Respects gate = record {
  stays = λ r. record { identity = SameIdentity-refl r; trail = start };
  chain = λ r s t p q. record {
    identity = SameIdentity-trans r s t p.identity q.identity;
    trail = Trail-trans p.trail q.trail;
  };
  same_id = λ r r' p. p.identity.same_id;
  on_advance = λ r r' n to edge allowed resolved e.
      let (same, moved) = advance_keeps n to r r' e in
      record { identity = same; trail = rw moved (move start edge) };
  on_bind = λ r r' t e.
      let (same, stayed) = bind_keeps t r r' e in
      record { identity = same; trail = rw stayed start };
  on_mark = λ r r' code e.
      let (same, stayed) = mark_keeps code r r' e in
      record { identity = same; trail = rw stayed start };
}

-- A row is never lost: whatever steps a ledger takes, the row is still found under its id, it tells
-- of the same identity with the same batch, source, class and strategy, and its state has moved along
-- a trail of the diagram.
pub row_never_lost :
    (gate : PolicyGate) {v w : View} (r : Row)
    → v r.migration_id ≡ some r
    → Reach gate v w
    → Descends Follows r w
row_never_lost gate r held p = Reach-Descends (Follows-Respects gate) r held p
