-- ===== src/Federation/Ledger/Tx.antt =====
-- internal/federation/trust_ledger.go: transactions, the clock's watermark, and the writes.
use baobab_iam.Base.{ℕ, String, Bool, true, false, not, ◌∷◌, Option, none, some, ltb, if◌then◌else◌}
use baobab_iam.Result.{Result, ok, err, refuse_if}
use baobab_iam.Action.{Action, pure, lift, gets, ◌>>=◌, ◌>>◌}
use baobab_iam.Federation.Types.{FederationError, unsupported, unverified, denied, unavailable}
use baobab_iam.Federation.Grammar.{is_uuid}
use baobab_iam.Federation.Ports.{ReferenceExpectation}
use baobab_iam.Federation.Ledger.{
  CommittedTrust, Disk, find_revision, World, ApprovalActor, TrustLedger,
}

-- `authorityError`
unfoldable pub authority_error : FederationError → FederationError
authority_error unsupported = unsupported
authority_error unverified = unverified
authority_error denied = denied
authority_error _ = unavailable

abbrev pub Call : Type 0 → Type 0 → Type 0
Call W A = Action FederationError (World W) A

abbrev pub by_authority : {A : Type 0} → Result FederationError A → Result FederationError A
by_authority (ok a) = ok a
by_authority (err e) = err (authority_error e)

-- `if err != nil { return authorityError(err) }`
unfoldable pub reported : {W A : Type 0} → Call W A → Call W A
reported m s = (by_authority (m s).0, (m s).1)

-- `if bad { return e }` on a call.
abbrev pub refuse : {W : Type 0} → Bool → FederationError → Call W (Unit {0})
refuse bad e = lift (refuse_if bad e)

-- The clock went back behind what was seen.
abbrev pub went_back : ℕ → Option ℕ → Bool
went_back now none = false
went_back now (some previous) = ltb now previous

abbrev pub set_clock : ℕ → Disk → Disk
set_clock now d = record d { clock = some now }

abbrev pub is_present : {A : Type 0} → Option A → Bool
is_present none = false
is_present (some a) = true

abbrev pub with_revision : String → ℕ → CommittedTrust → Disk → Disk
with_revision id n v d = record d {
  history = record { trust_id = id; number = n; value = v } ∷ d.history;
  trusts = (id, v) ∷ d.trusts;
}

abbrev pub write : {W : Type 0} → (Disk → Disk) → Call W (Unit {0})
write f s = (ok tt, record s { disk = f s.disk })

module _ {W : Type 0} (l : TrustLedger W) where
  -- `l.now()`
  abbrev pub read_clock : Call W ℕ
  read_clock s = (ok (l.now s.outside).0, record s { outside = (l.now s.outside).1 })

  -- `ctx.Err() != nil`
  unfoldable pub is_cancelled : Call W Bool
  is_cancelled = gets (λ s. l.cancelled s.outside)

  -- `!l.now().Before(until)`
  unfoldable pub still_before : ℕ → Call W (Unit {0})
  still_before until = do now ← read_clock; refuse (not (ltb now until)) denied

  -- A reading of the database.
  abbrev pub view_disk : {A : Type 0} → (Disk → Result FederationError A) → Call W A
  view_disk f = do
    broken ← gets (λ s. l.broken s.outside)
    refuse broken unavailable
    found ← gets (λ s. f s.disk)
    lift found

  -- What a transaction leaves: its writes if it ended well and is stored, else none of them.
  abbrev pub settle :
      {A : Type 0} → Disk → Result FederationError A × World W → Result FederationError A × World W
  settle old (err e, t) = (err e, record t { disk = old })
  settle old (ok a, t) =
      if l.broken t.outside then (err unavailable, record t { disk = old }) else (ok a, t)

  -- `l.db.Update(body)`
  unfoldable pub update : {A : Type 0} → Call W A → Call W A
  update body s = if l.broken s.outside then (err unavailable, s) else settle s.disk (body s)

  -- `observeClock`
  unfoldable pub observe_clock : Call W (Unit {0})
  observe_clock = do
    now ← read_clock
    previous ← gets (λ s. s.disk.clock)
    refuse (went_back now previous) denied
    write (set_clock now)

  -- `fence`
  unfoldable pub fence : Call W (Unit {0})
  unfolding observe_clock
  fence = reported (update observe_clock)

  -- `putTrustRevision`
  unfoldable pub put_trust_revision : String → ℕ → CommittedTrust → Call W (Unit {0})
  unfolding find_revision
  put_trust_revision id n v = do
    taken ← gets (λ s. is_present (find_revision id n s.disk.history))
    refuse taken denied
    write (with_revision id n v)

  -- `actor`
  unfoldable pub actor : String → ReferenceExpectation → Call W ApprovalActor
  unfolding fence
  actor action want = do
    over ← is_cancelled
    refuse over unavailable
    fence
    a ← reported (l.actors action want)
    refuse (not (is_uuid a.principal_id)) denied
    still_before a.valid_until
    pure a
