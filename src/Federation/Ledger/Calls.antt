-- ===== src/Federation/Ledger/Calls.antt =====
-- internal/federation/trust_ledger.go: sequences of calls on one ledger.
use baobab_iam.Base.{ℕ, ◌≤◌, ◌<◌, String, Bool, List, [], ◌∷◌, none, some, ◌≡◌, ◌≢◌, find_key}
use baobab_iam.Federation.Ports.{TrustSnapshot, ReferenceExpectation}
use baobab_iam.Federation.Ledger.{CommittedTrust, Disk, World, TrustLedger}
use baobab_iam.Federation.Ledger.Transition.{max_uint64}
use baobab_iam.Federation.Ledger.Propose.{propose}
use baobab_iam.Federation.Ledger.Decide.{decide, trust, contain}
use baobab_iam.Federation.Ledger.Sound.{number, IsSound, Follows, Follows-refl, Follows-trans}
use baobab_iam.Federation.Ledger.Keeps.{PortsKeep}
use baobab_iam.Federation.Ledger.Operations.{propose-Keeps, decide-Keeps}
use baobab_iam.Federation.Ledger.Containment.{trust-Keeps, contain-Keeps}

pub data LedgerCall : Type 0 where
  call_propose : String → TrustSnapshot → ReferenceExpectation → LedgerCall
  call_decide : String → String → Bool → LedgerCall
  call_trust : String → LedgerCall
  call_contain : String → ℕ → String → LedgerCall

-- The four buckets that `openTrustLedger` makes.
abbrev pub new_disk : Disk
new_disk = record { trusts = []; proposals = []; history = []; clock = none }

module _ {W : Type 0} (l : TrustLedger W) where
  -- What a call leaves, whether it succeeds or fails.
  unfoldable pub run_call : LedgerCall → World W → World W
  run_call (call_propose id candidate want) s = (propose l id candidate want s).1
  run_call (call_decide id digest approve) s = (decide l id digest approve s).1
  run_call (call_trust id) s = (trust l id s).1
  run_call (call_contain id revision status) s = (contain l id revision status s).1

  unfoldable pub run_calls : List LedgerCall → World W → World W
  unfolding run_call
  run_calls [] s = s
  run_calls (c ∷ rest) s = run_calls rest (run_call c s)

  run_call-Keeps :
      (ports : PortsKeep l) (c : LedgerCall) (s : World W)
      → IsSound s.disk
      → IsSound (run_call c s).disk × Follows s.disk (run_call c s).disk
  unfolding run_call
  run_call-Keeps ports (call_propose id candidate want) s h =
      (propose-Keeps l ports s.disk id candidate want).at s h (Follows-refl s.disk)
  run_call-Keeps ports (call_decide id digest approve) s h =
      (decide-Keeps l ports s.disk id digest approve).at s h (Follows-refl s.disk)
  run_call-Keeps ports (call_trust id) s h =
      (trust-Keeps l ports s.disk id).at s h (Follows-refl s.disk)
  run_call-Keeps ports (call_contain id revision status) s h =
      (contain-Keeps l ports s.disk id revision status).at s h (Follows-refl s.disk)

  -- If what lies behind the ports does not undo what is stored, any sequence of calls of the ledger,
  -- successful or not, keeps a sound ledger sound: every trust in force was decided by another than
  -- its maker, has a revision that fits 64 bits, and is the entry of the history under it. No entry of
  -- the history is lost or changed, a trust in force is only replaced by a later revision and, once it
  -- is revoked, by none, a decided proposal stays as it is, and the watermark of the clock never goes
  -- back.
  pub ledger_keeps :
      (calls : List LedgerCall) (s : World W)
      → PortsKeep l
      → IsSound s.disk
      → IsSound (run_calls calls s).disk × Follows s.disk (run_calls calls s).disk
  unfolding run_calls
  ledger_keeps [] s ports h = (h, Follows-refl s.disk)
  ledger_keeps (c ∷ rest) s ports h =
      let (a, b) = run_call-Keeps ports c s h in
      let (e, f) = ledger_keeps rest (run_call c s) ports a in
      (e, Follows-trans s.disk (run_call c s).disk (run_calls rest (run_call c s)).disk b f)

  -- On a new ledger, whatever calls are made, a trust that is in force under an id is the trust of
  -- that id, its maker is not its checker, and its revision is at least 1 and below 2^64.
  pub revision_bounds :
      (calls : List LedgerCall) (outside : W) (id : String) (v : CommittedTrust)
      → PortsKeep l
      → find_key id (run_calls calls record { disk = new_disk; outside = outside }).disk.trusts
        ≡ some v
      → (v.snapshot.trust.id ≡ id)
        × (v.maker ≢ v.checker)
        × (0 < number v)
        × (number v ≤ max_uint64)
  unfolding find_key
  revision_bounds calls outside id v ports h =
      let empty : IsSound new_disk = record { in_force = λ id v e. cc; proposals = λ id p e. cc } in
      let (sound, _) =
        ledger_keeps calls (record { disk = new_disk; outside = outside }) ports empty in
      let c = (sound.in_force id v h).0 in (c.same_id, c.four_eyes, c.numbered.0, c.numbered.1)
