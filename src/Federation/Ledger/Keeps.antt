-- ===== src/Federation/Ledger/Keeps.antt =====
-- internal/federation/trust_ledger.go: rules for calls that keep a sound disk sound and follow it.
use mathlib.Core.Path.{subst}
use baobab_iam.Base.{ℕ, String, Bool, true, false, not, ◌≡◌, refl, sym, ◌∙◌, inl, inr, Bool-cases}
use baobab_iam.Result.{Result, ok, err, Result-cases}
use baobab_iam.Action.{◌>>=◌, ◌>>◌}
use baobab_iam.Action.Along.{IsPreorder, Along, along_rules, Along-bind}
use baobab_iam.Federation.Types.{FederationError, denied, unavailable}
use baobab_iam.Federation.Grammar.{is_uuid}
use baobab_iam.Federation.Ports.{ReferenceExpectation}
use baobab_iam.Federation.Ledger.{Disk, World, TrustLedger}
use baobab_iam.Federation.Ledger.Tx.{
  Call, reported, refuse, read_clock, is_cancelled, still_before, update, settle, went_back,
  observe_clock, fence, actor,
}
use baobab_iam.Federation.Ledger.Sound.{IsSound, Follows, Follows-refl, Keeps, Keeps-order}
use baobab_iam.Federation.Ledger.Writes.{set_clock-Follows}

-- What lies behind the ports, other calls of the ledger among it, does not undo what is stored.
pub record PortsKeep {W : Type 0} (l : TrustLedger W) : Type 0 where
  pub actors :
      (d : Disk) (action : String) (want : ReferenceExpectation)
      → Along (Keeps d) (l.actors action want)
  pub targets : (d : Disk) (want : ReferenceExpectation) → Along (Keeps d) (l.targets want)
  pub references : (d : Disk) (want : ReferenceExpectation) → Along (Keeps d) (l.references want)

module _ {W A : Type 0} where
  pub Along-reported :
      {R : World W → World W → Type 0} (m : Call W A) → Along R m → Along R (reported m)
  unfolding reported
  Along-reported m h = record { at = h.at }

  pub Along-guard :
      {R : World W → World W → Type 0} (order : IsPreorder R) (bad : Bool) (e : FederationError)
      (k : Call W A)
      → (bad ≡ false → Along R k)
      → Along R (refuse bad e >> k)
  Along-guard order true e k h = record { at = order.same }
  Along-guard order false e k h = record { at = (h refl).at }

-- The disk as it was.
abbrev pub SameDisk : {W : Type 0} → World W → World W → Type 0
SameDisk s t = t.disk ≡ s.disk

pub SameDisk-order : {W : Type 0} → IsPreorder {S = World W} SameDisk
SameDisk-order = record { same = λ s. refl; trans = λ s t u p q. q ∙ p }

module _ {W A B : Type 0} where
  -- What a reading returned may be used in what follows, held against the disk that was read.
  pub Along-read :
      (d : Disk) (m : Call W A) (f : A → Call W B)
      → Along SameDisk m
      → ((a : A) (s : World W) → IsSound s.disk → (m s).0 ≡ ok a → Along (Keeps s.disk) (f a))
      → Along (Keeps d) (m >>= f)
  Along-read d m f same h = record {
    at = λ s sound from. elim (Result-cases (m s).0) [
      | inr (e, q) ↦ rw q (
        subst IsSound (sym (same.at s)) sound,
        subst (Follows s.disk) (sym (same.at s)) (Follows-refl s.disk),
      )
      | inl (a, q) ↦
          let t = (m s).1 in
          let (u, v) =
            (h a s sound q).at t (subst IsSound (sym (same.at s)) sound)
              (subst (Follows s.disk) (sym (same.at s)) (Follows-refl s.disk)) in
          rw q (u, subst (λ (x : Disk). Follows x (f a t).1.disk) (same.at s) v)
    ];
  }

module _ {W : Type 0} (l : TrustLedger W) where
  settled :
      {A : Type 0} (old : Disk) (p : Result FederationError A × World W)
      → IsSound old
      → IsSound p.1.disk × Follows old p.1.disk
      → IsSound (settle l old p).1.disk × Follows old (settle l old p).1.disk
  settled old (err e, t) sound h = (sound, Follows-refl old)
  settled old (ok a, t) sound h = elim (Bool-cases (l.broken t.outside)) [
    | inl b ↦ rw b (sound, Follows-refl old)
    | inr b ↦ rw b h
  ]

module _ {W : Type 0} (l : TrustLedger W) (d : Disk) where
  pub Along-update : {A : Type 0} (m : Call W A) → Along (Keeps d) m → Along (Keeps d) (update l m)
  unfolding update
  Along-update m h = record {
    at = λ s sound from. elim (Bool-cases (l.broken s.outside)) [
      | inl b ↦ rw b (sound, Follows-refl s.disk)
      | inr b ↦ rw b (settled l s.disk (m s) sound (h.at s sound from))
    ];
  }

  pub Along-read_clock : Along (Keeps d) (read_clock l)
  Along-read_clock = record { at = λ s sound from. (sound, Follows-refl s.disk) }

  pub Along-observe_clock : Along (Keeps d) (observe_clock l)
  unfolding observe_clock
  Along-observe_clock = record {
    at = λ s sound from.
        let now = (l.now s.outside).0 in
        elim (Bool-cases (went_back now s.disk.clock)) [
          | inl b ↦ rw b (sound, Follows-refl s.disk)
          | inr b ↦ rw b (set_clock-Follows now s.disk b sound)
        ];
  }

  pub Along-still_before : (until : ℕ) → Along (Keeps d) (still_before l until)
  unfolding still_before
  Along-still_before until = search (along_rules, Keeps-order d, Along-read_clock) depth 20

  pub Along-fence : Along (Keeps d) (fence l)
  unfolding fence
  Along-fence =
      Along-reported (update l (observe_clock l))
        (Along-update (observe_clock l) Along-observe_clock)

  pub Along-is_cancelled : Along (Keeps d) (is_cancelled l)
  unfolding is_cancelled
  Along-is_cancelled = record { at = λ s sound from. (sound, Follows-refl s.disk) }

  pub Along-actor :
      (ports : PortsKeep l) (action : String) (want : ReferenceExpectation)
      → Along (Keeps d) (actor l action want)
  unfolding actor
  Along-actor ports action want =
      let asked = Along-reported (l.actors action want) (ports.actors d action want) in
      Along-bind (Keeps-order d) (is_cancelled l) _ Along-is_cancelled (λ over.
        Along-bind (Keeps-order d) (refuse over unavailable) _
          (search (along_rules, Keeps-order d) depth 5)
          (λ u. Along-bind (Keeps-order d) (fence l) _ Along-fence (λ u.
            Along-bind (Keeps-order d) (reported (l.actors action want)) _ asked (λ a.
              Along-bind (Keeps-order d) (refuse (not (is_uuid a.principal_id)) denied) _
                (search (along_rules, Keeps-order d) depth 5)
                (λ u. search (along_rules, Keeps-order d, Along-still_before) depth 9)))))
