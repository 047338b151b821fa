-- ===== src/Migration/Calls.antt =====
-- internal/migration: any sequence of calls of the exported operations on one ledger.
pub mod Laws
use baobab_iam.Base.{String, Option, List, [], ◌∷◌}
use baobab_iam.Migration.Types.{Row, MigrationState, ProviderBinding}
use baobab_iam.Migration.Service.{register, apply_transition, set_target_binding}
use baobab_iam.Migration.Bridge.Targets.{ProvisionBridge}
use baobab_iam.Migration.Bridge.Provision.{provision}
use baobab_iam.Migration.Stages.Credential.{apply_credential, mark_ready}
use baobab_iam.Migration.Stages.Verification.{apply_verification, mark_verified}

-- A call, with its arguments.
pub data Call : Type 0 where
  call_register : Row → Call
  call_apply_transition : String → MigrationState → Call
  call_set_target_binding : String → ProviderBinding → Call
  call_provision : String → Call
  call_apply_credential : String → Call
  call_mark_ready : String → Call
  call_apply_verification : String → Call
  call_mark_verified : String → Call

module _ {S : Type 0} (b : ProvisionBridge S) (parse_address : String → Option String) where
  -- What a call leaves behind, its answer forgotten.
  abbrev pub perform : Call → S → S
  perform (call_register row) s = (register b.service row s).1
  perform (call_apply_transition id to) s = (apply_transition b.service id to s).1
  perform (call_set_target_binding id raw) s = (set_target_binding b.service id raw s).1
  perform (call_provision id) s = (provision b parse_address id s).1
  perform (call_apply_credential id) s = (apply_credential b.service id s).1
  perform (call_mark_ready id) s = (mark_ready b.service id s).1
  perform (call_apply_verification id) s = (apply_verification b.service id s).1
  perform (call_mark_verified id) s = (mark_verified b.service id s).1

  -- The first call of the list is made first.
  abbrev pub run : List Call → S → S
  run [] s = s
  run (c ∷ rest) s = run rest (perform c s)
