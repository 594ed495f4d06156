-- ===== src/Server/Store.antt =====
-- The tables that the requests of router.py and host/host.py read and write, newest row last, and
-- what a site is configured with.
-- The compiler, the trace summary's fingerprint, the reading of a failure's signature and the
-- diagnostics that a run left are functions of the record `Site`. A time is a number of seconds. A
-- column of JSON holds the value. A store of before migration 0008 has no diagnostics table.
use stepstitch.Prelude.{
  ℕ, String, Bool, Option, none, some, List, [], ◌∷◌, ◌++◌, str_eq, if◌then◌else◌,
}
use stepstitch.Prelude.Text.{Text}
use stepstitch.Json.{Json, Fields}
use stepstitch.Scrub.Policy.{ScrubPolicy}
use stepstitch.Scrub.Metadata.{Detectors}
use stepstitch.Scrub.Payload.{ScrubReport}
use stepstitch.Repro.Config.{Python, ReproConfig}
use stepstitch.Runner.Run.{ReproductionResult}

pub record TraceRecord : Type 0 where
  pub id : String
  pub app_id : String
  pub project_id : Option String
  pub user_id : String
  pub explanation : Json
  pub footsteps : List Fields
  pub trace_metadata : Json
  pub scrub : ScrubReport
  pub consent_version : Option String
  pub retention_expires_at : ℕ
  pub created_at : ℕ
  pub fingerprint : Fields

pub record FrozenRepro : Type 0 where
  pub trace_id : String
  pub script : String
  pub sha256 : String
  pub red_verdict : String
  pub red_signature : String
  pub frozen_at : ℕ
  pub frozen_by : String
  pub execution_envelope_sha256 : Option String
  pub execution_envelope_json : Json

pub record Verification : Type 0 where
  pub id : String
  pub trace_id : String
  pub pre_passed : Bool
  pub post_passed : Option Bool
  pub verdict : String
  pub fix_ref : Option String
  pub run_url : Option String
  pub fingerprint : Option Fields
  pub evidence_grade : String
  pub base_commit : Option String
  pub fixed_commit : Option String
  pub verified_by : String
  pub created_at : ℕ

pub record DiagnosticsRow : Type 0 where
  pub trace_id : String
  pub script_sha256 : String
  pub execution_envelope_sha256 : String
  pub diagnostics_json : Fields
  pub created_at : ℕ

pub record AuditEntry : Type 0 where
  pub action : String
  pub actor : String
  pub subject : String
  pub outcome : String

pub record ServiceStore : Type 0 where
  pub traces : List TraceRecord
  pub frozen : List FrozenRepro
  pub verifications : List Verification
  pub diagnostics : Option (List DiagnosticsRow)
  pub audited : List AuditEntry

pub record Site : Type 0 where
  pub python : Python
  pub detectors : Detectors
  pub scrub_policy : ScrubPolicy
  pub to_text : Json → String
  pub retention_seconds : ℕ
  pub base_url : String
  pub compile : String → List Fields → String → ReproConfig → String
  pub fingerprint : String → List Fields → Option String → Fields
  pub failure_signature : Text → String
  pub diagnostics_of : ReproductionResult → Fields

-- What a request takes from outside: a new identifier, the time and the caller.
pub record Call : Type 0 where
  pub uuid : String
  pub now : ℕ
  pub actor : String

abbrev pub audit : Call → String → String → String → ServiceStore → ServiceStore
audit c action subject outcome s = record s {
  audited =
      s.audited
      ++ record { action = action; actor = c.actor; subject = subject; outcome = outcome } ∷ [];
}

-- `SELECT … FROM stepstitch_traces WHERE id = ?`.
unfoldable pub find_trace : String → List TraceRecord → Option TraceRecord
find_trace id [] = none
find_trace id (t ∷ ts) = let rest = find_trace id ts in if str_eq t.id id then some t else rest

unfoldable pub find_frozen : String → List FrozenRepro → Option FrozenRepro
find_frozen id [] = none
find_frozen id (f ∷ fs) =
    let rest = find_frozen id fs in if str_eq f.trace_id id then some f else rest
