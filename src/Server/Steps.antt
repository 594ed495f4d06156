-- ===== src/Server/Steps.antt =====
-- The runs of the service: the requests in any order, each on a machine of its own, and the runs that
-- were observed on the way, newest first.
use stepstitch.Prelude.{ℕ, String, Bool, some, List, [], ◌++◌}
use stepstitch.Runner.Run.{Machine}
use stepstitch.Json.{Fields}
use stepstitch.Repro.Config.{ReproConfig}
use stepstitch.Server.Store.{ServiceStore, Site, Call}
use stepstitch.Server.Ingest.{
  IngestTracePayload, Provider, save_session_trace, delete_user_traces, purge,
}
use stepstitch.Server.Requests.{ReproduceRequest, Observed, reproduce_locally}
use stepstitch.Server.Freeze.{freeze_reproduction}
use stepstitch.Server.Verify.{verify_fix}
use stepstitch.Server.Reports.{VerifyPayload, post_verify}

pub data Step (site : Site) (s : ServiceStore) : List Observed → ServiceStore → Type 0 where
  ingests :
      (capture : Provider Bool) (overrides : Provider Fields) (c : Call) (p : IngestTracePayload)
      → Step site s [] (save_session_trace site capture overrides c p s).1
  freezes :
      (m : Machine) (cfg : ReproConfig) (c : Call) (id : String) (req : ReproduceRequest)
      → Step site s
          (freeze_reproduction site m cfg c id req s).observed
          (freeze_reproduction site m cfg c id req s).store
  verifies :
      (m : Machine) (cfg : ReproConfig) (c : Call) (id : String) (req : ReproduceRequest)
      → Step site s
          (verify_fix site m cfg c id req s).observed
          (verify_fix site m cfg c id req s).store
  reproduces :
      (m : Machine) (cfg : ReproConfig) (c : Call) (id : String) (req : ReproduceRequest)
      → Step site s
          (reproduce_locally site m cfg c id req s).observed
          (reproduce_locally site m cfg c id req s).store
  reports :
      (c : Call) (id : String) (p : VerifyPayload) → Step site s [] (post_verify site c id p s).1
  deletes : (c : Call) (user : String) → Step site s [] (delete_user_traces c user s)
  purges : (cutoff : ℕ) → Step site s [] (purge cutoff s)

pub data Reach (site : Site) (s : ServiceStore) : List Observed → ServiceStore → Type 0 where
  here : Reach site s [] s
  next :
      {h o : List Observed} {t u : ServiceStore}
      → Reach site s h t
      → Step site t o u
      → Reach site s (o ++ h) u

abbrev pub empty_store : ServiceStore
empty_store = record {
  traces = [];
  frozen = [];
  verifications = [];
  diagnostics = some [];
  audited = [];
}
