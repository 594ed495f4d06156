-- ===== src/Bridge.antt =====
-- service/stepstitch_service/github_bridge/bridge.py, with the labels and names of content.py: the
-- issue and the regression pull request for a trace.
-- The client is the record `Client`, whose calls answer or raise; every call made is listed, the last
-- one last. The body and the headline of a summary are its fields.
pub mod Repeats
use stepstitch.Prelude.{
  ◌-◌, ℕ, zero, suc, ◌+◌, ◌*◌, ◌≤◌, ◌<◌, ◌≡◌, refl, sym, ap, ◌∙◌, ◌↔◌, ◌⊎◌, inl, inr, String, Bool,
  true, false, not, ◌&&◌, ◌||◌, Option, none, some, List, [], ◌∷◌, ◌++◌, map, arith, ltb, leb, ◌==◌,
  str_eq, if◌then◌else◌, is_some, opt_is, get_or, Bool-cases, Option-cases, length, is_empty, head?,
  take, any, all, keep, count_if, sum_of, contains, sort_by, Result, ok, err, ◌>>=◌, ◌>>◌, raise_if,
  bind-eq-ok, eq_iff, min, max,
}
use Prim.Native.String.{◌++◌ as str_append}

pub record TraceSummary : Type 0 where
  pub trace_id : String
  pub route : String
  pub headline : String
  pub replayability_grade : String
  pub body : String

abbrev pub repro_labels : TraceSummary → List String
repro_labels s =
    "stepstitch"
    ∷ "privacy-safe"
    ∷ "stepstitch:needs-fix"
    ∷ (if contains s.replayability_grade ("A" ∷ "B" ∷ [])
        then "stepstitch:repro-ready"
        else "stepstitch:needs-data")
    ∷ []

abbrev pub branch_name : String → String
branch_name trace_id = str_append "stepstitch/trace-" trace_id

abbrev pub regression_test_path : String → String
regression_test_path trace_id =
    str_append "tests/stepstitch/repro_" (str_append trace_id ".spec.ts")

pub data ClientCall : Type 0 where
  ensure_label : String → ClientCall
  create_issue_call : String → String → List String → ClientCall
  default_branch_sha : String → ClientCall
  create_branch : String → String → ClientCall
  put_file : String → String → String → String → ClientCall
  open_pull_request : String → String → String → String → ClientCall

-- What a call comes to: nothing to tell, a commit, a number; or it raises.
pub data Reply : Type 0 where
  done : Reply
  sha : String → Reply
  number : ℕ → Reply
  failed : Reply

pub record BridgeReceipt : Type 0 where
  pub trace_id : String
  pub issue_number : Option ℕ
  pub pr_number : Option ℕ
  pub branch : Option String
  pub labels : Option (List String)
  pub deduped : Bool

pub record BridgeState : Type 0 where
  pub store : List (String × BridgeReceipt)
  pub calls : List ClientCall

abbrev pub cached_receipt : String → List (String × BridgeReceipt) → Option BridgeReceipt
cached_receipt key [] = none
cached_receipt key ((k, r) ∷ store) =
    let rest = cached_receipt key store in if str_eq k key then some r else rest

pub record Client : Type 0 where
  pub answer : List ClientCall → ClientCall → Reply
  pub base_branch : String

abbrev pub is_failed : Reply → Bool
is_failed failed = true
is_failed _ = false

abbrev pub number_in : Reply → Option ℕ
number_in (number n) = some n
number_in _ = none

abbrev pub sha_in : Reply → String
sha_in (sha s) = s
sha_in _ = ""

abbrev pub issue_key : TraceSummary → String
issue_key s = str_append "issue:" s.trace_id

-- The caller's key, or else the trace.
abbrev pub pr_key : TraceSummary → Option String → String
pr_key s key =
    str_append "pr:" (let given = get_or key "" in if str_eq given "" then s.trace_id else given)

module _ (client : Client) where
  -- One call after another until one raises; the reply of the last, and the calls made.
  unfoldable pub call_each : List ClientCall → List ClientCall → Reply × List ClientCall
  call_each made [] = (done, made)
  call_each made (c ∷ []) = (client.answer made c, made ++ c ∷ [])
  call_each made (c ∷ d ∷ rest) =
      let more = call_each (made ++ c ∷ []) (d ∷ rest) in
      if is_failed (client.answer made c) then (failed, made ++ c ∷ []) else more

  abbrev pub label_calls : List String → List ClientCall
  label_calls [] = []
  label_calls (l ∷ ls) = ensure_label l ∷ label_calls ls

  -- The receipt is stored once everything has gone through.
  abbrev pub settle :
      String
      → (Reply → BridgeReceipt)
      → List (String × BridgeReceipt)
      → Reply × List ClientCall
      → Option BridgeReceipt × BridgeState
  settle key receipt store (reply, calls) =
      if is_failed reply
      then (none, record { store = store; calls = calls })
      else (some (receipt reply), record { store = (key, receipt reply) ∷ store; calls = calls })

  abbrev pub issue_receipt : TraceSummary → Reply → BridgeReceipt
  issue_receipt s reply = record {
    trace_id = s.trace_id;
    issue_number = number_in reply;
    pr_number = none;
    branch = none;
    labels = some (repro_labels s);
    deduped = false;
  }

  abbrev pub with_cache :
      Option BridgeReceipt
      → BridgeState
      → Option BridgeReceipt × BridgeState
      → Option BridgeReceipt × BridgeState
  with_cache (some r) w fresh = (some (record r { deduped = true }), w)
  with_cache none w fresh = fresh

  -- None is a raised exception.
  unfoldable pub create_issue : TraceSummary → BridgeState → Option BridgeReceipt × BridgeState
  create_issue s w =
      let title = str_append "[StepStitch] " s.headline in
      let calls =
        label_calls (repro_labels s) ++ create_issue_call title s.body (repro_labels s) ∷ [] in
      with_cache (cached_receipt (issue_key s) w.store) w
        (settle (issue_key s) (issue_receipt s) w.store (call_each w.calls calls))

  abbrev pub pr_receipt : TraceSummary → Reply → BridgeReceipt
  pr_receipt s reply = record {
    trace_id = s.trace_id;
    issue_number = none;
    pr_number = number_in reply;
    branch = some (branch_name s.trace_id);
    labels = some ("stepstitch" ∷ "stepstitch:fix-candidate" ∷ []);
    deduped = false;
  }

  -- The commit that the branch starts from is the reply of the first call.
  abbrev pub pr_calls : TraceSummary → String → String → List ClientCall
  pr_calls s code from =
      let branch = branch_name s.trace_id in
      create_branch branch from
      ∷ put_file branch (regression_test_path s.trace_id) code
          (str_append "test: add StepStitch regression for " s.trace_id)
      ∷ open_pull_request branch client.base_branch
          (str_append "[StepStitch] regression + repro for " s.route) s.body
      ∷ []

  abbrev pub after_sha : TraceSummary → String → Reply × List ClientCall → Reply × List ClientCall
  after_sha s code (reply, made) =
      if is_failed reply then (failed, made) else call_each made (pr_calls s code (sha_in reply))

  unfoldable pub open_regression_pr :
      TraceSummary → String → Option String → BridgeState → Option BridgeReceipt × BridgeState
  open_regression_pr s code key w = with_cache (cached_receipt (pr_key s key) w.store) w (
      settle (pr_key s key) (pr_receipt s) w.store
        (after_sha s code (call_each w.calls (default_branch_sha client.base_branch ∷ []))))

pub data Operation : Type 0 where
  issue_for : TraceSummary → Operation
  pr_for : TraceSummary → String → Option String → Operation

unfoldable pub operate : Client → Operation → BridgeState → BridgeState
operate client (issue_for s) w = (create_issue client s w).1
operate client (pr_for s code key) w = (open_regression_pr client s code key w).1

unfoldable pub operate_all : Client → List Operation → BridgeState → BridgeState
operate_all client [] w = w
operate_all client (op ∷ ops) w = operate_all client ops (operate client op w)
