-- ===== src/Examples/Bridge.antt =====
-- A pull request that is asked for twice (github_bridge/bridge.py).
use stepstitch.Prelude.{◌≡◌, refl, true, false, Option, none, some, [], ◌∷◌}
use stepstitch.Bridge.{
  TraceSummary, ClientCall, open_pull_request, default_branch_sha, Reply, done, sha, number,
  BridgeReceipt, BridgeState, Client, call_each, open_regression_pr, issue_for, operate_all,
  branch_name,
}
use stepstitch.Bridge.Repeats.{open_regression_pr-repeat}

abbrev summary : TraceSummary
summary = record {
  trace_id = "t1";
  route = "/pay";
  headline = "Pay fails";
  replayability_grade = "A";
  body = "";
}

abbrev reply_to : ClientCall → Reply
reply_to (default_branch_sha base) = sha "c0ffee"
reply_to (open_pull_request branch base title body) = number 7
reply_to _ = done

abbrev client : Client
client = record { answer = λ made c. reply_to c; base_branch = "main" }

abbrev nothing_made : BridgeState
nothing_made = record { store = []; calls = [] }

abbrev receipt : BridgeReceipt
receipt = record {
  trace_id = "t1";
  issue_number = none;
  pr_number = some 7;
  branch = some (branch_name "t1");
  labels = some ("stepstitch" ∷ "stepstitch:fix-candidate" ∷ []);
  deduped = false;
}

abbrev opened : Option BridgeReceipt × BridgeState
opened = open_regression_pr client summary "test" (some "k1") nothing_made

is_opened : opened ≡ (some receipt, opened.1)
unfolding open_regression_pr call_each
is_opened = refl

open_regression_pr-repeat_example :
    let w2 = operate_all client (issue_for summary ∷ []) opened.1 in
    open_regression_pr client summary "other" (some "k1") w2
    ≡ (some (record receipt { deduped = true }), w2)
open_regression_pr-repeat_example =
    open_regression_pr-repeat client summary summary "test" "other" (some "k1") (some "k1")
      nothing_made opened.1 receipt (issue_for summary ∷ []) is_opened refl
