-- ===== src/Policies/Refusals.antt =====
-- What the profiles and the offline validator refuse, and that it says what the router would do.
use stepstitch.Prelude.{◌≡◌, ◌↔◌, ◌⊎◌, String, Bool, true, false, List, contains, Result, ok, err}
use stepstitch.Json.{Fields}
use stepstitch.Scrub.Policy.{ScrubPolicy, all_forbidden_keys}
use stepstitch.Scrub.Metadata.{Place, Detectors}
use stepstitch.Scrub.Payload.{ScrubFailure, type_error, rejection, ScrubReport}
use stepstitch.Policies.Classify.{raised, PayloadOutcome, rejected, accepted}

abbrev reads_clean : Result ScrubFailure (Fields × ScrubReport) → Bool
reads_clean (err fields) = false
reads_clean (ok (stored, report)) = report.is_clean

module _ (det : Detectors) (p : ScrubPolicy) where
  abbrev pub is_forbidden : String → Bool
  is_forbidden k = contains k (all_forbidden_keys p)

  -- The two outcomes, from what the scrubber answers.
  abbrev Judged :
      Fields → Bool → Result ScrubFailure (Fields × ScrubReport) → PayloadOutcome → Type 0
  Judged payload valid r outcome =
      ((outcome ≡ rejected)
        ↔ ((valid ≡ false) ⊎ ((fields : List Place) × (r ≡ err (rejection fields)))))
      × ((outcome ≡ raised) ↔ ((valid ≡ true) × (r ≡ err type_error)))
      × ((outcome ≡ accepted) ↔ (
          (valid ≡ true)
          × ((stored : Fields) × (report : ScrubReport) × (r ≡ ok (stored, report))
              × (report.is_clean ≡ true))))
