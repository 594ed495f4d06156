-- ===== src/Evidence.antt =====
-- service/stepstitch_service/evidence.py: the grade of a piece of evidence, and the check of an
-- attestation against its own hash.
-- The hex SHA-256 of the canonical JSON (attestation.py) is the parameter `hex`, and Python's
-- `str()` of a value that is no text is the parameter `str_of`.
pub mod Grades
pub mod Bundles
use stepstitch.Prelude.{
  Result, ℕ, zero, suc, String, Bool, true, false, not, ◌&&◌, ◌||◌, Option, none, some, List, [],
  ◌∷◌, ◌++◌, str_eq, get_or, if◌then◌else◌, leb, ok, err,
}
use stepstitch.Prelude.Text.{Text, codes, drop, text_eq, starts_with}
use stepstitch.Json.{Json, str, obj, Fields, get, truthy, drop_keys}

abbrev pub asserted : String
asserted = "asserted"

abbrev pub measured : String
measured = "measured"

abbrev pub signed : String
signed = "signed"

pub data EvidenceError : Type 0 where
  value_error : EvidenceError
  no_hash : EvidenceError
  altered : EvidenceError

-- `GRADE_ORDER.index(g)`.
abbrev pub grade_index : String → Option ℕ
grade_index g =
    if str_eq g asserted
    then some 0
    else if str_eq g measured
    then some 1
    else if str_eq g signed
    then some 2
    else none

-- An unknown grade is the weakest; an unknown minimum raises.
unfoldable pub grade_at_least : Option String → String → Result EvidenceError Bool
grade_at_least grade minimum = elim (grade_index (get_or grade "")) [
  | none ↦ ok false
  | some have ↦ elim (grade_index minimum) [
    | none ↦ err value_error
    | some floor ↦ ok (leb floor have)
  ]
]

unfoldable pub derive_grade : Bool → Option String → String
derive_grade measured_by_stepstitch signature =
    if not measured_by_stepstitch
    then asserted
    else if str_eq (get_or signature "") ""
    then measured
    else signed

unfoldable pub prefix : Text
prefix = codes "sha256:"

unfoldable pub remove_prefix : Text → Text
remove_prefix s = if starts_with prefix s then drop 7 s else s

pub record Checked : Type 0 where
  pub bundle_sha256 : Text
  pub evidence_grade : Text
  pub signed : Bool

abbrev pub payload_of : Fields → Fields
payload_of document = drop_keys ("bundle_sha256" ∷ "signature" ∷ []) document

module _ (hex : Fields → Text) (str_of : Json → Text) where
  abbrev pub text_of : Json → Text
  text_of (str s) = codes s
  text_of v = str_of v

  -- The issued form of the hash.
  unfoldable pub bundle_hash : Fields → Text
  bundle_hash payload = prefix ++ hex payload

  top_grade : Fields → Text
  top_grade document =
      let g = get "evidence_grade" document in if truthy g then text_of g else codes asserted

  read_grade_in : Fields → Json → Text
  unfolding top_grade
  read_grade_in document (obj verification) =
      let g = get "evidence_grade" verification in
      if truthy g then text_of g else top_grade document
  read_grade_in document _ = top_grade document

  unfoldable pub read_grade : Fields → Text
  unfolding read_grade_in
  read_grade document = read_grade_in document (get "verification" document)

  unfoldable pub verify_bundle : Fields → Result EvidenceError Checked
  verify_bundle document =
      let stated = get "bundle_sha256" document in
      let actual = bundle_hash (payload_of document) in
      if not (truthy stated)
      then err no_hash
      else if not (text_eq actual (text_of stated))
          && not (text_eq (remove_prefix actual) (remove_prefix (text_of stated)))
      then err altered
      else ok (record {
        bundle_sha256 = actual;
        evidence_grade = read_grade document;
        signed = truthy (get "signature" document);
      })
