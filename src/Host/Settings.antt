-- ===== src/Host/Settings.antt =====
-- host/host.py: the configuration table with the operator's settings, how they are saved and how
-- they are read. `json.dumps` and `json.loads` are the record `JsonText`, and whether `re.compile`
-- takes a pattern and `str()` of a value are those of `Repro.Config.Python`. The clock and the actor of a row are not modelled.
use stepstitch.Prelude.{
  ℕ, suc, ◌+◌, String, not, Option, none, some, List, [], ◌∷◌, ◌++◌, str_eq, if◌then◌else◌, length,
  keep, Result, ok, err, ◌>>=◌, ◌>>◌, raise_if,
}
use stepstitch.Json.{
  Json, str, arr, obj, Items, nil, cons, Fields, end, field, keys, truthy, texts, sorted,
}
use stepstitch.Repro.Config.{Python, ReproConfig, no_config}
use stepstitch.Repro.Document.{ConfigError, from_dict, as_dict}
use stepstitch.Scrub.Policy.{ScrubPolicy, apply_scrub_overrides, texts_of}

-- A text that is no JSON is none.
pub record JsonText : Type 0 where
  pub dumps : Json → String
  pub loads : String → Option Json

-- What the audit is told of a change: its shape, never the values.
pub data Change : Type 0 where
  repro_config_update : List String → ℕ → ℕ → Change
  scrub_config_update : ℕ → ℕ → ℕ → ℕ → Change

-- The rows of `stepstitch_config` by their keys, and what was audited.
pub record Config : Type 0 where
  pub rows : List (String × String)
  pub audited : List Change

abbrev pub select_from : String → List (String × String) → Option String
select_from key [] = none
select_from key ((k, v) ∷ rows) =
    let rest = select_from key rows in if str_eq k key then some v else rest

-- `SELECT value FROM stepstitch_config WHERE key = ?`.
unfoldable pub select : String → Config → Option String
select key s = select_from key s.rows

-- DELETE of the key's rows, then INSERT.
unfoldable pub store : String → String → Config → Config
store key value s = record s { rows = keep (λ r. not (str_eq r.0 key)) s.rows ++ (key, value) ∷ [] }

abbrev pub log : Change → Config → Config
log change s = record s { audited = s.audited ++ change ∷ [] }

-- `HTTPException(400)`: the document's error, a redaction that is no pair, or a bad pattern.
pub data SaveError : Type 0 where
  bad_config : ConfigError → SaveError
  bad_redaction bad_pattern : SaveError

module _ (js : JsonText) (py : Python) where
  -- A stored document that is not JSON, or that is refused, is ignored.
  abbrev pub config_or_default : Result ConfigError ReproConfig → ReproConfig
  config_or_default (ok c) = c
  config_or_default (err e) = no_config

  abbrev pub parsed : Option Json → ReproConfig
  parsed none = no_config
  parsed (some document) = config_or_default (from_dict py document)

  -- `_read_repro_config`, of what the query gave; a query that raises is an error.
  unfoldable pub read_repro_config : Result (Unit {0}) (Option String) → ReproConfig
  read_repro_config (err e) = no_config
  read_repro_config (ok none) = no_config
  read_repro_config (ok (some value)) =
      if str_eq value "" then no_config else parsed (js.loads value)

  abbrev pub change_of : ReproConfig → Change
  change_of c =
      repro_config_update (sorted (keys (as_dict c))) (length c.route_params)
        (length c.input_by_selector + length c.input_by_kind)

  abbrev pub save_config : ReproConfig → Config → Config × Fields
  save_config c s =
      (log (change_of c) (store "repro_config" (js.dumps (obj (as_dict c))) s), as_dict c)

  abbrev saved_or_bad : Result ConfigError ReproConfig → Config → Result SaveError (Config × Fields)
  saved_or_bad (ok c) s = ok (save_config c s)
  saved_or_bad (err e) s = err (bad_config e)

  -- PUT /admin/config/repro: the new state and the document of the answer.
  unfoldable pub put_repro_config : Fields → Config → Result SaveError (Config × Fields)
  put_repro_config body s = saved_or_bad (from_dict py (obj body)) s

  -- The redactions, each a pair of a label and a pattern that compiles.
  abbrev redaction : Json → Json → Json
  redaction label pattern = arr (cons (str (py.str_of label)) (cons (str (py.str_of pattern)) nil))

  unfoldable pub redactions : Items → Result SaveError Items
  redactions nil = ok nil
  redactions (cons (arr (cons label (cons pattern nil))) rest) =
      raise_if (not (py.compiles (py.str_of pattern))) bad_pattern
      >> (redactions rest >>= λ more. ok (cons (redaction label pattern) more))
  redactions (cons _ rest) = err bad_redaction

  abbrev pub count_items : Items → ℕ
  count_items nil = 0
  count_items (cons v vs) = suc (count_items vs)

  pub record ScrubConfig : Type 0 where
    pub extra_redactions : Items
    pub extra_forbidden_keys : Items
    pub approved_testids : Items
    pub route_templates : Items

  abbrev pub scrub_document : Items → ScrubConfig → Fields
  scrub_document patterns req = field "extra_redactions" (arr patterns) (
      field "extra_forbidden_keys" (arr (texts (texts_of py.str_of req.extra_forbidden_keys))) (
        field "approved_testids" (arr (texts (texts_of py.str_of req.approved_testids)))
          (field "route_templates" (arr (texts (texts_of py.str_of req.route_templates))) end)))

  -- PUT /admin/config/scrub.
  unfoldable pub put_scrub_config : ScrubConfig → Config → Result SaveError (Config × Fields)
  put_scrub_config req s = do
    patterns ← redactions req.extra_redactions
    let document = scrub_document patterns req
    let change =
        scrub_config_update (count_items patterns) (count_items req.extra_forbidden_keys)
          (count_items req.approved_testids) (count_items req.route_templates)
    ok (log change (store "scrub_overrides" (js.dumps (obj document)) s), document)

  abbrev pub or_empty : Option Json → Json
  or_empty none = obj end
  or_empty (some v) = if truthy v then v else obj end

  abbrev pub stored_overrides : Option String → Json
  stored_overrides none = obj end
  stored_overrides (some value) = if str_eq value "" then obj end else or_empty (js.loads value)

  -- `_read_scrub_overrides`.
  unfoldable pub read_scrub_overrides : Config → Json
  read_scrub_overrides s = stored_overrides (select "scrub_overrides" s)

  abbrev pub with_overrides : ScrubPolicy → Json → Option ScrubPolicy
  with_overrides base (obj d) = some (apply_scrub_overrides py.str_of base d)
  with_overrides base _ = none

  -- `_scrub_policy_provider`; a stored document that is no object has no `get`.
  unfoldable pub scrub_policy : ScrubPolicy → Config → Option ScrubPolicy
  scrub_policy base s = with_overrides base (read_scrub_overrides s)
