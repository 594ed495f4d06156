-- ===== src/Compiler.antt =====
-- service/stepstitch_service/compiler.py: the Playwright test that is compiled from footsteps. A
-- statement stands for the lines that the code appends for it, with the texts that they carry as
-- they are escaped. Fixed lines, the trace's id, the score with its warnings, the words of the
-- checklist beyond an item's id and mark, and the note on a fixture's variables are left out.
-- `_coerce_status` is the parameter `to_int`, `str.upper` is `upper`. Metadata that is not an object,
-- on which the code raises, is read as the empty object, and the
-- target of a click that is no text, on which it raises too, as its text.
pub mod Emit
pub mod Escapes
pub mod Plain
pub mod Parts
pub mod Asserts
pub mod Waits
pub mod Order
use stepstitch.Prelude.{
  ◌-◌, ℕ, zero, suc, ◌+◌, ◌*◌, ◌≤◌, ◌<◌, ◌≡◌, refl, sym, ap, ◌∙◌, ◌↔◌, ◌⊎◌, inl, inr, String, Bool,
  true, false, not, ◌&&◌, ◌||◌, Option, none, some, List, [], ◌∷◌, ◌++◌, map, arith, ltb, leb, ◌==◌,
  str_eq, if◌then◌else◌, is_some, opt_is, get_or, Bool-cases, Option-cases, length, is_empty, head?,
  take, any, all, keep, count_if, sum_of, contains, sort_by, Result, ok, err, ◌>>=◌, ◌>>◌, raise_if,
  bind-eq-ok, eq_iff, min, max,
}
use stepstitch.Prelude.Int.{ℤ, pos, negsuc}
use stepstitch.Prelude.Text.{Text, codes, text_eq, starts_with, drop}

-- `_ts_str`: a text between single quotes.
unfoldable pub ts_str : Text → Text
ts_str [] = []
ts_str (c ∷ s) =
    if c == b'\\'
    then b'\\' ∷ b'\\' ∷ ts_str s
    else if c == b'\''
    then b'\\' ∷ b'\'' ∷ ts_str s
    else c ∷ ts_str s

-- `_comment`.
unfoldable pub comment : Text → Text
comment [] = []
comment (c ∷ s) = (if c == 13 || c == 10 then 32 else c) ∷ comment s

-- How an answer with a status is judged: below 500, not this one, or below 400.
pub data Expectation : Type 0 where
  no_server_error : Expectation
  must_not_return : ℤ → Expectation
  must_succeed : Expectation

abbrev is_server_error : ℤ → Bool
is_server_error (pos n) = leb 500 n
is_server_error (negsuc n) = false

-- `_status_assertion`.
abbrev pub expectation : Option ℤ → Expectation
expectation none = must_succeed
expectation (some z) = if is_server_error z then no_server_error else must_not_return z

pub data Statement : Type 0 where
  -- the preamble
  imports : Bool → Statement
  checklist : String → Bool → Statement
  set_field_helper open_test : Statement
  auth_fixture : Text → Statement
  auth_todo capture_page_errors : Statement
  -- the actions, with the remarks before them
  heading : Text → Text → Statement
  needs_route : List Text → Text → Statement
  go_to : Text → Statement
  labelled : Text → Statement
  click : Text → Statement
  needs_input : Text → String → Statement
  fill_from_env : Text → Statement
  synthetic : String → Statement
  fill : Text → Text → Statement
  -- the answers of the application
  matcher : ℕ → Text → Statement
  arm_wait : ℕ → Option ℕ → Text → Statement
  expected_failure : Text → Text → Statement
  await_armed : ℕ → Statement
  wait_now : ℕ → Option ℕ → Text → Statement
  expect_status : ℕ → Expectation → Text → Statement
  expect_no_exception : Text → Text → Statement
  unsupported_step : Text → Statement
  no_assertion end_test : Statement
