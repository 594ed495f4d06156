-- ===== src/Examples/Compiled.antt =====
-- The test that compiler.py emits for a failing click and for an exception.
use stepstitch.Prelude.{
  true, ◌||◌, ◌≡◌, refl, String, false, Option, none, some, List, [], ◌∷◌, ◌++◌, str_eq, any,
  count_if, if◌then◌else◌,
}
use stepstitch.Prelude.Text.{codes}
use stepstitch.Json.{Json, str, obj, num, Fields, end, field}
use stepstitch.Prelude.Int.{ℤ, pos}
use stepstitch.Repro.Needs.{text_at}
use stepstitch.Examples.Settings.{py}
use stepstitch.Compiler.{comment, Statement, ts_str}
use stepstitch.Compiler.Emit.{generate_playwright_test}
use stepstitch.Compiler.Plain.{is_status, is_exception, is_nothing}
use stepstitch.Compiler.Asserts.{generate_playwright_test_asserts}
use stepstitch.Compiler.Order.{generate_playwright_test_waits}
use stepstitch.Compiler.Waits.{is_settled, run_waits}
use stepstitch.Compiler.Escapes.{read_literal, read_literal-ts_str}

abbrev to_int : Json → Option ℤ
to_int (num z) = some z
to_int v = none

abbrev upper : String → String
upper s = s

abbrev steps : List Fields
steps =
    field "type" (str "navigation") (field "route" (str "/pay/:id") end)
    ∷ field "type" (str "click") (field "target" (str "#pay") end)
    ∷ field "type" (str "api_error") (
        field "metadata"
          (obj (field "endpoint" (str "/api/pay") (field "status" (num (pos 503)) end))) end)
    ∷ field "type" (str "exception")
        (field "metadata" (obj (field "name" (str "TypeError") end)) end)
    ∷ []

abbrev test : List Statement
test = generate_playwright_test py to_int upper steps "https://app.test" none

-- The message of an assertion holds the endpoint as a remark has it, not escaped: a quote ends it.
quote_in_endpoint :
    read_literal false (comment (codes "/it's") ++ codes "')") ≡ some (codes "/it", codes "s')")
unfolding read_literal comment
quote_in_endpoint = refl

generate_playwright_test_asserts_example :
    let kind : Fields → String = λ s. py.lower (text_at py "type" s) in
    (count_if is_status test ≡ count_if (λ s. str_eq (kind s) "api_error") steps)
    × (count_if is_exception test ≡ count_if (λ s. str_eq (kind s) "exception") steps)
    × (count_if is_nothing test ≡ (
        if any (λ s. str_eq (kind s) "api_error" || str_eq (kind s) "exception") steps
        then 0
        else 1))
generate_playwright_test_asserts_example =
    generate_playwright_test_asserts py to_int upper steps "https://app.test" none

generate_playwright_test_waits_example : is_settled (run_waits (some (false, none)) test) ≡ true
generate_playwright_test_waits_example =
    generate_playwright_test_waits py to_int upper steps "https://app.test" none

read_literal-ts_str_example :
    read_literal false (ts_str (codes "it's \\ here") ++ b'\'' ∷ codes ");")
    ≡ some (codes "it's \\ here", codes ");")
read_literal-ts_str_example = read_literal-ts_str (codes "it's \\ here") (codes ");") refl
