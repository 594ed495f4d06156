-- ===== src/Scrub/Selectors.antt =====
-- The strict schema of scrubber.py: selectors that carry no author's text, and declared routes.
use stepstitch.Prelude.{
  ℕ, String, Bool, true, false, ◌&&◌, ◌||◌, Option, none, some, List, [], ◌∷◌, leb, ◌==◌, str_eq,
  if◌then◌else◌, length, any, all,
}
use mathlib.Core.List.{reverse}
use stepstitch.Prelude.Text.{Text, codes, text_eq, starts_with, drop}

abbrev is_lower : ℕ → Bool
is_lower c = leb 97 c && leb c 122

abbrev is_tag_char : ℕ → Bool
is_tag_char c = is_lower c || (leb 48 c && leb c 57) || (c == 45)

-- `$`: the end, or a newline that ends the text.
abbrev pub is_end : Text → Bool
is_end [] = true
is_end (c ∷ []) = c == 10
is_end (c ∷ d ∷ s) = false

abbrev skip : (ℕ → Bool) → Text → Text
skip p [] = []
skip p (c ∷ s) = let rest = skip p s in if p c then rest else c ∷ s

abbrev closes : Text → Bool
closes [] = false
closes (c ∷ s) = (c == 41) && is_end s

abbrev starts : (ℕ → Bool) → Text → Bool
starts p [] = false
starts p (c ∷ s) = p c

-- `s.split(" > ")`, with the segment that was read so far, in reverse.
unfoldable pub split_arrow : Text → Text → List Text
split_arrow acc (a ∷ b ∷ c ∷ s) =
    let cut = split_arrow [] s in
    let more = split_arrow (a ∷ acc) (b ∷ c ∷ s) in
    if (a == 32) && (b == 62) && (c == 32) then reverse acc ∷ cut else more
split_arrow acc (a ∷ b ∷ []) = reverse (b ∷ a ∷ acc) ∷ []
split_arrow acc (a ∷ []) = reverse (a ∷ acc) ∷ []
split_arrow acc [] = reverse acc ∷ []

-- `s.split("/")`.
unfoldable pub split_slash : Text → Text → List Text
split_slash acc [] = reverse acc ∷ []
split_slash acc (c ∷ s) =
    let cut = split_slash [] s in
    let more = split_slash (c ∷ acc) s in if c == 47 then reverse acc ∷ cut else more

-- The contents of the quotes up to `"]` and the end, without the escaping backslashes.
unfoldable pub quoted : Text → Option Text
quoted [] = none
quoted (c ∷ []) = none
quoted (c ∷ d ∷ s) =
    let plain = quoted (d ∷ s) in
    let escaped = quoted s in
    if c == 34
    then (if (d == 93) && is_end s then some [] else none)
    else if c == 92
    then (if d == 10 then none else elim escaped [ none ↦ none | some t ↦ some (d ∷ t) ])
    else elim plain [ none ↦ none | some t ↦ some (c ∷ t) ]

abbrev pub testid_of : Text → Option Text
testid_of s =
    if starts_with (codes "[data-testid=\"") s
    then quoted (drop (length (codes "[data-testid=\"")) s)
    else none

abbrev pub is_approved : Option Text → List String → Bool
is_approved none approved = false
is_approved (some t) approved = any (λ a. text_eq (codes a) t) approved

-- A template's segment stands for any segment where it begins with a colon.
abbrev pub segments_match : List Text → List Text → Bool
segments_match [] [] = true
segments_match (t ∷ ts) (r ∷ rs) =
    (starts_with (codes ":") t || text_eq t r) && segments_match ts rs
segments_match _ _ = false

unfoldable pub route_matches_templates : String → List String → Bool
route_matches_templates route templates =
    any (λ t. segments_match (split_slash [] (codes t)) (split_slash [] (codes route))) templates

module _ (is_digit : ℕ → Bool) where
  abbrev nth_of_type : Text → Bool
  nth_of_type s =
      let rest = drop (length (codes ":nth-of-type(")) s in
      starts_with (codes ":nth-of-type(") s && starts is_digit rest && closes (skip is_digit rest)

  unfoldable pub is_structural : Text → Bool
  is_structural [] = false
  is_structural (c ∷ s) =
      let rest = skip is_tag_char s in is_lower c && (is_end rest || nth_of_type rest)

  abbrev pub segment_allowed : List String → Text → Bool
  segment_allowed approved s = is_structural s || is_approved (testid_of s) approved

  unfoldable pub selector_allowed : String → List String → Bool
  selector_allowed target approved =
      str_eq target "" || all (segment_allowed approved) (split_arrow [] (codes target))
