-- ===== src/Runner/Summaries.antt =====
-- What `classify_run` of runner.py takes for a run summary, and for a run that failed the test.
use stepstitch.Prelude.{
  arith, ◌↔◌, inl, inr, ◌≡◌, refl, ap, String, Bool, true, false, not, ◌&&◌, ◌||◌, Option, none,
  List, [], ◌∷◌, ◌++◌, any, all, is_empty, contains, str_eq, eq_iff, Bool-cases,
}
use stepstitch.Prelude.Int.{ℤ}
use stepstitch.Prelude.Text.{Text, codes, is_infix}
use stepstitch.Runner.Classify.{
  Chars, never_ran_markers, find_marker, exit_is_zero, outcome_words, at_end_of_word, whole_word,
  outcome_word, spaces_outcome, digits_outcome, search_from, has_summary, classify_run,
  classify_run_lem,
}

first_of : (a b : Bool) → (a && b) ≡ true → a ≡ true
first_of true b h = refl
first_of false b h = cc

second_of : (a b : Bool) → (a && b) ≡ true → b ≡ true
second_of true b h = h
second_of false b h = cc

here : (a b e : Bool) → a ≡ true → b ≡ true → (a && (b || e)) ≡ true
here a b e h i = rw (h, i) refl

later : (a b e : Bool) → a ≡ true → e ≡ true → (a && (b || e)) ≡ true
later a true e h i = rw h refl
later a false e h i = rw (h, i) refl

any-contains :
    (p : String → Bool) (ws : List String)
    → any p ws ≡ true
    → (w : String) × (contains w ws ≡ true) × (p w ≡ true)
any-contains p [] h = cc
any-contains p (w ∷ ws) h = elim (Bool-cases (p w)) [
  | inl e ↦ (w, ground (arith, (eq_iff w w).1 refl), e)
  | inr e ↦
      let (v, listed, ok) = any-contains p ws (ground (arith, h, e)) in
      (v, ground (arith, listed), ok)
]

contains-any :
    (p : String → Bool) (w : String) (ws : List String)
    → contains w ws ≡ true
    → p w ≡ true
    → any p ws ≡ true
contains-any p w [] h e = cc
contains-any p w (v ∷ ws) h e = elim (Bool-cases (str_eq v w)) [
  | inl same ↦ rw ((eq_iff v w).0 same, e) refl
  | inr other ↦ ground (arith, contains-any p w ws (ground (arith, h, other)) e)
]

-- No marker is in the text.
pub find_marker-none :
    (ms : List String) (text : Text)
    → (find_marker ms text ≡ none) ↔ (any (λ m. is_infix (codes m) text) ms ≡ false)
unfolding find_marker
find_marker-none [] text = (λ h. refl, λ h. refl)
find_marker-none (m ∷ ms) text = elim (Bool-cases (is_infix (codes m) text)) [
  | inl e ↦ rw e (λ h. cc, λ h. cc)
  | inr e ↦ rw e (find_marker-none ms text)
]

module _ (c : Chars) where
  -- The front of a text ends where a word may begin.
  abbrev pub ends_apart : Bool → Text → Bool
  ends_apart behind [] = not behind
  ends_apart behind (d ∷ s) = ends_apart (c.is_word d) s

  -- One of the outcomes, as a whole word at its end.
  abbrev pub IsOutcome : Text → Type 0
  IsOutcome s =
      (w : String) × (after : Text) × (contains w outcome_words ≡ true)
      × (s ≡ codes w ++ after)
      × (at_end_of_word c after ≡ true)

  -- White space, at least one character, and an outcome.
  abbrev pub IsSpacedOutcome : Text → Type 0
  IsSpacedOutcome s =
      (gap : Text) × (rest : Text) × (s ≡ gap ++ rest)
      × (is_empty gap ≡ false)
      × (all c.is_space gap ≡ true)
      × IsOutcome rest

  abbrev pub IsCountedOutcome : Text → Type 0
  IsCountedOutcome s =
      (count : Text) × (rest : Text) × (s ≡ count ++ rest)
      × (is_empty count ≡ false)
      × (all c.is_digit count ≡ true)
      × IsSpacedOutcome rest

  -- A text with a run summary: somewhere, not inside a word, digits, white space and an outcome.
  abbrev pub IsSummary : Text → Type 0
  IsSummary text =
      (before : Text) × (rest : Text) × (text ≡ before ++ rest)
      × (ends_apart false before ≡ true)
      × IsCountedOutcome rest

  whole_word-append :
      (p s : Text)
      → whole_word c p s ≡ true
      → (after : Text) × (s ≡ p ++ after) × (at_end_of_word c after ≡ true)
  unfolding whole_word
  whole_word-append [] s h = (s, refl, h)
  whole_word-append (a ∷ p) [] h = cc
  whole_word-append (a ∷ p) (b ∷ s) h =
      let (after, same, apart) = whole_word-append p s (ground (arith, h)) in
      let first : b ≡ a = ground (arith, h) in (after, rw (same, first) refl, apart)

  append-whole_word :
      (p after : Text) → at_end_of_word c after ≡ true → whole_word c p (p ++ after) ≡ true
  unfolding whole_word
  append-whole_word [] after h = h
  append-whole_word (a ∷ p) after h = ground (arith, append-whole_word p after h)

  outcome_word-IsOutcome : (s : Text) → (outcome_word c s ≡ true) ↔ IsOutcome s
  outcome_word-IsOutcome s = (
    λ h.
        (let (w, listed, whole) = any-contains (λ w. whole_word c (codes w) s) outcome_words h in
          let (after, same, apart) = whole_word-append (codes w) s whole in
          (w, after, listed, same, apart)),
    λ (w, after, listed, same, apart).
        contains-any (λ w. whole_word c (codes w) s) w outcome_words listed
          (rw same (append-whole_word (codes w) after apart)),
  )

  spaces_outcome-IsSpacedOutcome : (s : Text) → spaces_outcome c s ≡ true → IsSpacedOutcome s
  unfolding spaces_outcome
  spaces_outcome-IsSpacedOutcome [] h = cc
  spaces_outcome-IsSpacedOutcome (d ∷ s) h =
      let space : c.is_space d ≡ true = ground (arith, h) in
      elim (Bool-cases (outcome_word c s)) [
        | inl e ↦ (d ∷ [], s, refl, refl, rw space refl, (outcome_word-IsOutcome s).0 e)
        | inr e ↦
            let (gap, rest, same, _, spaces, next) =
              spaces_outcome-IsSpacedOutcome s (ground (arith, h, e)) in
            (d ∷ gap, rest, ap (λ t. d ∷ t) same, refl, rw (space, spaces) refl, next)
      ]

  IsOutcome-spaces_outcome :
      (gap rest : Text)
      → is_empty gap ≡ false
      → all c.is_space gap ≡ true
      → IsOutcome rest
      → spaces_outcome c (gap ++ rest) ≡ true
  unfolding spaces_outcome
  IsOutcome-spaces_outcome [] rest h a o = cc
  IsOutcome-spaces_outcome (d ∷ []) rest h a o =
      here (c.is_space d) (outcome_word c rest) (spaces_outcome c rest)
        (first_of (c.is_space d) true a) ((outcome_word-IsOutcome rest).1 o)
  IsOutcome-spaces_outcome (d ∷ g ∷ gap) rest h a o =
      let spaces = second_of (c.is_space d) (all c.is_space (g ∷ gap)) a in
      later (c.is_space d) (outcome_word c (g ∷ gap ++ rest)) (spaces_outcome c (g ∷ gap ++ rest))
        (first_of (c.is_space d) (all c.is_space (g ∷ gap)) a)
        (IsOutcome-spaces_outcome (g ∷ gap) rest refl spaces o)

  digits_outcome-IsCountedOutcome : (s : Text) → digits_outcome c s ≡ true → IsCountedOutcome s
  unfolding digits_outcome
  digits_outcome-IsCountedOutcome [] h = cc
  digits_outcome-IsCountedOutcome (d ∷ s) h =
      let digit : c.is_digit d ≡ true = ground (arith, h) in
      elim (Bool-cases (spaces_outcome c s)) [
        | inl e ↦ (d ∷ [], s, refl, refl, rw digit refl, spaces_outcome-IsSpacedOutcome s e)
        | inr e ↦
            let (count, rest, same, _, digits, next) =
              digits_outcome-IsCountedOutcome s (ground (arith, h, e)) in
            (d ∷ count, rest, ap (λ t. d ∷ t) same, refl, rw (digit, digits) refl, next)
      ]

  IsSpacedOutcome-digits_outcome :
      (count rest : Text)
      → is_empty count ≡ false
      → all c.is_digit count ≡ true
      → spaces_outcome c rest ≡ true
      → digits_outcome c (count ++ rest) ≡ true
  unfolding digits_outcome
  IsSpacedOutcome-digits_outcome [] rest h a o = cc
  IsSpacedOutcome-digits_outcome (d ∷ []) rest h a o =
      here (c.is_digit d) (spaces_outcome c rest) (digits_outcome c rest)
        (first_of (c.is_digit d) true a) o
  IsSpacedOutcome-digits_outcome (d ∷ g ∷ count) rest h a o =
      let digits = second_of (c.is_digit d) (all c.is_digit (g ∷ count)) a in
      later (c.is_digit d) (spaces_outcome c (g ∷ count ++ rest))
        (digits_outcome c (g ∷ count ++ rest))
        (first_of (c.is_digit d) (all c.is_digit (g ∷ count)) a)
        (IsSpacedOutcome-digits_outcome (g ∷ count) rest refl digits o)

  search_from-split :
      (behind : Bool) (s : Text)
      → search_from c behind s ≡ true
      → (before : Text) × (rest : Text) × (s ≡ before ++ rest)
        × (ends_apart behind before ≡ true)
        × (digits_outcome c rest ≡ true)
  unfolding search_from
  search_from-split behind [] h = cc
  search_from-split behind (d ∷ s) h = elim (Bool-cases (not behind && digits_outcome c (d ∷ s))) [
    | inl e ↦ ([], d ∷ s, refl, ground (arith, e), ground (arith, e))
    | inr e ↦
        let (before, rest, same, apart, found) =
          search_from-split (c.is_word d) s (ground (arith, h, e)) in
        (d ∷ before, rest, ap (λ t. d ∷ t) same, apart, found)
  ]

  split-search_from :
      (behind : Bool) (before rest : Text)
      → ends_apart behind before ≡ true
      → digits_outcome c rest ≡ true
      → search_from c behind (before ++ rest) ≡ true
  unfolding search_from digits_outcome
  split-search_from behind [] [] a o = cc
  split-search_from behind [] (d ∷ rest) a o = ground (arith, a, o)
  split-search_from behind (d ∷ before) rest a o =
      ground (arith, split-search_from (c.is_word d) before rest a o)

  pub has_summary-IsSummary : (text : Text) → (has_summary c text ≡ true) ↔ IsSummary text
  unfolding has_summary
  has_summary-IsSummary text = (
    λ h.
        (let (before, rest, same, apart, found) = search_from-split false text h in
          (before, rest, same, apart, digits_outcome-IsCountedOutcome rest found)),
    λ (
      before,
      rest,
      same,
      apart,
      (count, spaced, cut, some_digit, digits, (gap, outcome, split, some_gap, spaces, last)),
    ).
        rw (same, cut, split)
          (split-search_from false before (count ++ (gap ++ outcome)) apart (
            IsSpacedOutcome-digits_outcome count (gap ++ outcome) some_digit digits
              (IsOutcome-spaces_outcome gap outcome some_gap spaces last))),
  )

  -- A run passes exactly on exit code 0. It counts as a failure of the application exactly when the
  -- exit code is not 0, none of the markers of a run that never started is in the transcript, and the
  -- transcript has a summary: digits with no character of a word in front, white space, and an outcome
  -- with no character of a word behind.
  pub classify_run_exact :
      (exit_code : Option ℤ) (text : Text)
      → let r = classify_run c exit_code text in
        ((r.0 ≡ true) ↔ (exit_is_zero exit_code ≡ true))
        × (((r.0 ≡ false) × (r.1 ≡ false)) ↔ (
            (exit_is_zero exit_code ≡ false)
            × (any (λ m. is_infix (codes m) text) never_ran_markers ≡ false)
            × IsSummary text))
  classify_run_exact exit_code text =
      let (passes, fails) = classify_run_lem c exit_code text in
      let marked = find_marker-none never_ran_markers text in
      let summary = has_summary-IsSummary text in
      (
        passes,
        (
          λ h. (let (code, free, found) = fails.0 h in (code, marked.0 free, summary.0 found)),
          λ (code, free, found). fails.1 (code, marked.1 free, summary.1 found),
        ),
      )
