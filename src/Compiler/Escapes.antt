-- ===== src/Compiler/Escapes.antt =====
-- The texts that compiler.py writes into the test: a literal between single quotes, and a remark.
use stepstitch.Prelude.{
  ℕ, ◌≡◌, refl, sym, ap, inl, inr, Bool, true, false, not, ◌||◌, Option, none, some, [], ◌∷◌, ◌++◌,
  arith, ◌==◌, if◌then◌else◌, Bool-cases, all,
}
use stepstitch.Prelude.Text.{Text}
use stepstitch.Compiler.{ts_str, comment}

abbrev breaks_line : ℕ → Bool
breaks_line c = c == 10 || c == 13

abbrev pub one_line : Text → Bool
one_line s = all (λ c. not (breaks_line c)) s

abbrev pub keep_char : ℕ → Option (Text × Text) → Option (Text × Text)
keep_char c none = none
keep_char c (some (s, rest)) = some (c ∷ s, rest)

-- How TypeScript reads on after a single quote: up to the next one that no backslash escapes, and none where
-- the line ends first.
unfoldable pub read_literal : Bool → Text → Option (Text × Text)
read_literal escaped [] = none
read_literal true (c ∷ s) = keep_char c (read_literal false s)
read_literal false (c ∷ s) =
    let next = read_literal true s in
    let rest = read_literal false s in
    if c == b'\\'
    then next
    else if c == b'\''
    then some ([], s)
    else if breaks_line c
    then none
    else keep_char c rest

is_same : (c d : ℕ) → (c == d) ≡ true → c ≡ d
is_same c d h = ground (arith, h)

-- A text without line breaks, escaped and followed by a quote, is read back as it was, and what
-- follows the quote stays.
pub read_literal-ts_str :
    (s rest : Text)
    → one_line s ≡ true
    → read_literal false (ts_str s ++ b'\'' ∷ rest) ≡ some (s, rest)
unfolding ts_str read_literal
read_literal-ts_str [] rest h = refl
read_literal-ts_str (c ∷ s) rest h = elim (Bool-cases (c == b'\\')) [
  | inl e ↦
      rw (e, read_literal-ts_str s rest (ground (arith, h)))
        (ap (λ d. some (d ∷ s, rest)) (sym (is_same c b'\\' e)))
  | inr e ↦ elim (Bool-cases (c == b'\'')) [
    | inl f ↦
        rw (e, f, read_literal-ts_str s rest (ground (arith, h)))
          (ap (λ d. some (d ∷ s, rest)) (sym (is_same c b'\'' f)))
    | inr f ↦ elim (Bool-cases (breaks_line c)) [
      | inl g ↦ ground (arith, h, g)
      | inr g ↦ rw (e, f, g, read_literal-ts_str s rest (ground (arith, h, g)), e, f) refl
    ]
  ]
]

-- A remark is one line, whatever its text.
pub comment-one_line : (s : Text) → one_line (comment s) ≡ true
unfolding comment
comment-one_line [] = refl
comment-one_line (c ∷ s) = elim (Bool-cases (c == 13 || c == 10)) [
  | inl e ↦ rw e (comment-one_line s)
  | inr e ↦ rw e (ground (arith, e, comment-one_line s))
]
