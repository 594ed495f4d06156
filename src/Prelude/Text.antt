-- ===== src/Prelude/Text.antt =====
-- Text that the program walks through, as the list of its code points.
use Prim.Native.Char.{code}
use Prim.Native.String.{String, ◌++◌ as str_append}
use text.Mathlib.TextLemmas.{nil-append, cons-append}
use Prim.Native.Nat.{ℕ, zero, suc}
use mathlib.Core.Path.{◌≡◌, refl}
use mathlib.Core.Logic.{◌↔◌}
use mathlib.Core.List.{◌++◌}
use native.Mathlib.Omega.{arith}
use stepstitch.Prelude.Lists.{length}
use mathlib.Core.Bool.{Bool, true, false, ◌&&◌, ◌||◌}
use mathlib.Core.List.{List, [], ◌∷◌, reverse}
use stepstitch.Prelude.Tests.{◌==◌, if◌then◌else◌}

abbrev pub Text : Type 0
Text = List ℕ

abbrev pub codes : String → Text
codes String.[] = []
codes (String.◌∷◌ c s) = code c ∷ codes s

abbrev pub text_eq : Text → Text → Bool
text_eq [] [] = true
text_eq [] (d ∷ t) = false
text_eq (c ∷ s) [] = false
text_eq (c ∷ s) (d ∷ t) = c == d && text_eq s t

-- `s.startswith(p)`.
abbrev pub starts_with : Text → Text → Bool
starts_with [] s = true
starts_with (c ∷ p) [] = false
starts_with (c ∷ p) (d ∷ s) = c == d && starts_with p s

-- `p in s`.
abbrev pub is_infix : Text → Text → Bool
is_infix p [] = starts_with p []
is_infix p (d ∷ s) = starts_with p (d ∷ s) || is_infix p s

module _ (is_space : ℕ → Bool) where
  abbrev pub lstrip : Text → Text
  lstrip [] = []
  lstrip (c ∷ s) = let rest = lstrip s in if is_space c then rest else c ∷ s

  -- `s.strip()`.
  unfoldable pub strip : Text → Text
  strip s = reverse (lstrip (reverse (lstrip s)))

module _ (is_break : ℕ → Bool) where
  lines_from : Text → Text → List Text
  lines_from [] [] = []
  lines_from (c ∷ acc) [] = reverse (c ∷ acc) ∷ []
  lines_from acc (c ∷ s) =
      let rest = lines_from [] s in
      let more = lines_from (c ∷ acc) s in if is_break c then reverse acc ∷ rest else more

  -- `s.splitlines()`; "\r\n" is brought to one "\n" first, as Python counts it as one break.
  crlf : Text → Text
  crlf [] = []
  crlf (c ∷ []) = c ∷ []
  crlf (c ∷ d ∷ s) =
      let rest = crlf s in
      let more = crlf (d ∷ s) in if c == 13 && d == 10 then 10 ∷ rest else c ∷ more

  pub splitlines : Text → List Text
  unfolding lines_from crlf
  splitlines s = lines_from [] (crlf s)

pub text_eq_iff : (s t : Text) → (text_eq s t ≡ true) ↔ (s ≡ t)
text_eq_iff [] [] = ground arith
text_eq_iff [] (d ∷ t) = ground arith
text_eq_iff (c ∷ s) [] = ground arith
text_eq_iff (c ∷ s) (d ∷ t) = ground (arith, text_eq_iff s t)

abbrev pub drop : ℕ → Text → Text
drop zero s = s
drop (suc n) [] = []
drop (suc n) (c ∷ s) = drop n s

pub starts_with-append-drop : (p s : Text) → starts_with p s ≡ true → s ≡ p ++ drop (length p) s
starts_with-append-drop [] s h = refl
starts_with-append-drop (c ∷ p) [] h = cc
starts_with-append-drop (c ∷ p) (d ∷ s) h = ground (arith, starts_with-append-drop p s)

pub codes-append : (s t : String) → codes (str_append s t) ≡ codes s ++ codes t
codes-append String.[] t = rw nil-append
codes-append (String.◌∷◌ c s) t = rw cons-append (rw (codes-append s t))
