-- ===== src/Shapes/Board.antt =====
-- The board of shapes.py: every shape stands in the column of its stage.
use stepstitch.Prelude.{
  length-keep, ◌+◌, ◌≡◌, refl, sym, ap, ◌∙◌, Bool, true, false, List, [], ◌∷◌, ◌++◌, arith, ◌==◌,
  if◌then◌else◌, length, keep, count_if,
}
use stepstitch.Shapes.{
  Stage, fixed, fix_failed, reproduced, repro_invalid, known_shape, untriaged, Shape, Columns, put,
  fill, board, stage_rank, no_shapes,
}

-- The column of a stage.
abbrev pub column : Stage → Columns → List Shape
column untriaged b = b.untriaged
column known_shape b = b.known_shape
column repro_invalid b = b.repro_invalid
column reproduced b = b.reproduced
column fix_failed b = b.fix_failed
column fixed b = b.fixed

abbrev pub at_stage : Stage → Shape → Bool
at_stage st s = stage_rank s.stage == stage_rank st

column-put :
    (st st' : Stage) (s : Shape) (b : Columns)
    → column st (put st' s b)
      ≡ (if stage_rank st' == stage_rank st then column st b ++ s ∷ [] else column st b)
column-put st st' s b = ground arith

append_assoc {ℓ} : {A : Type ℓ} (xs ys zs : List A) → (xs ++ ys) ++ zs ≡ xs ++ (ys ++ zs)
append_assoc [] ys zs = refl
append_assoc (x ∷ xs) ys zs = ap (λ l. x ∷ l) (append_assoc xs ys zs)

append-one {ℓ} :
    {A : Type ℓ} (b : Bool) (x : A) (xs ys : List A)
    → (if b then xs ++ x ∷ [] else xs) ++ ys ≡ xs ++ (if b then x ∷ ys else ys)
append-one true x xs ys = append_assoc xs (x ∷ []) ys
append-one false x xs ys = refl

append_nil {ℓ} : {A : Type ℓ} (xs : List A) → xs ++ [] ≡ xs
append_nil [] = refl
append_nil (x ∷ xs) = ap (λ l. x ∷ l) (append_nil xs)

column-fill :
    (st : Stage) (ss : List Shape) (b : Columns)
    → column st (fill b ss) ≡ column st b ++ keep (at_stage st) ss
unfolding fill
column-fill st [] b = sym (append_nil (column st b))
column-fill st (s ∷ ss) b =
    column-fill st ss (put s.stage s b)
    ∙ ap (λ l. l ++ keep (at_stage st) ss) (column-put st s.stage s b)
    ∙ append-one (at_stage st s) s (column st b) (keep (at_stage st) ss)

column_nil : (st : Stage) → column st no_shapes ≡ []
column_nil st = ground arith

column-board :
    (st : Stage) (shapes : List Shape) → column st (board shapes) ≡ keep (at_stage st) shapes
unfolding board
column-board st shapes =
    column-fill st shapes no_shapes ∙ ap (λ l. l ++ keep (at_stage st) shapes) (column_nil st)

count_stages :
    (ss : List Shape)
    → count_if (at_stage untriaged) ss
        + count_if (at_stage known_shape) ss
        + count_if (at_stage repro_invalid) ss
        + count_if (at_stage reproduced) ss
        + count_if (at_stage fix_failed) ss
        + count_if (at_stage fixed) ss
      ≡ length ss
count_stages [] = refl
count_stages (s ∷ ss) = ground (arith, count_stages ss)

length-column :
    (st : Stage) (ss : List Shape) → length (column st (board ss)) ≡ count_if (at_stage st) ss
length-column st ss = ap length (column-board st ss) ∙ length-keep (at_stage st) ss

-- Each column of the board holds the shapes of its stage, in their order, and the columns
-- together hold as many shapes as there are.
pub board_columns :
    (st : Stage) (shapes : List Shape)
    → let b = board shapes in
      (column st b ≡ keep (λ s. stage_rank s.stage == stage_rank st) shapes)
      × (length b.untriaged
            + length b.known_shape
            + length b.repro_invalid
            + length b.reproduced
            + length b.fix_failed
            + length b.fixed
          ≡ length shapes)
board_columns st shapes = (
  column-board st shapes,
  omega (
    arith,
    count_stages shapes,
    length-column untriaged shapes,
    length-column known_shape shapes,
    length-column repro_invalid shapes,
    length-column reproduced shapes,
    length-column fix_failed shapes,
    length-column fixed shapes,
  ),
)
