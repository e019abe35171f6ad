-- ===== src/Viewer/Widgets.antt =====
-- What the viewer relies on of wxWidgets: `wxListCtrl` in its report view and `wxNotebook`, each as a
-- record of its operations and of what they do to what is seen.
use dill.Base.{
  ℕ, zero, suc, ◌≡◌, refl, ap, List, [], ◌∷◌, ◌++◌, arith, Bytes, ◌==◌, if◌then◌else◌, length,
}

-- The entries of `textColors`.
pub data TextColour : Type 0 where
  black blue forest_green gold red : TextColour

-- A row of a list: the texts of its columns and its colour.
pub record Row : Type 0 where
  pub cell : ℕ → Bytes
  pub colour : TextColour

abbrev pub new_row : Bytes → Row
new_row label = record { cell = λ k. if k == 0 then label else []; colour = black }

abbrev pub put_cell : ℕ → Bytes → Row → Row
put_cell col text r = record r { cell = λ k. if k == col then text else r.cell k }

abbrev pub put_colour : TextColour → Row → Row
put_colour colour r = record r { colour = colour }

abbrev pub change_row : ℕ → (Row → Row) → List Row → List Row
change_row pos f [] = []
change_row zero f (r ∷ rs) = f r ∷ rs
change_row (suc pos) f (r ∷ rs) = r ∷ change_row pos f rs

pub record ListCtrl : Type 1 where
  pub Ctrl : Type 0
  pub rows : Ctrl → List Row
  pub get_item_count : Ctrl → ℕ
  pub insert_item : ℕ → Bytes → Ctrl → Ctrl
  pub set_item : ℕ → ℕ → Bytes → Ctrl → Ctrl
  pub set_item_text_colour : ℕ → TextColour → Ctrl → Ctrl
  pub clear_all : Ctrl → Ctrl
  pub get_item_count_lem : (c : Ctrl) → get_item_count c ≡ length (rows c)
  -- An item whose position is the number of items goes to the end.
  pub rows-insert_item :
      (pos : ℕ) (label : Bytes) (c : Ctrl)
      → pos ≡ length (rows c)
      → rows (insert_item pos label c) ≡ rows c ++ (new_row label ∷ [])
  pub rows-set_item :
      (pos col : ℕ) (text : Bytes) (c : Ctrl)
      → rows (set_item pos col text c) ≡ change_row pos (put_cell col text) (rows c)
  pub rows-set_item_text_colour :
      (pos : ℕ) (colour : TextColour) (c : Ctrl)
      → rows (set_item_text_colour pos colour c) ≡ change_row pos (put_colour colour) (rows c)
  pub rows-clear_all : (c : Ctrl) → rows (clear_all c) ≡ []

pub length-change_row :
    (pos : ℕ) (f : Row → Row) (rs : List Row) → length (change_row pos f rs) ≡ length rs
length-change_row pos f [] = refl
length-change_row zero f (r ∷ rs) = refl
length-change_row (suc pos) f (r ∷ rs) = ap suc (length-change_row pos f rs)

-- The row behind all others is changed.
pub change_row_last :
    (rs : List Row) (r : Row) (pos : ℕ) (f : Row → Row)
    → pos ≡ length rs
    → change_row pos f (rs ++ (r ∷ [])) ≡ rs ++ (f r ∷ [])
change_row_last [] r zero f h = refl
change_row_last [] r (suc pos) f h = absurd (omega arith)
change_row_last (x ∷ rs) r zero f h = absurd (omega arith)
change_row_last (x ∷ rs) r (suc pos) f h = ap (◌∷◌ x) (change_row_last rs r pos f (omega arith))
