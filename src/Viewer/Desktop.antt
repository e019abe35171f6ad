-- ===== src/Viewer/Desktop.antt =====
-- What the viewer's frame and its dialogue rely on of wxWidgets: `wxListCtrl`, `wxNotebook`, and the
-- texts that `wxString` and `wxDateTime` make.
use dill.Base.{ℕ, zero, suc, ◌≡◌, List, [], ◌∷◌, ◌++◌, Bytes}
use dill.Viewer.Widgets.{ListCtrl}

-- A tab of a notebook: its text, and the page below it by its address.
abbrev pub Tab : Type 0
Tab = Bytes × ℕ

-- The tabs without that at a position.
unfoldable pub remove_tab : ℕ → List Tab → List Tab
remove_tab i [] = []
remove_tab zero (t ∷ ts) = ts
remove_tab (suc i) (t ∷ ts) = t ∷ remove_tab i ts

pub record Desktop : Type 1 where
  pub lists : ListCtrl
  -- A new list control.
  pub new_list : lists.Ctrl
  pub rows-new_list : lists.rows new_list ≡ []
  pub Notebook : Type 0
  pub tabs : Notebook → List Tab
  pub new_notebook : Notebook
  pub add_page : ℕ → Bytes → Notebook → Notebook
  pub delete_page : ℕ → Notebook → Notebook
  pub tabs-new_notebook : tabs new_notebook ≡ []
  pub tabs-add_page :
      (page : ℕ) (text : Bytes) (n : Notebook)
      → tabs (add_page page text n) ≡ tabs n ++ ((text, page) ∷ [])
  pub tabs-delete_page : (i : ℕ) (n : Notebook) → tabs (delete_page i n) ≡ remove_tab i (tabs n)
  -- `wxString::FromUTF8`.
  pub from_utf8 : Bytes → Bytes
  -- The text of a time stamp, of its seconds and its milliseconds.
  pub date : ℕ → ℕ → Bytes
