-- ===== src/Viewer/Page/Registers.antt =====
-- The list of registers of a page (dlv/dlv_channelpage.cpp) shows the latest content of each register.

use dill.Base.{
  get_elem?-append_left, get_elem?-append_last, get_elem?-some, length-map, zero, refl, sym, ◌∙◌,
  subst, ◌≢◌, true, false, ==_refl, Option-cases, not-==, bytes_eq_refl, bytes_eq_sym, bytes_eq→eq,
  if◌then◌else◌, ℕ, ◌+◌, ◌≡◌, Option, none, some, List, [], ◌∷◌, map, Bytes, get_elem?, ◌<◌, ◌++◌,
  length, arith, Bool-cases, bytes_eq, inl, ap, ◌==◌, inr, suc,
}
use mathlib.Core.List.{map-append}
use dill.Viewer.Widgets.{ListCtrl, Row, change_row, put_cell, new_row, change_row_last}
use dill.Viewer.Page.{DlvChannelPage, find_register, on_update_register}
use dill.Viewer.Events.{DlvEvtDataRegister}

-- The positions of the registers count up from `k`.
abbrev pub Numbered : ℕ → List (Bytes × ℕ) → Type 0
Numbered k [] = Unit
Numbered k ((key, pos) ∷ m) = (pos ≡ k) × Numbered (k + 1) m

Numbered-append :
    (k pos : ℕ) (m : List (Bytes × ℕ)) (key : Bytes)
    → Numbered k m
    → pos ≡ k + length m
    → Numbered k (m ++ ((key, pos) ∷ []))
Numbered-append k pos [] key v h = (omega (arith, h), tt)
Numbered-append k pos (e ∷ m) key v h =
    (v.0, Numbered-append (k + 1) pos m key v.1 (omega (arith, h)))

-- A register that is found is at its position.
find_register-key :
    (k pos : ℕ) (m : List (Bytes × ℕ)) (name : Bytes)
    → Numbered k m
    → find_register name m ≡ some pos
    → (j : ℕ) × (pos ≡ k + j) × (j < length m) × (get_elem? (map (λ e. e.0) m) j ≡ some name)
unfolding find_register
find_register-key k pos [] name v h = cc
find_register-key k pos ((key, i) ∷ m) name v h = elim (Bool-cases (bytes_eq key name)) [
  | inl e ↦
      let h' : some i ≡ some pos = rw e at h in
      let at : i ≡ pos = cc in
      (0, omega (arith, v.0, at), omega arith, ap some (bytes_eq→eq key name e))
  | inr e ↦
      let (j, at, within, named) = find_register-key (k + 1) pos m name v.1 (rw e at h) in
      (suc j, omega (arith, at), omega (arith, within), named)
]

find_register-append :
    (m : List (Bytes × ℕ)) (key name : Bytes) (pos : ℕ)
    → find_register key m ≡ none
    → find_register name (m ++ ((key, pos) ∷ []))
      ≡ (if bytes_eq key name then some pos else find_register name m)
unfolding find_register
find_register-append [] key name pos h = refl
find_register-append ((k, i) ∷ m) key name pos h = elim (Bool-cases (bytes_eq k key)) [
  | inl e ↦ let h' : some i ≡ none = rw e at h in cc
  | inr e ↦ elim (Bool-cases (bytes_eq k name)) [
    | inl n ↦
        let other : bytes_eq key name ≡ false =
          bytes_eq_sym key name ∙ (rw (bytes_eq→eq k name n) at e) in
        rw (n, other) refl
    | inr n ↦ rw n (find_register-append m key name pos (rw e at h))
  ]
]

-- A row among those that are changed at a position.
get_elem?-change_row :
    (pos j : ℕ) (f : Row → Row) (rs : List Row) (r : Row)
    → get_elem? rs j ≡ some r
    → get_elem? (change_row pos f rs) j ≡ some (if pos == j then f r else r)
get_elem?-change_row pos j f [] r h = cc
get_elem?-change_row zero zero f (x ∷ rs) r h = ground arith
get_elem?-change_row zero (suc j) f (x ∷ rs) r h = ground arith
get_elem?-change_row (suc pos) zero f (x ∷ rs) r h = ground arith
get_elem?-change_row (suc pos) (suc j) f (x ∷ rs) r h =
    ground (arith, get_elem?-change_row pos j f rs r h)

-- What a map of registers and the rows of a list show for a register: the second column.
unfoldable pub content : Bytes → List (Bytes × ℕ) → List Row → Option Bytes
content name m rs = elim (find_register name m) [
  | none ↦ none
  | some pos ↦ elim (get_elem? rs pos) [ none ↦ none | some r ↦ some (r.cell 1) ]
]

content_absent :
    (name : Bytes) (m : List (Bytes × ℕ)) (rs : List Row)
    → find_register name m ≡ none
    → content name m rs ≡ none
unfolding content
content_absent name m rs h = rw (h, content) refl

content_found :
    (name : Bytes) (pos : ℕ) (m : List (Bytes × ℕ)) (rs : List Row) (r : Row)
    → find_register name m ≡ some pos
    → get_elem? rs pos ≡ some r
    → content name m rs ≡ some (r.cell 1)
unfolding content
content_found name pos m rs r h k = rw (h, content) (rw (k, content) refl)

content-change_row :
    (key name text : Bytes) (pos : ℕ) (m : List (Bytes × ℕ)) (rs : List Row)
    → Numbered 0 m
    → length rs ≡ length m
    → find_register key m ≡ some pos
    → content name m (change_row pos (put_cell 1 text) rs)
      ≡ (if bytes_eq key name then some text else content name m rs)
content-change_row key name text pos m rs v l h =
    let rs' = change_row pos (put_cell 1 text) rs in
    let (k, at', within', named') = find_register-key 0 pos m key v h in
    elim (Bool-cases (bytes_eq key name)) [
      | inl e ↦
          let found : find_register name m ≡ some pos = rw (← bytes_eq→eq key name e) h in
          let (r, here) = get_elem?-some rs pos (omega (arith, at', within', l)) in
          let changed : get_elem? rs' pos ≡ some (put_cell 1 text r) =
            get_elem?-change_row pos pos (put_cell 1 text) rs r here ∙ rw (==_refl pos) refl in
          rw e (content_found name pos m rs' (put_cell 1 text r) found changed)
      | inr e ↦ elim (Option-cases (find_register name m)) [
        | inl absent ↦
            rw e (content_absent name m rs' absent ∙ sym (content_absent name m rs absent))
        | inr (i, found) ↦
            let (j, at, within, named) = find_register-key 0 i m name v found in
            let (r, here) = get_elem?-some rs i (omega (arith, at, within, l)) in
            let apart : pos ≢ i = λ same.
              let there : get_elem? (map (λ e. e.0) m) j ≡ some key =
                subst (λ n. get_elem? (map (λ e. e.0) m) n ≡ some key)
                  (omega (arith, same, at, at')) named' in
              let same_name : key ≡ name = cc in
              let yes_eq : bytes_eq key name ≡ true = rw same_name (bytes_eq_refl name) in cc in
            let changed : get_elem? rs' i ≡ some r =
              get_elem?-change_row pos i (put_cell 1 text) rs r here
              ∙ rw (not-== pos i apart) refl in
            rw e (
              content_found name i m rs' r found changed
              ∙ sym (content_found name i m rs r found here))
      ]
    ]

content-append :
    (key name : Bytes) (pos : ℕ) (r : Row) (m : List (Bytes × ℕ)) (rs : List Row)
    → Numbered 0 m
    → length rs ≡ length m
    → pos ≡ length rs
    → find_register key m ≡ none
    → content name (m ++ ((key, pos) ∷ [])) (rs ++ (r ∷ []))
      ≡ (if bytes_eq key name then some (r.cell 1) else content name m rs)
content-append key name pos r m rs v l end h =
    let m' = m ++ ((key, pos) ∷ []) in
    let rs' = rs ++ (r ∷ []) in
    let find = find_register-append m key name pos h in
    elim (Bool-cases (bytes_eq key name)) [
      | inl e ↦
          rw e (
            content_found name pos m' rs' r (find ∙ rw e refl) (get_elem?-append_last rs r pos end))
      | inr e ↦ elim (Option-cases (find_register name m)) [
        | inl absent ↦ rw e (
            content_absent name m' rs' (find ∙ rw e absent) ∙ sym (content_absent name m rs absent))
        | inr (i, found) ↦
            let (j, at, within, named) = find_register-key 0 i m name v found in
            let (x, here) = get_elem?-some rs i (omega (arith, at, within, l)) in
            let still = get_elem?-append_left rs (r ∷ []) i (omega (arith, at, within, l)) ∙ here in
            rw e (
              content_found name i m' rs' x (find ∙ rw e found) still
              ∙ sym (content_found name i m rs x found here))
      ]
    ]

cells-change_row :
    (pos : ℕ) (text : Bytes) (rs : List Row)
    → map (λ r. r.cell 0) (change_row pos (put_cell 1 text) rs) ≡ map (λ r. r.cell 0) rs
cells-change_row pos text [] = refl
cells-change_row zero text (r ∷ rs) = refl
cells-change_row (suc pos) text (r ∷ rs) = ap (r.cell 0 ∷◌) (cells-change_row pos text rs)

module _ (L : ListCtrl) where
  -- The map of registers leads to the rows of the list, in their order, each of which has its name.
  pub record IsIndexed (p : DlvChannelPage L) : Type 0 where
    pub numbered : Numbered 0 p.registers
    pub named : map (λ r. r.cell 0) (L.rows p.reg_list) ≡ map (λ e. e.0) p.registers

  -- What the page shows for a register.
  abbrev pub shown_content : Bytes → DlvChannelPage L → Option Bytes
  shown_content name p = content name p.registers (L.rows p.reg_list)

  length-rows :
      (p : DlvChannelPage L) → IsIndexed p → length (L.rows p.reg_list) ≡ length p.registers
  length-rows p v =
      sym (length-map (λ r. r.cell 0) (L.rows p.reg_list))
      ∙ ap length v.named
      ∙ length-map (λ e. e.0) p.registers

  -- An update keeps the list and its map in step; the register that is updated shows its content, and
  -- every other one what it showed before.
  pub register_updates :
      (d : DlvEvtDataRegister) (p : DlvChannelPage L)
      → IsIndexed p
      → IsIndexed (on_update_register L d p)
        × ((name : Bytes)
            → shown_content name (on_update_register L d p)
              ≡ (if bytes_eq d.register name then some d.content else shown_content name p))
  unfolding on_update_register
  register_updates d p v = elim (Option-cases (find_register d.register p.registers)) [
    | inr (pos, e) ↦
        rw (e, on_update_register)
          (
            record {
              numbered = v.numbered;
              named =
                  rw L.rows-set_item (cells-change_row pos d.content (L.rows p.reg_list) ∙ v.named);
            },
            λ name. rw L.rows-set_item (
                content-change_row d.register name d.content pos p.registers (L.rows p.reg_list)
                  v.numbered (length-rows p v) e),
          )
    | inl e ↦
        let pos = L.get_item_count p.reg_list in
        let end : pos ≡ length (L.rows p.reg_list) = L.get_item_count_lem p.reg_list in
        let row = put_cell 1 d.content (new_row d.register) in
        let shown : L.rows (L.set_item pos 1 d.content (L.insert_item pos d.register p.reg_list))
            ≡ L.rows p.reg_list ++ (row ∷ []) =
          rw (L.rows-set_item, L.rows-insert_item pos d.register p.reg_list end)
            (change_row_last (L.rows p.reg_list) (new_row d.register) pos (put_cell 1 d.content)
              end) in
        rw (e, on_update_register)
          (
            record {
              numbered =
                  Numbered-append 0 pos p.registers d.register v.numbered
                    (omega (arith, end, length-rows p v));
              named = rw (shown, map-append, v.named, map-append) refl;
            },
            λ name. rw shown (
                content-append d.register name pos row p.registers (L.rows p.reg_list) v.numbered
                  (length-rows p v) end e),
          )
  ]
