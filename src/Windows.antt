-- ===== src/Windows.antt =====
-- Scrolling: the windows of internal/tui/layout.go and of the grouped list of internal/tui/group.go.
-- Go's `int` is an integer here; the sums stay far from its bounds.
pub mod Bounds
pub mod Examples
use resticscope.Prelude.{
  ℕ, zero, suc, ◌+◌, ◌-◌, ◌/◌, Bool, true, false, List, [], ◌∷◌, ◌++◌, length, ◌==◌, Option, none,
  some, ℤ, pos, negsuc, pos_part, neg_part, ◌+ℤ◌, ◌-ℤ◌, leb_ℤ, ltb_ℤ, if◌then◌else◌,
}

abbrev pub max_ℤ : ℤ → ℤ → ℤ
max_ℤ a b = if ltb_ℤ a b then b else a

abbrev pub min_ℤ : ℤ → ℤ → ℤ
min_ℤ a b = if ltb_ℤ b a then b else a

-- Go's division by two, which rounds towards zero.
abbrev pub half : ℤ → ℤ
half (pos n) = pos (n / 2)
half (negsuc n) = if ltb_ℤ (pos 0) (pos ((n + 1) / 2)) then negsuc ((n + 1) / 2 - 1) else pos 0

unfoldable pub clamp_modal_scroll : ℤ → ℤ → ℤ → ℤ
clamp_modal_scroll scroll total body_rows =
    let max_scroll = max_ℤ (total -ℤ body_rows) (pos 0) in
    let capped = if ltb_ℤ max_scroll scroll then max_scroll else scroll in
    if ltb_ℤ capped (pos 0) then pos 0 else capped

-- The rows [start, end) of `modalWindow`, and whether the hint is shown.
pub record ModalRows : Type 0 where
  pub start : ℤ
  pub end : ℤ
  pub hint : Bool

unfoldable pub modal_rows : ℤ → ℤ → ℤ → ModalRows
modal_rows total visible scroll =
    let show_hint = leb_ℤ (pos 1) (visible -ℤ pos 1) in
    let body_rows = if show_hint then visible -ℤ pos 1 else visible in
    let start = clamp_modal_scroll scroll total body_rows in
    if leb_ℤ total visible
    then record { start = pos 0; end = total; hint = false }
    else record { start = start; end = min_ℤ (start +ℤ body_rows) total; hint = show_hint }

unfoldable pub modal_scroll_by : ℤ → ℤ → ℤ → ℤ → ℤ
modal_scroll_by scroll delta total visible =
    if leb_ℤ total visible
    then pos 0
    else clamp_modal_scroll (scroll +ℤ delta) total (max_ℤ (visible -ℤ pos 1) (pos 1))

unfoldable pub clamp_cursor : ℤ → ℤ → ℤ
clamp_cursor i total =
    let j = if leb_ℤ total i then total -ℤ pos 1 else i in if ltb_ℤ j (pos 0) then pos 0 else j

unfoldable pub window_of : ℤ → ℤ → ℤ → ℤ × ℤ
window_of cursor total visible =
    let start = max_ℤ (cursor -ℤ half visible) (pos 0) in
    let end = start +ℤ visible in
    if leb_ℤ total visible
    then (pos 0, total)
    else if ltb_ℤ total end
    then (total -ℤ visible, total)
    else (start, end)

unfoldable pub scroll_window : ℤ → ℤ → ℤ → ℤ × ℤ
scroll_window cursor total visible =
    window_of cursor total (if ltb_ℤ visible (pos 1) then pos 1 else visible)

pub record GroupedWindow : Type 0 where
  pub start : ℤ
  pub end : ℤ
  pub prepend_heading : Bool

unfoldable pub grouped_window : ℤ → ℤ → ℤ → ℤ → GroupedWindow
grouped_window cursor_pos h_pos max_rows n =
    let tail_size = max_rows -ℤ pos 1 in
    let centred = cursor_pos -ℤ half tail_size in
    let start = if ltb_ℤ centred (h_pos +ℤ pos 1) then h_pos +ℤ pos 1 else centred in
    if ltb_ℤ cursor_pos (h_pos +ℤ max_rows)
    then record { start = h_pos; end = min_ℤ (h_pos +ℤ max_rows) n; prepend_heading = false }
    else record { start = start; end = min_ℤ (start +ℤ tail_size) n; prepend_heading = true }

-- A line of the grouped list. A blank line and a heading have the data index -1.
pub data GroupTok : Type 0 where
  blank heading : ℕ → GroupTok
  row : (section local data_index : ℕ) → GroupTok

pub record Tokens : Type 0 where
  pub lines : List GroupTok
  pub heading_pos : List ℕ

-- The rows of one section, from a local and a flat index.
unfoldable pub row_tokens : ℕ → ℕ → ℕ → ℕ → List GroupTok
row_tokens si ri idx zero = []
row_tokens si ri idx (suc rows) = row si ri idx ∷ row_tokens si (suc ri) (suc idx) rows

-- The sections, given by how many rows each has, from a section index, a line and a flat index.
unfoldable pub section_tokens : ℕ → ℕ → ℕ → List ℕ → Tokens
section_tokens si line idx [] = record { lines = []; heading_pos = [] }
section_tokens si line idx (rows ∷ sections) =
    let separator = if si == 0 then 0 else 1 in
    let rest = section_tokens (suc si) (line + separator + 1 + rows) (idx + rows) sections in
    record {
      lines =
          (if si == 0 then [] else blank si ∷ [])
          ++ (heading si ∷ row_tokens si 0 idx rows ++ rest.lines);
      heading_pos = (line + separator) ∷ rest.heading_pos;
    }

unfoldable pub build_group_tokens : List ℕ → Tokens
build_group_tokens sections = section_tokens 0 0 0 sections

-- The loop of `renderGroupedList` that finds the line of a row.
unfoldable pub cursor_line : ℕ → ℕ → List GroupTok → Option ℕ
cursor_line cursor i [] = none
cursor_line cursor i (blank s ∷ lines) = cursor_line cursor (suc i) lines
cursor_line cursor i (heading s ∷ lines) = cursor_line cursor (suc i) lines
cursor_line cursor i (row s r data_index ∷ lines) =
    let later = cursor_line cursor (suc i) lines in if data_index == cursor then some i else later
