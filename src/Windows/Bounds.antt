-- ===== src/Windows/Bounds.antt =====
-- The windows hold the cursor and stay inside the list.
use resticscope.Prelude.{
  ℕ, ◌+◌, ◌-◌, ◌/◌, ◌≤◌, ◌≡◌, refl, true, false, inl, inr, Bool-cases, ℤ, pos, negsuc, ◌+ℤ◌, ◌-ℤ◌,
  ◌≤ℤ◌, leb_ℤ, if◌then◌else◌, arith, leb, ltb, not,
}
use resticscope.Windows.{
  max_ℤ, min_ℤ, clamp_modal_scroll, modal_rows, clamp_cursor, window_of, scroll_window,
  grouped_window,
}

-- A cursor is bounded to the indices of a list with entries, and is kept where it is one of them.
pub clamp_cursor-bounds :
    (i total : ℤ)
    → pos 1 ≤ℤ total
    → (pos 0 ≤ℤ clamp_cursor i total)
      × (clamp_cursor i total +ℤ pos 1 ≤ℤ total)
      × (clamp_cursor (clamp_cursor i total) total ≡ clamp_cursor i total)
unfolding clamp_cursor ◌+ℤ◌ ◌-ℤ◌
clamp_cursor-bounds i total h = (ground arith, ground arith, ground arith)

-- The window of a list has the cursor, lies in the list, and has as many rows as fit.
pub scroll_window-bounds :
    (cursor total visible : ℤ)
    → pos 0 ≤ℤ cursor
    → cursor +ℤ pos 1 ≤ℤ total
    → (pos 0 ≤ℤ (scroll_window cursor total visible).0)
      × ((scroll_window cursor total visible).0 ≤ℤ cursor)
      × (cursor +ℤ pos 1 ≤ℤ (scroll_window cursor total visible).1)
      × ((scroll_window cursor total visible).1 ≤ℤ total)
      × ((scroll_window cursor total visible).1 -ℤ (scroll_window cursor total visible).0
          ≡ min_ℤ (max_ℤ visible (pos 1)) total)
unfolding scroll_window window_of ◌+ℤ◌ ◌-ℤ◌
scroll_window-bounds cursor total visible h k =
    (ground arith, ground arith, ground arith, ground arith, ground arith)

-- A clamped offset is not negative, and no further than where the last rows are shown.
clamp_modal_scroll-bounds :
    (scroll total body_rows : ℤ)
    → (pos 0 ≤ℤ clamp_modal_scroll scroll total body_rows)
      × (clamp_modal_scroll scroll total body_rows ≤ℤ max_ℤ (total -ℤ body_rows) (pos 0))
unfolding clamp_modal_scroll
clamp_modal_scroll-bounds scroll total body_rows = (ground arith, ground arith)

-- A clamped offset is one of a natural number of rows.
clamped :
    (scroll : ℤ) (t b : ℕ)
    → (n : ℕ) × (clamp_modal_scroll scroll (pos t) (pos b) ≡ pos n) × (n ≤ t - b)
unfolding ◌-ℤ◌
clamped scroll t b =
    at_value (clamp_modal_scroll scroll (pos t) (pos b)) refl
      (clamp_modal_scroll-bounds scroll (pos t) (pos b))
  where
    at_value :
        (z : ℤ)
        → clamp_modal_scroll scroll (pos t) (pos b) ≡ z
        → (pos 0 ≤ℤ z) × (z ≤ℤ max_ℤ (pos t -ℤ pos b) (pos 0))
        → (n : ℕ) × (clamp_modal_scroll scroll (pos t) (pos b) ≡ pos n) × (n ≤ t - b)
    at_value (pos n) e h = let k = h.1 in (n, e, ground arith)
    at_value (negsuc n) e h = let k = h.0 in ground arith

near_window :
    (c h m n : ℕ)
    → c + 1 ≤ h + m
    → grouped_window (pos c) (pos h) (pos m) (pos n) ≡ record {
      start = pos h;
      end = pos (if ltb n (h + m) then n else h + m);
      prepend_heading = false;
    }
unfolding grouped_window ◌+ℤ◌ ◌-ℤ◌
near_window c h m n a = ground arith

deep_window :
    (c h m n : ℕ)
    → h + m ≤ c
    → 2 ≤ m
    → grouped_window (pos c) (pos h) (pos m) (pos n) ≡ record {
      start = pos (c - (m - 1) / 2);
      end = pos (if ltb n (c - (m - 1) / 2 + (m - 1)) then n else c - (m - 1) / 2 + (m - 1));
      prepend_heading = true;
    }
unfolding grouped_window ◌+ℤ◌ ◌-ℤ◌
deep_window c h m n a b = ground arith

-- The window of the grouped list has the cursor's line, lies between its section's heading and the
-- end, starts at the heading or has it in front, and takes no more lines than there are.
pub grouped_window-bounds :
    (cursor_pos h_pos max_rows n : ℕ)
    → h_pos + 1 ≤ cursor_pos
    → cursor_pos + 1 ≤ n
    → 2 ≤ max_rows
    → (pos h_pos ≤ℤ (grouped_window (pos cursor_pos) (pos h_pos) (pos max_rows) (pos n)).start)
      × ((grouped_window (pos cursor_pos) (pos h_pos) (pos max_rows) (pos n)).start
          ≤ℤ pos cursor_pos)
      × (pos (cursor_pos + 1)
          ≤ℤ (grouped_window (pos cursor_pos) (pos h_pos) (pos max_rows) (pos n)).end)
      × ((grouped_window (pos cursor_pos) (pos h_pos) (pos max_rows) (pos n)).end ≤ℤ pos n)
      × ((grouped_window (pos cursor_pos) (pos h_pos) (pos max_rows) (pos n)).end
          ≤ℤ (grouped_window (pos cursor_pos) (pos h_pos) (pos max_rows) (pos n)).start
            +ℤ pos (
                if (grouped_window
                  (pos cursor_pos)
                  (pos h_pos)
                  (pos max_rows)
                  (pos n)).prepend_heading
                then max_rows - 1
                else max_rows))
      × ((grouped_window (pos cursor_pos) (pos h_pos) (pos max_rows) (pos n)).prepend_heading
          ≡ not (
              (leb_ℤ
                (grouped_window (pos cursor_pos) (pos h_pos) (pos max_rows) (pos n)).start
                (pos h_pos))))
unfolding ◌+ℤ◌
grouped_window-bounds c h m n a b d = elim (Bool-cases (ltb c (h + m))) [
  | inl e ↦
      rw (near_window c h m n (ground arith))
        (ground arith, ground arith, ground arith, ground arith, ground arith, ground arith)
  | inr e ↦
      rw (deep_window c h m n (ground arith) d)
        (ground arith, ground arith, ground arith, ground arith, ground arith, ground arith)
]

less_one : (b : ℕ) → pos (b + 1) -ℤ pos 1 ≡ pos b
unfolding ◌-ℤ◌
less_one b = ground arith

overflow_rows :
    (scroll : ℤ) (t b n : ℕ)
    → b + 2 ≤ t
    → 1 ≤ b
    → n ≤ t - b
    → clamp_modal_scroll scroll (pos t) (pos b) ≡ pos n
    → modal_rows (pos t) (pos (b + 1)) scroll
      ≡ record { start = pos n; end = pos (n + b); hint = true }
unfolding modal_rows
overflow_rows scroll t b n h k l e =
    let shown : leb_ℤ (pos 1) (pos b) ≡ true = ground arith in
    let over : leb_ℤ (pos t) (pos (b + 1)) ≡ false = ground arith in
    rw (less_one b, shown, e, over, modal_rows) (unfold ◌+ℤ◌ in ground arith)

-- Of a body that overflows a space of at least two rows, the modal shows, from any offset, as many
-- rows as there are less one for the hint, all inside the body; a body that fits is shown whole.
pub modal_rows-bounds :
    (scroll : ℤ) (total body_rows : ℕ)
    → 1 ≤ body_rows
    → (pos 0 ≤ℤ (modal_rows (pos total) (pos (body_rows + 1)) scroll).start)
      × ((modal_rows (pos total) (pos (body_rows + 1)) scroll).end ≤ℤ pos total)
      × ((modal_rows (pos total) (pos (body_rows + 1)) scroll).end
          ≡ (modal_rows (pos total) (pos (body_rows + 1)) scroll).start
            +ℤ pos (if leb total (body_rows + 1) then total else body_rows))
      × ((modal_rows (pos total) (pos (body_rows + 1)) scroll).hint
          ≡ not (leb total (body_rows + 1)))
unfolding ◌+ℤ◌
modal_rows-bounds scroll total body_rows h = elim (Bool-cases (leb total (body_rows + 1))) [
  | inl e ↦ rw (whole e) (ground arith, ground arith, ground arith, ground arith)
  | inr e ↦
      let (n, k, l) = clamped scroll total body_rows in
      rw (overflow_rows scroll total body_rows n (ground arith) h l k)
        (ground arith, ground arith, ground arith, ground arith)
]
  where
    whole :
        leb total (body_rows + 1) ≡ true
        → modal_rows (pos total) (pos (body_rows + 1)) scroll
          ≡ record { start = pos 0; end = pos total; hint = false }
    whole e = unfold modal_rows in ground arith
