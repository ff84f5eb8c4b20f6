-- ===== src/Windows/Examples.antt =====
-- Windows of ten rows at concrete positions.
use resticscope.Prelude.{◌≡◌, not, pos, ◌+ℤ◌, ◌≤ℤ◌, leb_ℤ, if◌then◌else◌, ◌-◌, ◌+◌, arith}
use resticscope.Windows.{grouped_window}
use resticscope.Windows.Bounds.{grouped_window-bounds}

row_fits : pos 30 +ℤ pos 1 ≤ℤ pos 40
unfolding ◌+ℤ◌
row_fits = omega arith

grouped_window-bounds_example :
    (pos 3 ≤ℤ (grouped_window (pos 30) (pos 3) (pos 10) (pos 40)).start)
    × ((grouped_window (pos 30) (pos 3) (pos 10) (pos 40)).start ≤ℤ pos 30)
    × (pos (30 + 1) ≤ℤ (grouped_window (pos 30) (pos 3) (pos 10) (pos 40)).end)
    × ((grouped_window (pos 30) (pos 3) (pos 10) (pos 40)).end ≤ℤ pos 40)
    × ((grouped_window (pos 30) (pos 3) (pos 10) (pos 40)).end
        ≤ℤ (grouped_window (pos 30) (pos 3) (pos 10) (pos 40)).start
          +ℤ pos (
              if (grouped_window (pos 30) (pos 3) (pos 10) (pos 40)).prepend_heading
              then 10 - 1
              else 10))
    × ((grouped_window (pos 30) (pos 3) (pos 10) (pos 40)).prepend_heading
        ≡ not (leb_ℤ (grouped_window (pos 30) (pos 3) (pos 10) (pos 40)).start (pos 3)))
grouped_window-bounds_example =
    grouped_window-bounds 30 3 10 40 (omega arith) (omega arith) (omega arith)
