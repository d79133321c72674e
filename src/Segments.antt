-- ===== src/Segments.antt =====
-- segments.py: the clock decides the segment of a sale.
use accounting_tool.Calendar.{DateTime}
use accounting_tool.Types.{Sale, Segment, Recipe, bar, cafe}
use accounting_tool.Prelude.{ℕ, Option, if◌then◌else◌, leb, some, ◌&&◌, ltb, none}

abbrev pub cafe_open_hour : ℕ
cafe_open_hour = 8

abbrev pub cafe_close_hour : ℕ
cafe_close_hour = 17

unfoldable pub segment_for_timestamp : DateTime → Segment
segment_for_timestamp ts =
    if leb cafe_open_hour ts.hour && ltb ts.hour cafe_close_hour then cafe else bar

-- The recipe is taken and not read.
unfoldable pub segment_of_sale : Sale → Option Recipe → Segment
segment_of_sale sale recipe = elim sale.segment [ some s ↦ s | none ↦ bar ]
