-- ===== src/Tui/Scroll.antt =====
-- `follow` of tui/scroll.rs: which rows of a list are on screen.
use glidesh.Common.{ℕ, ◌+◌, ◌-◌, ◌≤◌, ◌<◌, min, max, ◌||◌, ltb, leb, ◌==◌, if◌then◌else◌, arith}

unfoldable pub follow_at : ℕ → ℕ → ℕ → ℕ → ℕ
follow_at offset selected len height =
    if ltb selected offset
    then selected
    else if leb (offset + height) selected
    then min (selected + 1 - height) (len - height)
    else offset

unfoldable pub follow : ℕ → ℕ → ℕ → ℕ → ℕ
unfolding follow_at
follow offset selected len height =
    if height == 0 || leb len height
    then 0
    else follow_at (min offset (len - height)) selected len height

-- The distance of two offsets.
abbrev pub distance : ℕ → ℕ → ℕ
distance a b = (a - b) + (b - a)

-- For a panel that has lines and a selected row of the list: the row is on screen, and no line is
-- blank that a row could fill.
pub follow-shows :
    (offset selected len height : ℕ)
    → 0 < height
    → selected < len
    → (follow offset selected len height ≤ selected)
      × (selected < follow offset selected len height + height)
      × (follow offset selected len height + height ≤ max len height)
unfolding follow
follow-shows offset selected len height h l = (grind arith, grind arith, grind arith)

-- Of the offsets that show the selected row without a blank line, the view moves to the nearest.
pub follow-nearest :
    (offset selected len height other : ℕ)
    → height < len
    → selected < len
    → other ≤ selected
    → selected < other + height
    → other + height ≤ len
    → distance offset (follow offset selected len height) ≤ distance offset other
unfolding follow
follow-nearest offset selected len height other h l a b c = grind arith
