-- ===== src/Revision/Plan.antt =====
-- `plan_blocks` against the list of all blocks with their starts.
use mathlib.Core.Bool.{◌&&◌}
use proton_sdk_rs.Base.{ℕ, ◌+◌, List, [], ◌∷◌, ltb, if◌then◌else◌}

unfoldable pub total : List ℕ → ℕ
total [] = 0
total (size ∷ sizes) = size + total sizes

-- Every block from `index` on that has a byte in `[offset, end)`, with the sum of the sizes before it.
unfoldable pub overlapping_from : ℕ → ℕ → ℕ → ℕ → List ℕ → List (ℕ × ℕ)
overlapping_from offset end index start [] = []
overlapping_from offset end index start (size ∷ sizes) =
    let rest = overlapping_from offset end (index + 1) (start + size) sizes in
    if ltb start end && ltb offset (start + size) then (index, start) ∷ rest else rest
