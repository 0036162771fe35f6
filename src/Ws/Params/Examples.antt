-- ===== src/Ws/Params/Examples.antt =====
-- Parameters at work.
use aqi.Prelude.{ℕ, ◌+◌, ◌≡◌, ◌≤◌, refl, true, ◌&&◌, if◌then◌else◌, arith}
use aqi.Prelude.Int.{pos, negsuc}
use aqi.Ws.Params.{init_pagination, get_range_int, mcp_get_range_int}
use aqi.Ws.Params.Ranges.{le_int, get_range_int-bounds, get_range_int-agrees, get_range_int-differs}
use aqi.Ws.Params.Pages.{init_pagination-bounds, init_pagination-offset}

init_pagination-bounds_example :
    (n k : ℕ) × ((init_pagination
        (record { current = negsuc 4; page_size = pos 900 })
        (pos 100)).page
      ≡ record { current = pos n; page_size = pos k })
    × (1 ≤ n)
    × (1 ≤ k)
    × (k ≤ 100)
init_pagination-bounds_example =
    init_pagination-bounds (record { current = negsuc 4; page_size = pos 900 }) 100 (omega arith)

init_pagination-offset_example :
    (j k : ℕ) × ((init_pagination (record { current = pos 3; page_size = pos 20 }) (pos 100)).offset
      ≡ pos j)
    × ((init_pagination (record { current = pos 3; page_size = pos 20 }) (pos 100)).limit ≡ pos k)
    × ((init_pagination (record { current = pos 4; page_size = pos 20 }) (pos 100)).offset
        ≡ pos (j + k))
init_pagination-offset_example =
    init_pagination-offset 3 (pos 20) (pos 100) (omega arith) (omega arith)

-- A page that a client may ask for, whose offset is negative.
negative_offset :
    (init_pagination
      (record { current = pos 92233720368547760; page_size = pos 100 })
      (pos 100)).offset
    ≡ negsuc 9223372036854775715
unfolding init_pagination
negative_offset = refl

get_range_int-bounds_example :
    (le_int (pos 1) (get_range_int (pos 900) (pos 1) (pos 100)) ≡ true)
    × (le_int (get_range_int (pos 900) (pos 1) (pos 100)) (pos 100) ≡ true)
    × ((if le_int (pos 1) (pos 900) && le_int (pos 900) (pos 100)
          then get_range_int (pos 900) (pos 1) (pos 100)
          else pos 900)
        ≡ pos 900)
get_range_int-bounds_example = get_range_int-bounds (pos 900) (pos 1) (pos 100) refl

get_range_int-agrees_example :
    get_range_int (pos 900) (pos 1) (pos 100) ≡ mcp_get_range_int (pos 900) (pos 1) (pos 100)
get_range_int-agrees_example = get_range_int-agrees (pos 900) (pos 1) (pos 100) refl

get_range_int-differs_example :
    (get_range_int (pos 0) (pos 9) (pos 5) ≡ pos 9)
    × (mcp_get_range_int (pos 0) (pos 9) (pos 5) ≡ pos 5)
get_range_int-differs_example = get_range_int-differs (pos 0) (pos 9) (pos 5) refl refl
