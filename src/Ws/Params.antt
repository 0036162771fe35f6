-- ===== src/Ws/Params.antt =====
-- Parameters of a request: ws/data_paginate.go, ws/context_params.go, and their counterparts in
-- mcp/context.go. What gjson reads at a key is the input; an `int` has 64 bits.
pub mod Pages
pub mod Ranges
mod Examples
use aqi.Prelude.{
  ℕ, suc, ◌+◌, ◌-◌, ◌*◌, ◌%◌, ◌^◌, Bool, true, false, ◌&&◌, String, List, [], ◌∷◌, ltb, leb,
  comparable_string, ◌==◌, contains, if◌then◌else◌,
}
use aqi.Prelude.Int.{ℤ, pos, negsuc}

-- `a < b` on ints
abbrev pub lt_int : ℤ → ℤ → Bool
lt_int (pos a) (pos b) = ltb a b
lt_int (pos a) (negsuc b) = false
lt_int (negsuc a) (pos b) = true
lt_int (negsuc a) (negsuc b) = ltb b a

-- The int with the low 64 bits of a number.
unfoldable pub to_int : ℕ → ℤ
to_int n = let v = n % 2 ^ 64 in if ltb v (2 ^ 63) then pos v else negsuc (2 ^ 64 - 1 - v)

-- `Page`, less the total
pub record Page : Type 0 where
  pub current : ℤ
  pub page_size : ℤ

-- `Pagination`
pub record Pagination : Type 0 where
  pub page : Page
  pub limit : ℤ
  pub offset : ℤ

-- `p.Current` after the first test
abbrev pub first_page : ℤ → ℕ
first_page (pos n) = if leb n 1 then 1 else n
first_page (negsuc n) = 1

-- `p.PageSize` after the second test
abbrev pub default_size : ℤ → ℕ
default_size (pos n) = if leb n 0 then 10 else n
default_size (negsuc n) = 10

-- `p.PageSize` after the third test
abbrev pub cap_size : ℤ → ℕ → ℕ
cap_size (pos m) n = if ltb 0 m && ltb m n then m else n
cap_size (negsuc m) n = n

-- `InitPagination`; after the tests both numbers are positive.
unfoldable pub init_pagination : Page → ℤ → Pagination
unfolding to_int
init_pagination p max_size =
    let current = first_page p.current in
    let size = cap_size max_size (default_size p.page_size) in
    record {
      page = record { current = pos current; page_size = pos size };
      limit = pos size;
      offset = to_int ((current - 1) * size);
    }

-- `GetMinInt` and `GetRangeInt` of ws/context_params.go
abbrev pub get_min_int : ℤ → ℤ → ℤ
get_min_int d min = if lt_int d min then min else d

unfoldable pub get_range_int : ℤ → ℤ → ℤ → ℤ
get_range_int d min max = if lt_int d min then min else if lt_int max d then max else d

-- `GetMinInt` and `GetRangeInt` of mcp/context.go
abbrev pub mcp_get_min_int : ℤ → ℤ → ℤ
mcp_get_min_int v min = if lt_int v min then min else v

unfoldable pub mcp_get_range_int : ℤ → ℤ → ℤ → ℤ
mcp_get_range_int d min max = let v = mcp_get_min_int d min in if lt_int max v then max else v

-- `GetSliceVal`
unfoldable pub get_slice_val : String → List String → String
get_slice_val v options = if contains v options then v else ""

-- `GetId`
unfoldable pub get_id : ℤ → ℕ
get_id (pos n) = n
get_id (negsuc n) = 0

-- `GetSliceVal` and `GetId` of mcp/context.go
unfoldable pub mcp_get_slice_val : String → List String → String
mcp_get_slice_val v [] = ""
mcp_get_slice_val v (option ∷ options) =
    let rest = mcp_get_slice_val v options in if v == option then v else rest

unfoldable pub mcp_get_id : ℤ → ℕ
mcp_get_id v = if lt_int (pos 0) v then get_id v else 0
