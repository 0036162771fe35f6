-- ===== src/Ws/Params/Pages.antt =====
-- Pages of ws/data_paginate.go.
use aqi.Prelude.{
  ℕ, zero, ap, ◌∙◌, suc, ◌+◌, ◌-◌, ◌*◌, ◌%◌, ◌^◌, ◌≤◌, ◌<◌, ◌≡◌, refl, true, ltb, if◌then◌else◌,
  arith,
}
use aqi.Prelude.Int.{ℤ, pos, negsuc}
use aqi.Ws.Params.{Page, to_int, first_page, default_size, cap_size, init_pagination}

first_page_pos : (x : ℤ) → 1 ≤ first_page x
first_page_pos (pos n) = ground arith
first_page_pos (negsuc n) = omega arith

default_size_pos : (x : ℤ) → 1 ≤ default_size x
default_size_pos (pos n) = ground arith
default_size_pos (negsuc n) = omega arith

capped_pos : (m n : ℕ) → 1 ≤ m → 1 ≤ n → 1 ≤ cap_size (pos m) n
capped_pos m n h k = ground (arith, h, k)

capped_small : (m n : ℕ) → 1 ≤ m → cap_size (pos m) n ≤ m
capped_small m n h = ground (arith, h)

-- A page is at least the first, its size at least 1, and at most the maximum where that is
-- positive.
pub init_pagination-bounds :
    (p : Page) (m : ℕ)
    → 1 ≤ m
    → (n k : ℕ) × ((init_pagination p (pos m)).page ≡ record { current = pos n; page_size = pos k })
      × (1 ≤ n)
      × (1 ≤ k)
      × (k ≤ m)
unfolding init_pagination
init_pagination-bounds p m h =
    let size = default_size p.page_size in
    (
      first_page p.current,
      cap_size (pos m) size,
      refl,
      first_page_pos p.current,
      capped_pos m size h (default_size_pos p.page_size),
      capped_small m size h,
    )

to_int_small : (n : ℕ) → n < 2 ^ 63 → to_int n ≡ pos n
unfolding to_int
to_int_small n h =
    let small : n % 2 ^ 64 ≡ n = omega (arith, h) in
    let low : ltb n (2 ^ 63) ≡ true = ground (arith, h) in rw (small, low, if◌then◌else◌) refl

rows : (n k : ℕ) → 1 ≤ n → n * k ≡ (n - 1) * k + k
rows zero k h = absurd (omega (arith, h))
rows (suc n) k h = let less : suc n - 1 ≡ n = omega arith in rw less (ground arith)

-- The rows of a page begin where those of the page before it end, up to the 2^63rd row.
pub init_pagination-offset :
    (n : ℕ) (size max_size : ℤ)
    → 1 ≤ n
    → n * cap_size max_size (default_size size) < 2 ^ 63
    → (j k : ℕ) × ((init_pagination (record { current = pos n; page_size = size }) max_size).offset
        ≡ pos j)
      × ((init_pagination (record { current = pos n; page_size = size }) max_size).limit ≡ pos k)
      × ((init_pagination (record { current = pos (n + 1); page_size = size }) max_size).offset
          ≡ pos (j + k))
unfolding init_pagination
init_pagination-offset n size max_size h small =
    let k = cap_size max_size (default_size size) in
    let this : first_page (pos n) ≡ n = ground (arith, h) in
    let following : first_page (pos (n + 1)) - 1 ≡ n = ground (arith, h) in
    let sum : n * k ≡ (n - 1) * k + k = rows n k h in
    let below : (n - 1) * k < 2 ^ 63 = omega (arith, sum, small) in
    (
      (n - 1) * k,
      k,
      ap (λ x. to_int ((x - 1) * k)) this ∙ to_int_small ((n - 1) * k) below,
      refl,
      ap (λ x. to_int (x * k)) following ∙ to_int_small (n * k) small ∙ ap pos sum,
    )
