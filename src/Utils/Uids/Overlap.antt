-- ===== src/Utils/Uids/Overlap.antt =====
-- Two calls of `GenSid` (utils/uidgen/simple_uid.go) that overlap.
use aqi.Prelude.{ℕ, List, [], ◌∷◌, comparable_nat}

-- The first call adds, the second call adds, and both end.
abbrev pub both_add_first : List ℕ
both_add_first = 0 ∷ 1 ∷ 0 ∷ 1 ∷ []
