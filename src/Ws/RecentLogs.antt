-- ===== src/Ws/RecentLogs.antt =====
-- The ring of a client's last log lines: the fields `recentLogs`, `recentIdx` and `recentCount` of
-- ws/client.go, the locked part of `Log`, and `GetRecentLogs`.
pub mod Window
mod Examples
use aqi.Prelude.{
  ℕ, zero, suc, ◌+◌, ◌-◌, ◌%◌, String, List, [], ◌∷◌, Option, get_elem?, set, nat_beq, ltb,
  if◌then◌else◌,
}
use mathlib.Core.Option

-- The capacity of the array.
abbrev pub capacity : ℕ
capacity = 100

pub record Recent : Type 0 where
  pub logs : List String  -- [100]string
  pub idx : ℕ
  pub count : ℕ

abbrev pub zeros : ℕ → List String
zeros zero = []
zeros (suc n) = "" ∷ zeros n

-- Go's zero value of the three fields.
abbrev pub none_yet : Recent
none_yet = record { logs = zeros capacity; idx = 0; count = 0 }

-- What `Log` writes under the lock, for the line that it has formatted.
unfoldable pub push : String → Recent → Recent
push line r = record {
  logs = set r.logs r.idx line;
  idx = (r.idx + 1) % capacity;
  count = if ltb r.count capacity then r.count + 1 else r.count;
}

-- An array read; every index here is below `capacity`, the length of the array.
abbrev pub read : List String → ℕ → String
read logs i = Option.get_or (get_elem? logs i) ""

-- `for i := 0; i < count; i++`, with `n` rounds left.
unfoldable pub copy_from : List String → ℕ → ℕ → ℕ → List String
copy_from logs oldest i zero = []
copy_from logs oldest i (suc n) =
    read logs ((oldest + i) % capacity) ∷ copy_from logs oldest (i + 1) n

-- `recentIdx - count` may be negative, so the capacity is added first, as the sum allows.
unfoldable pub get_recent_logs : Recent → List String
unfolding copy_from
get_recent_logs r =
    if nat_beq r.count 0
    then []
    else copy_from r.logs ((r.idx + capacity - r.count) % capacity) 0 r.count

-- Lines logged one after another.
unfoldable pub push_all : List String → Recent → Recent
unfolding push
push_all [] r = r
push_all (line ∷ lines) r = push_all lines (push line r)
