-- ===== src/Docgen/Groups.antt =====
-- How internal/docgen/generator.go arranges actions: `groupByActionPrefix`, the order of the groups and
-- of the actions in them, `getGroupDisplayName` and `getFileTitle`.
pub mod Partition
pub mod Keys
mod Examples
use mathlib.Core.List.{foldl}
use aqi.Prelude.{
  ℕ, ◌-◌, Bool, true, false, not, ◌&&◌, List, [], ◌∷◌, ◌++◌, Option, none, some, ◌==◌,
  comparable_nat, map, length, take, if◌then◌else◌, leb,
}
use aqi.Prelude.Dict.{Dict, get, put}
use aqi.Prelude.Texts.{Text, codes, comparable_text, split, is_char, is_empty, text_lt, ends_with}
use aqi.Prelude.Sorting.{sort_by}
use aqi.Docgen.Doc.{ActionDoc}

-- `groupKey`: the text before the first dot, "" where there is no dot
abbrev pub key_of_parts : List Text → Text
key_of_parts (prefix ∷ part ∷ parts) = prefix
key_of_parts parts = []

unfoldable pub group_key : Text → Text
group_key name = key_of_parts (split (is_char b'.') name)

abbrev pub list_or_empty : Option (List ActionDoc) → List ActionDoc
list_or_empty none = []
list_or_empty (some actions) = actions

unfoldable pub add_to_group : Dict Text (List ActionDoc) → ActionDoc → Dict Text (List ActionDoc)
add_to_group groups a =
    let key = group_key a.name in put groups key (list_or_empty (get groups key) ++ a ∷ [])

-- `groupByActionPrefix`
unfoldable pub group_by_action_prefix : List ActionDoc → Dict Text (List ActionDoc)
group_by_action_prefix actions = foldl add_to_group [] actions

-- The test that the group keys are sorted by.
unfoldable pub group_lt : Text → Text → Bool
group_lt k j =
    if is_empty k && not (is_empty j)
    then true
    else if not (is_empty k) && is_empty j
    then false
    else text_lt k j

abbrev pub keys_of : Dict Text (List ActionDoc) → List Text
keys_of [] = []
keys_of ((key, actions) ∷ groups) = key ∷ keys_of groups

unfoldable pub sorted_keys : Dict Text (List ActionDoc) → List Text
sorted_keys groups = sort_by group_lt (keys_of groups)

-- The actions of a group by name. `sort.Slice` leaves the order of equal names open; here they stay
-- in order.
unfoldable pub sort_actions : List ActionDoc → List ActionDoc
sort_actions actions = sort_by (λ (a b : ActionDoc). text_lt a.name b.name) actions

-- The loop over the groups that both generators have: a group with its key.
unfoldable pub arrange_keys : Dict Text (List ActionDoc) → List Text → List (Text × List ActionDoc)
arrange_keys groups [] = []
arrange_keys groups (key ∷ keys) =
    let rest = arrange_keys groups keys in
    let actions = list_or_empty (get groups key) in
    if is_empty actions then rest else (key, sort_actions actions) ∷ rest

unfoldable pub arrange : List ActionDoc → List (Text × List ActionDoc)
arrange actions =
    let groups = group_by_action_prefix actions in arrange_keys groups (sorted_keys groups)

-- `getGroupDisplayName`, from the group names of the configuration, if there are any
unfoldable pub get_group_display_name : Option (Dict Text Text) → Text → Text
get_group_display_name none key = key
get_group_display_name (some names) key = elim (get names key) [ none ↦ key | some name ↦ name ]

-- `strings.TrimSuffix(t, s)`
abbrev pub trim_suffix : Text → Text → Text
trim_suffix s t = if ends_with s t then take (length t - length s) t else t

abbrev pub with_spaces : Text → Text
with_spaces t = map (λ c. if c == b'_' then b' ' else if c == b'-' then b' ' else c) t

abbrev pub upper : ℕ → ℕ
upper c = if leb b'a' c && leb c b'z' then c - 32 else c

abbrev pub upper_first : Text → Text
upper_first [] = []
upper_first (c ∷ t) = upper c ∷ t

-- `getFileTitle`, for a name that starts with an ASCII character
unfoldable pub get_file_title : Text → Text
get_file_title file_name =
    upper_first (with_spaces (trim_suffix (codes ".go") file_name)) ++ codes " API"
