-- ===== src/Docgen/Groups/Examples.antt =====
-- Three actions in groups (internal/docgen/generator.go).
use aqi.Prelude.{false, List, [], ◌∷◌, ◌≡◌, refl, comparable_nat}
use aqi.Prelude.Dict.{get, put}
use aqi.Prelude.Texts.{Text, codes, comparable_text, starts_with}
use aqi.Prelude.Sorting.{sort_by}
use aqi.Docgen.Doc.{ActionDoc}
use aqi.Docgen.Groups.{
  arrange, arrange_keys, sorted_keys, sort_actions, group_by_action_prefix, add_to_group, group_key,
  group_lt, get_file_title,
}
use aqi.Docgen.Groups.Partition.{count_all}
use aqi.Docgen.Groups.Keys.{count-arrange}

abbrev action : Text → ActionDoc
action name = record {
  name = name;
  description = [];
  router_file = [];
  middleware_chain = [];
  middleware_group = [];
  params = [];
  returns = record { success_type = []; error_codes = []; has_data = false };
}

abbrev three : List ActionDoc
three = action (codes "user.set") ∷ action (codes "ping") ∷ action (codes "user.get") ∷ []

arranged :
    arrange three
    ≡ ([], action (codes "ping") ∷ [])
      ∷ (codes "user", action (codes "user.get") ∷ action (codes "user.set") ∷ [])
      ∷ []
unfolding arrange arrange_keys sorted_keys sort_actions group_by_action_prefix add_to_group
    group_key group_lt get put sort_by
arranged = refl

title : get_file_title (codes "admin_user.go") ≡ codes "Admin user API"
unfolding get_file_title
title = refl

count-arrange_example : count_all (λ a. starts_with (codes "user") a.name) (arrange three) ≡ 2
unfolding group_key
count-arrange_example = count-arrange (λ a. starts_with (codes "user") a.name) three
