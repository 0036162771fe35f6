-- ===== src/Docgen/Markdown/Sections.antt =====
-- The sections of the document that `GenerateMarkdown` of internal/docgen/generator.go writes.
use mathlib.Core.List.{append_assoc}
use aqi.Prelude.{
  zero, suc, ◌≤◌, Bool, true, false, List, [], ◌∷◌, ◌++◌, Option, ◌≡◌, refl, sym, ap, ◌∙◌,
  if◌then◌else◌, Bool-cases, inl, inr, arith, comparable_nat, ltb,
}
use aqi.Prelude.Dict.{Dict}
use aqi.Prelude.Texts.{Text, codes, comparable_text, is_empty}
use aqi.Docgen.Doc.{ActionDoc, RouterFile, Metadata}
use aqi.Docgen.Groups.{arrange, get_file_title}
use aqi.Docgen.Groups.Partition.{count, count_all}
use aqi.Docgen.Groups.Keys.{count-arrange}
use aqi.Docgen.Markdown.{
  format_action, newline, two_lines, action_sections, group_title, group_sections, file_sections,
  document_head, generate_markdown,
}

-- The text stands in the other one.
abbrev pub IsPart : Text → Text → Type 0
IsPart s t = (before : Text) × (after : Text) × (t ≡ before ++ (s ++ after))

IsPart-here : (s after : Text) → IsPart s (s ++ after)
IsPart-here s after = ([], after, refl)

IsPart-behind : (s before t : Text) → IsPart s t → IsPart s (before ++ t)
IsPart-behind s before t (b, a, e) =
    (before ++ b, a, ap (λ u. before ++ u) e ∙ sym (append_assoc before b (s ++ a)))

IsPart-in_front : (s t after : Text) → IsPart s t → IsPart s (t ++ after)
IsPart-in_front s t after (b, a, e) = (
  b,
  a ++ after,
  ap (λ u. u ++ after) e
      ∙ append_assoc b (s ++ a) after
      ∙ ap (λ u. b ++ u) (append_assoc s a after),
)

-- The section of an action that passes a test stands in the text.
abbrev pub HasSection : (ActionDoc → Bool) → Text → Type 0
HasSection p t = (a : ActionDoc) × ((p a ≡ true) × IsPart (format_action a 4) t)

section_behind :
    (p : ActionDoc → Bool) (before t : Text) → HasSection p t → HasSection p (before ++ t)
section_behind p before t (a, (h, part)) = (a, (h, IsPart-behind (format_action a 4) before t part))

section_in_front :
    (p : ActionDoc → Bool) (t after : Text) → HasSection p t → HasSection p (t ++ after)
section_in_front p t after (a, (h, part)) =
    (a, (h, IsPart-in_front (format_action a 4) t after part))

module _ (p : ActionDoc → Bool) where
  in_actions :
      (actions : List ActionDoc)
      → suc zero ≤ count p actions
      → HasSection p (action_sections actions)
  in_actions [] h = absurd (omega (arith, h))
  in_actions (a ∷ actions) h = elim (Bool-cases (p a)) [
    | inl t ↦ (a, (t, IsPart-here (format_action a 4) (newline ++ action_sections actions)))
    | inr f ↦
        section_behind p (format_action a 4) (newline ++ action_sections actions)
          (section_behind p newline (action_sections actions) (in_actions actions (later f h)))
  ]
    where
      later : p a ≡ false → suc zero ≤ count p (a ∷ actions) → suc zero ≤ count p actions
      later f h = ground (arith, f, h)

  in_groups :
      (names : Option (Dict Text Text)) (groups : List (Text × List ActionDoc))
      → suc zero ≤ count_all p groups
      → HasSection p (group_sections names groups)
  in_groups names [] h = absurd (omega (arith, h))
  in_groups names ((key, actions) ∷ groups) h = elim (Bool-cases (ltb 0 (count p actions))) [
    | inl t ↦
        section_behind p (group_title names key)
          (action_sections actions ++ (newline ++ group_sections names groups))
          (section_in_front p (action_sections actions) (newline ++ group_sections names groups)
            (in_actions actions (ground (arith, t))))
    | inr f ↦
        section_behind p (group_title names key)
          (action_sections actions ++ (newline ++ group_sections names groups))
          (section_behind p (action_sections actions) (newline ++ group_sections names groups) (
            section_behind p newline (group_sections names groups)
              (in_groups names groups (later f h))))
  ]
    where
      later :
          ltb 0 (count p actions) ≡ false
          → suc zero ≤ count_all p ((key, actions) ∷ groups)
          → suc zero ≤ count_all p groups
      later f h = let none : count p actions ≡ 0 = ground (arith, f) in omega (arith, none, h)

  some_action : (actions : List ActionDoc) → suc zero ≤ count p actions → is_empty actions ≡ false
  some_action [] h = absurd (omega (arith, h))
  some_action (a ∷ actions) h = refl

  in_files :
      (names : Option (Dict Text Text)) (before after : List RouterFile) (rf : RouterFile)
      → suc zero ≤ count p rf.actions
      → HasSection p (file_sections names (before ++ rf ∷ after))
  unfolding file_sections
  in_files names [] after rf h =
      let arranged : suc zero ≤ count_all p (arrange rf.actions) =
        omega (arith, count-arrange p rf.actions, h) in
      rw (some_action rf.actions h, if◌then◌else◌)
        (section_behind p (codes "## ")
          (get_file_title rf.file_name
            ++ (two_lines
                ++ (group_sections names (arrange rf.actions) ++ file_sections names after)))
          (section_behind p (get_file_title rf.file_name)
            (two_lines ++ (group_sections names (arrange rf.actions) ++ file_sections names after))
            (section_behind p two_lines
              (group_sections names (arrange rf.actions) ++ file_sections names after)
              (section_in_front p (group_sections names (arrange rf.actions))
                (file_sections names after) (in_groups names (arrange rf.actions) arranged)))))
  in_files names (f ∷ before) after rf h =
      with_file (is_empty f.actions) (in_files names before after rf h)
    where
      with_file :
          (b : Bool)
          → HasSection p (file_sections names (before ++ rf ∷ after))
          → HasSection p (
              if b
              then file_sections names (before ++ rf ∷ after)
              else codes "## "
                ++ (get_file_title f.file_name
                    ++ (two_lines
                        ++ (group_sections names (arrange f.actions)
                            ++ file_sections names (before ++ rf ∷ after)))))
      with_file true k = k
      with_file false k =
          let rest = file_sections names (before ++ rf ∷ after) in
          section_behind p (codes "## ")
            (get_file_title f.file_name
              ++ (two_lines ++ (group_sections names (arrange f.actions) ++ rest)))
            (section_behind p (get_file_title f.file_name)
              (two_lines ++ (group_sections names (arrange f.actions) ++ rest))
              (section_behind p two_lines (group_sections names (arrange f.actions) ++ rest)
                (section_behind p (group_sections names (arrange f.actions)) rest k)))

  -- Where some action of a router file passes a test, the document has the whole section of an action
  -- that passes it, whatever the other files and the metadata are.
  pub generate_markdown_lists :
      (names : Option (Dict Text Text)) (m : Metadata) (usage : Text)
      (before after : List RouterFile) (rf : RouterFile)
      → suc zero ≤ count p rf.actions
      → HasSection p (generate_markdown names m usage (before ++ rf ∷ after))
  unfolding generate_markdown
  generate_markdown_lists names m usage before after rf h =
      section_behind p (document_head m) (usage ++ file_sections names (before ++ rf ∷ after)) (
        section_behind p usage (file_sections names (before ++ rf ∷ after))
          (in_files names before after rf h))
