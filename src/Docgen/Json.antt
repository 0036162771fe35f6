-- ===== src/Docgen/Json.antt =====
-- `GenerateJSON`, `buildJSONAction` and `getJSONExampleValue` of internal/docgen/generator.go: the
-- document that is written. Encoding it is left to package encoding/json.
pub mod Samples
pub mod Requests
mod Examples
use mathlib.Core.List.{foldl}
use aqi.Prelude.{
  Bool, true, false, not, ◌&&◌, ◌||◌, List, [], ◌∷◌, ◌++◌, Option, none, some, ◌==◌, comparable_nat,
  map, contains, if◌then◌else◌,
}
use aqi.Prelude.Dict.{Dict, get, put}
use aqi.Prelude.Texts.{Text, codes, comparable_text, is_empty, is_char, holds, behind}
use aqi.Docgen.Doc.{ParamField, ErrorCode, ReturnType, ActionDoc, RouterFile, Metadata}
use aqi.Docgen.Config.{prefix_of}
use aqi.Docgen.Changelog.{Entry}
use aqi.Docgen.Groups.{arrange, get_group_display_name, get_file_title}

-- The values that stand for a parameter in an example.
pub data Sample : Type 0 where
  number : Sample
  truth : Sample
  texts : Sample
  text : Sample

abbrev pub is_number_type : Text → Bool
is_number_type type = contains type (
    codes "int"
    ∷ codes "uint"
    ∷ codes "int32"
    ∷ codes "uint32"
    ∷ codes "int64"
    ∷ codes "uint64"
    ∷ [])

-- `getJSONExampleValue`: 0, true, an empty list or an empty text
unfoldable pub get_json_example_value : Text → Sample
get_json_example_value type =
    if is_number_type type
    then number
    else if type == codes "bool"
    then truth
    else if type == codes "[]string"
    then texts
    else text

-- A value of `params`
pub data Value : Type 0 where
  plain : Sample → Value
  object : Dict Text Sample → Value

abbrev pub text_or_empty : Option Text → Text
text_or_empty none = []
text_or_empty (some t) = t

-- The two parts of `strings.SplitN(name, ".", 2)`
abbrev pub parent_key : Text → Text
parent_key name = prefix_of name

abbrev pub child_key : Text → Text
child_key name = text_or_empty (behind (codes ".") name)

-- The field of an object; a value of another kind is left alone.
abbrev pub add_child : Dict Text Value → Text → Text → Sample → Option Value → Dict Text Value
add_child params parent child sample none = put params parent (object (put [] child sample))
add_child params parent child sample (some (plain s)) = params
add_child params parent child sample (some (object fields)) =
    put params parent (object (put fields child sample))

-- One round of the loop over the parameters.
unfoldable pub add_example : Dict Text Value → ParamField → Dict Text Value
add_example params p =
    let parent = parent_key p.name in
    let sample = get_json_example_value p.type in
    if not p.is_required
    then params
    else if holds (codes ".") p.name
    then add_child params parent (child_key p.name) sample (get params parent)
    else put params p.name (plain sample)

-- `params` of the example request
unfoldable pub example_params : List ParamField → Dict Text Value
example_params params = foldl add_example [] params

-- `JSONReturnType`
pub record JsonReturnType : Type 0 where
  pub success_type : Text
  pub has_data : Bool

-- `JSONAction`, with the two values of the example request
pub record JsonAction : Type 0 where
  pub name : Text
  pub description : Text
  pub params : List ParamField
  pub returns : JsonReturnType
  pub middleware_chain : List Text
  pub example_action : Text
  pub example : Dict Text Value
  pub error_codes : List ErrorCode

-- `buildJSONAction`
unfoldable pub build_json_action : ActionDoc → JsonAction
build_json_action a = record {
  name = a.name;
  description = a.description;
  params = a.params;
  returns = record { success_type = a.returns.success_type; has_data = a.returns.has_data };
  middleware_chain = a.middleware_chain;
  example_action = a.name;
  example = example_params a.params;
  error_codes = a.returns.error_codes;
}

-- `JSONGroup`
pub record JsonGroup : Type 0 where
  pub name : Text
  pub actions : List JsonAction

-- `JSONRouterFile`
pub record JsonRouterFile : Type 0 where
  pub file_name : Text
  pub title : Text
  pub groups : List JsonGroup

abbrev pub json_groups : Option (Dict Text Text) → List (Text × List ActionDoc) → List JsonGroup
json_groups names [] = []
json_groups names ((key, actions) ∷ groups) =
    record { name = get_group_display_name names key; actions = map build_json_action actions }
    ∷ json_groups names groups

-- The loop over the router files.
unfoldable pub json_files : Option (Dict Text Text) → List RouterFile → List JsonRouterFile
json_files names [] = []
json_files names (rf ∷ files) =
    let rest = json_files names files in
    if is_empty rf.actions
    then rest
    else record {
      file_name = rf.file_name;
      title = get_file_title rf.file_name;
      groups = json_groups names (arrange rf.actions);
    }
      ∷ rest

-- `JSONDocument`, less the fixed texts on the formats
pub record JsonDocument : Type 0 where
  pub metadata : Metadata
  pub generated_at : Text
  pub files : List JsonRouterFile
  pub changelog : Option Entry

-- `GenerateJSON`, from the metadata, the version of git and the time
unfoldable pub generate_json :
    Option (Dict Text Text) → Metadata → Text → Text → List RouterFile → Option Entry → JsonDocument
generate_json names m version now files changelog = record {
  metadata = record {
    project_name = m.project_name;
    version = version;
    description = m.description;
    author = m.author;
    contact = m.contact;
  };
  generated_at = now;
  files = json_files names files;
  changelog = changelog;
}
