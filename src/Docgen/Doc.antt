-- ===== src/Docgen/Doc.antt =====
-- The data of internal/docgen/types.go. Texts are lists of code points.
use aqi.Prelude.{ℕ, Bool, List}
use aqi.Prelude.Texts.{Text}

-- `ParamField`
pub record ParamField : Type 0 where
  pub name : Text
  pub type : Text
  pub is_required : Bool
  pub description : Text

-- `ErrorCode`; a code is positive.
pub record ErrorCode : Type 0 where
  pub code : ℕ
  pub message : Text

-- `ReturnType`
pub record ReturnType : Type 0 where
  pub success_type : Text
  pub error_codes : List ErrorCode
  pub has_data : Bool

-- `ActionDoc`, less the examples, which nothing sets
pub record ActionDoc : Type 0 where
  pub name : Text
  pub description : Text
  pub router_file : Text
  pub middleware_chain : List Text
  pub middleware_group : Text
  pub params : List ParamField
  pub returns : ReturnType

-- `RouterFile`
pub record RouterFile : Type 0 where
  pub file_name : Text
  pub func_name : Text
  pub actions : List ActionDoc

-- `metadataConfig` of internal/docgen/parser.go
pub record Metadata : Type 0 where
  pub project_name : Text
  pub version : Text
  pub description : Text
  pub author : Text
  pub contact : Text
