-- ===== src/Docgen/Syntax.antt =====
-- The syntax trees of package go/ast as internal/docgen/parser.go walks them. A node keeps what the
-- parser reads: the names inside a selector or a declaration are texts, and a node of any other kind
-- is `other` with its children.
use aqi.Prelude.{
  Bool, true, false, List, [], ◌∷◌, ◌++◌, ◌≡◌, refl, ap, ◌∙◌, sym, Option, none, some,
  if◌then◌else◌,
}
use aqi.Prelude.Texts.{Text}
use mathlib.Core.List.{append_assoc}

mutual
  pub data Node : Type 0 where
    ident : Text → Node
    -- literals as they are written
    string_lit : Text → Node
    int_lit : Text → Node
    selector : Node → Text → Node
    call : Node → Nodes → Node
    -- `&x` and `*T`
    address : Node → Node
    star : Node → Node
    -- a composite literal: its type, if it has one, and its elements
    literal : Nodes → Nodes → Node
    func_lit : Node → Node
    array_type : Node → Node
    map_type : Node → Node → Node
    struct_type : Nodes → Node
    -- names, type, tag, the comment above and the comment behind
    field : List Text → Node → Option Text → List Text → List Text → Node
    -- an assignment; the test tells `:=`
    assign : Bool → Nodes → Nodes → Node
    var_decl : Nodes → Node
    -- names, type, values
    value_spec : List Text → Nodes → Nodes → Node
    type_spec : Text → Node → Node
    -- name, comment, body
    func_decl : Text → Option (List Text) → Nodes → Node
    other : Nodes → Node

  pub data Nodes : Type 0 where
    nothing : Nodes
    also : Node → Nodes → Nodes

abbrev pub each : Nodes → List Node
each nothing = []
each (also n ns) = n ∷ each ns

abbrev pub followed : Nodes → Nodes → Nodes
followed nothing ms = ms
followed (also n ns) ms = also n (followed ns ms)

-- `ast.Inspect`: the nodes that it visits, in order; it does not met a node that passes the test.
module _ (stops : Node → Bool) where
  abbrev pub met : Node → List Node → List Node
  met n below = if stops n then n ∷ [] else n ∷ below

  unfoldable mutual
    pub visit : Node → List Node
    visit (ident x) = met (ident x) []
    visit (string_lit t) = met (string_lit t) []
    visit (int_lit t) = met (int_lit t) []
    visit (selector x name) = met (selector x name) (visit x)
    visit (call f args) = met (call f args) (visit f ++ visit_all args)
    visit (address x) = met (address x) (visit x)
    visit (star x) = met (star x) (visit x)
    visit (literal type elements) =
        met (literal type elements) (visit_all type ++ visit_all elements)
    visit (func_lit body) = met (func_lit body) (visit body)
    visit (array_type t) = met (array_type t) (visit t)
    visit (map_type k v) = met (map_type k v) (visit k ++ visit v)
    visit (struct_type fields) = met (struct_type fields) (visit_all fields)
    visit (field names type tag doc comment) = met (field names type tag doc comment) (visit type)
    visit (assign define lhs rhs) = met (assign define lhs rhs) (visit_all lhs ++ visit_all rhs)
    visit (var_decl specs) = met (var_decl specs) (visit_all specs)
    visit (value_spec names type values) =
        met (value_spec names type values) (visit_all type ++ visit_all values)
    visit (type_spec name type) = met (type_spec name type) (visit type)
    visit (func_decl name doc body) = met (func_decl name doc body) (visit_all body)
    visit (other ns) = met (other ns) (visit_all ns)

    pub visit_all : Nodes → List Node
    visit_all nothing = []
    visit_all (also n ns) = visit n ++ visit_all ns

  pub visit_all-followed :
      (ns ms : Nodes) → visit_all (followed ns ms) ≡ visit_all ns ++ visit_all ms
  unfolding visit_all
  visit_all-followed nothing ms = refl
  visit_all-followed (also n ns) ms =
      ap (λ l. visit n ++ l) (visit_all-followed ns ms)
      ∙ sym (append_assoc (visit n) (visit_all ns) (visit_all ms))

-- A call `x.name(args)`
unfoldable pub method_call : Node → Option (Node × (Text × Nodes))
method_call (call (selector x name) args) = some (x, (name, args))
method_call n = none

-- The name of an identifier; "" for another node.
unfoldable pub ident_name : Node → Text
ident_name (ident x) = x
ident_name n = []

unfoldable pub is_ident : Node → Bool
is_ident (ident x) = true
is_ident n = false

-- No node is passed over.
abbrev pub never : Node → Bool
never n = false
