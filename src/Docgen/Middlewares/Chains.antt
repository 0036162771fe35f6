-- ===== src/Docgen/Middlewares/Chains.antt =====
-- The chain that `buildMiddlewareMap` of internal/docgen/parser.go gives a router variable.
use mathlib.Core.List.{foldl, append_assoc, append-nil}
use aqi.Prelude.{
  true, false, not, List, [], ◌∷◌, ◌++◌, ◌≡◌, refl, sym, ap, ◌∙◌, ◌==◌, ==_iff, if◌then◌else◌,
  Bool-cases, inl, inr, arith, comparable_nat,
}
use aqi.Prelude.Dict.{Dict, get, get-put}
use aqi.Prelude.Texts.{Text, codes, comparable_text, is_empty}
use aqi.Docgen.Syntax.{
  Node, Nodes, ident, assign, call, selector, other, nothing, also, each, followed, visit,
  visit_all, visit_all-followed, never, method_call, ident_name,
}
use aqi.Docgen.Middlewares.{
  VarInfo, extract_middlewares, info_of_call, var_info, var_infos, chain_or_empty, add_info,
  build_middleware_map,
}

-- `middlewareMap[v]`
abbrev pub chain_of : Node → Text → List Text
chain_of body v = chain_or_empty (get (build_middleware_map body) v)

var_infos-append : (ns ms : List Node) → var_infos (ns ++ ms) ≡ var_infos ns ++ var_infos ms
var_infos-append [] ms = refl
var_infos-append (n ∷ ns) ms =
    ap (λ l. var_info n ++ l) (var_infos-append ns ms)
    ∙ sym (append_assoc (var_info n) (var_infos ns) (var_infos ms))

foldl-append :
    (d : Dict Text (List Text)) (l m : List VarInfo)
    → foldl add_info d (l ++ m) ≡ foldl add_info (foldl add_info d l) m
foldl-append d [] m = refl
foldl-append d (i ∷ l) m = foldl-append (add_info d i) l m

-- The chain of the variable after one round.
abbrev chain_after : List Text → VarInfo → List Text
chain_after parent info =
    if info.is_new_router
    then []
    else if not (is_empty info.parent_var)
    then parent ++ info.middlewares
    else info.middlewares

get-add_info :
    (d : Dict Text (List Text)) (info : VarInfo) (v : Text)
    → chain_or_empty (get (add_info d info) v) ≡ (
        if info.var_name == v
        then chain_after (chain_or_empty (get d info.parent_var)) info
        else chain_or_empty (get d v))
unfolding add_info
get-add_info d info v = ground (
  arith,
  get-put d info.var_name v [],
  get-put d info.var_name v info.middlewares,
  get-put d info.var_name v (chain_or_empty (get d info.parent_var) ++ info.middlewares),
)

-- `var := parent.method(args)`
abbrev pub derived : Text → Text → Text → Nodes → Node
derived var parent method args =
    assign true (also (ident var) nothing)
      (also (call (selector (ident parent) method) args) nothing)

var_infos-derived :
    (var parent method : Text) (args : Nodes)
    → var_infos (visit_all never args) ≡ []
    → var_infos (visit_all never (also (derived var parent method args) nothing))
      ≡ info_of_call var (ident parent) method args ∷ []
unfolding visit var_info method_call
var_infos-derived var parent method args quiet =
    ap (λ l. info_of_call var (ident parent) method args ∷ var_infos l)
      (append-nil (visit_all never args ++ []) ∙ append-nil (visit_all never args))
    ∙ ap (λ l. info_of_call var (ident parent) method args ∷ l) quiet

-- The chains after the whole body are those after the first statements, with one more round.
map-followed :
    (body : Nodes) (var parent method : Text) (args : Nodes)
    → var_infos (visit_all never args) ≡ []
    → build_middleware_map (other (followed body (also (derived var parent method args) nothing)))
      ≡ add_info (build_middleware_map (other body)) (info_of_call var (ident parent) method args)
unfolding build_middleware_map visit var_info
map-followed body var parent method args quiet =
    ap (λ l. foldl add_info [] (var_infos l))
      (visit_all-followed never body (also (derived var parent method args) nothing))
    ∙ ap (foldl add_info []) (
        var_infos-append (visit_all never body)
          (visit_all never (also (derived var parent method args) nothing))
        ∙ ap (λ l. var_infos (visit_all never body) ++ l)
            (var_infos-derived var parent method args quiet))
    ∙ foldl-append [] (var_infos (visit_all never body))
        (info_of_call var (ident parent) method args ∷ [])

info-chain :
    (var parent method : Text) (args : Nodes) (before : Text → List Text) (v : Text)
    → is_empty parent ≡ false
    → (let info = info_of_call var (ident parent) method args in
        if info.var_name == v then chain_after (before info.parent_var) info else before v)
      ≡ (if var == v
          then (if method == codes "Use"
              then before parent ++ extract_middlewares (each args)
              else [])
          else before v)
unfolding info_of_call ident_name
info-chain var parent method args before v named = elim (Bool-cases (method == codes "NewRouter")) [
  | inl t ↦ let name = (==_iff method (codes "NewRouter")).0 t in rw name refl
  | inr f ↦ elim (Bool-cases (method == codes "Use")) [
    | inl t ↦ rw (f, t, named, if◌then◌else◌) refl
    | inr g ↦ rw (f, g, if◌then◌else◌) refl
  ]
]

-- A body that ends with `var := parent.method(args)`, where the arguments assign no variable: with
-- `Use` the variable gets the chain of its parent and the names of the arguments behind it; with
-- any other method, `Group` and `NewRouter` among them, it gets an empty chain. The chains of
-- other variables are as without the assignment.
pub chain_of-derived :
    (body : Nodes) (var parent method : Text) (args : Nodes) (v : Text)
    → is_empty parent ≡ false
    → var_infos (visit_all never args) ≡ []
    → chain_of (other (followed body (also (derived var parent method args) nothing))) v ≡ (
        if var == v
        then (if method == codes "Use"
            then chain_of (other body) parent ++ extract_middlewares (each args)
            else [])
        else chain_of (other body) v)
chain_of-derived body var parent method args v named quiet =
    ap (λ d. chain_or_empty (get d v)) (map-followed body var parent method args quiet)
    ∙ get-add_info (build_middleware_map (other body)) (info_of_call var (ident parent) method args)
        v
    ∙ info-chain var parent method args (chain_of (other body)) v named
