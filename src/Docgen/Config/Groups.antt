-- ===== src/Docgen/Config/Groups.antt =====
-- The groups after `LoadCategoryConfig` of internal/docgen/parser.go.
use aqi.Prelude.{
  Bool, true, false, ◌||◌, List, [], ◌∷◌, Option, none, some, ◌≡◌, refl, sym, ap, ◌∙◌, ◌==◌, ==_iff,
  contains, if◌then◌else◌, Option-cases, inl, inr, arith,
}
use aqi.Prelude.Dict.{Dict, get, put, get-put}
use aqi.Prelude.Texts.{Text, comparable_text}
use aqi.Docgen.Config.{add_groups}

-- The name that a group had, or its prefix where it is new and among the given ones.
abbrev pub named : Option Text → Bool → Text → Option Text
named (some name) b prefix = some name
named none b prefix = if b then some prefix else none

-- Each group keeps the name that it has; a prefix of an action that has no group gets itself as
-- name, and no other group appears.
pub add_groups-get :
    (prefixes : List Text) (groups : Dict Text Text) (prefix : Text)
    → get (add_groups prefixes groups).1 prefix
      ≡ named (get groups prefix) (contains prefix prefixes) prefix
unfolding add_groups
add_groups-get [] groups prefix = go (get groups prefix)
  where
    go : (o : Option Text) → o ≡ named o false prefix
    go none = refl
    go (some n) = refl
add_groups-get (p ∷ prefixes) groups prefix = elim (Option-cases (get groups p)) [
  | inr (n, e) ↦
      rw (e, add_groups)
        (add_groups-get prefixes groups prefix
          ∙ known n e (prefix == p) refl (get groups prefix) refl)
  | inl e ↦
      rw (e, add_groups)
        (add_groups-get prefixes (put groups p p) prefix
          ∙ rw (get-put groups p prefix p)
              (fresh e (prefix == p) refl (p == prefix) refl (get groups prefix) refl))
]
  where
    known :
        (n : Text)
        → get groups p ≡ some n
        → (b : Bool) → prefix == p ≡ b
        → (o : Option Text) → get groups prefix ≡ o
        → named o (contains prefix prefixes) prefix ≡ named o (b || contains prefix prefixes) prefix
    known n e b eb (some m) eo = refl
    known n e false eb none eo = refl
    known n e true eb none eo =
        let same : prefix ≡ p = (==_iff prefix p).0 eb in
        let k : none ≡ some n = sym eo ∙ ap (get groups) same ∙ e in absurd (ground (arith, k))

    fresh :
        get groups p ≡ none
        → (b : Bool) → prefix == p ≡ b
        → (c : Bool) → p == prefix ≡ c
        → (o : Option Text) → get groups prefix ≡ o
        → named (if c then some p else o) (contains prefix prefixes) prefix
          ≡ named o (b || contains prefix prefixes) prefix
    fresh e true eb true ec none eo = ap some (sym ((==_iff prefix p).0 eb))
    fresh e true eb true ec (some m) eo =
        let same : prefix ≡ p = (==_iff prefix p).0 eb in
        let k : none ≡ some m = sym e ∙ ap (get groups) (sym same) ∙ eo in
        absurd (ground (arith, k))
    fresh e true eb false ec o eo =
        absurd (ground (arith, eb, ec, ==_iff prefix p, ==_iff p prefix))
    fresh e false eb true ec o eo =
        absurd (ground (arith, eb, ec, ==_iff prefix p, ==_iff p prefix))
    fresh e false eb false ec none eo = refl
    fresh e false eb false ec (some m) eo = refl
