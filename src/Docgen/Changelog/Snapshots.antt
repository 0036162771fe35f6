-- ===== src/Docgen/Changelog/Snapshots.antt =====
-- The snapshots that `GenerateGlobalChangelog` (internal/docgen/generator.go) leaves behind.
use aqi.Prelude.{
  ℕ, zero, suc, ◌-◌, ◌≤◌, ◌≡◌, refl, sym, ap, ap₂, ==_iff, ◌∙◌, Bool, true, false, not, ◌&&◌, List,
  [], ◌∷◌, ◌++◌, Option, none, some, ◌==◌, contains, filter, length, drop, if◌then◌else◌,
  Bool-cases, inl, inr, ltb, arith,
}
use aqi.Prelude.Texts.{Text, codes, comparable_text, is_empty}
use aqi.Prelude.Sorting.{sort_texts, contains-sort_texts, sort_by}
use aqi.Docgen.Doc.{RouterFile}
use aqi.Docgen.Changelog.{
  Snapshot, Entry, to_set, action_names, last_snapshot, minus, compare_actions, replace_snapshot,
  store_snapshot, generate_changelog, max_snapshots,
}
use aqi.Docgen.Changelog.Differences.{contains-to_set}

module _ {A : Type 0} where
  length-drop_exact : (n : ℕ) (l : List A) → n ≤ length l → length (drop n l) ≡ length l - n
  length-drop_exact zero l h = omega arith
  length-drop_exact (suc n) [] h = absurd (omega (arith, h))
  length-drop_exact (suc n) (x ∷ l) h = length-drop_exact n l (omega (arith, h)) ∙ omega arith

-- No more than 50 snapshots are written, however many the file had.
pub store_snapshot-length :
    (new : Snapshot) (snapshots : List Snapshot) → length (store_snapshot new snapshots) ≤ 50
unfolding store_snapshot
store_snapshot-length new snapshots = go (
    if (replace_snapshot new snapshots).0
    then (replace_snapshot new snapshots).1
    else snapshots ++ new ∷ [])
  where
    go :
        (all : List Snapshot)
        → length
            (if ltb max_snapshots (length all) then drop (length all - max_snapshots) all else all)
          ≤ 50
    go all = elim (Bool-cases (ltb 50 (length all))) [
      | inl t ↦
          let long : 50 ≤ length all = ground (arith, t) in
          rw (t, if◌then◌else◌)
            (omega (arith, length-drop_exact (length all - 50) all (omega arith), long))
      | inr f ↦ rw (f, if◌then◌else◌) (ground (arith, f))
    ]

-- Snapshots in front of others, none of which has a version.
abbrev pub IsUnused : Text → List Snapshot → Type 0
IsUnused version [] = Unit
IsUnused version (s ∷ rest) = (s.version == version ≡ false) × IsUnused version rest

replace_unused :
    (new : Snapshot) (snapshots : List Snapshot)
    → IsUnused new.version snapshots
    → (replace_snapshot new snapshots).0 ≡ false
unfolding replace_snapshot
replace_unused new [] h = refl
replace_unused new (s ∷ rest) h = rw (h.0, if◌then◌else◌) (replace_unused new rest h.1)

last-append : (l : List Snapshot) (s : Snapshot) → last_snapshot (l ++ s ∷ []) ≡ some s
last-append [] s = refl
last-append (x ∷ []) s = refl
last-append (x ∷ y ∷ l) s = last-append (y ∷ l) s

last-drop :
    (n : ℕ) (l : List Snapshot) → suc n ≤ length l → last_snapshot (drop n l) ≡ last_snapshot l
last-drop zero l h = refl
last-drop (suc n) [] h = absurd (omega (arith, h))
last-drop (suc n) (x ∷ []) h = absurd (omega (arith, h))
last-drop (suc n) (x ∷ y ∷ l) h = last-drop n (y ∷ l) (omega (arith, h))

-- A snapshot of a new version becomes the last one.
pub last-store_snapshot :
    (new : Snapshot) (snapshots : List Snapshot)
    → IsUnused new.version snapshots
    → last_snapshot (store_snapshot new snapshots) ≡ some new
unfolding store_snapshot
last-store_snapshot new snapshots h =
    rw (replace_unused new snapshots h, if◌then◌else◌)
      (go (snapshots ++ new ∷ []) (last-append snapshots new))
  where
    go :
        (all : List Snapshot)
        → last_snapshot all ≡ some new
        → last_snapshot
            (if ltb max_snapshots (length all) then drop (length all - max_snapshots) all else all)
          ≡ some new
    go all e = elim (Bool-cases (ltb 50 (length all))) [
      | inl t ↦
          let long : 51 ≤ length all = ground (arith, t) in
          rw (t, if◌then◌else◌) (last-drop (length all - 50) all (omega (arith, long)) ∙ e)
      | inr f ↦ rw (f, if◌then◌else◌) e
    ]

filter_none :
    (p : Text → Bool) (l : List Text)
    → ((a : Text) → contains a l ≡ true → p a ≡ false)
    → filter p l ≡ []
filter_none p [] h = refl
filter_none p (x ∷ l) h =
    let here : p x ≡ false = h x (ground (arith, ==_iff x x)) in
    let rest = filter_none p l (λ a m. h a (ground (arith, m))) in rw (here, if◌then◌else◌) rest

minus-empty :
    (xs ys : List Text)
    → ((a : Text) → contains a xs ≡ true → contains a ys ≡ true)
    → minus xs ys ≡ []
unfolding minus sort_texts sort_by
minus-empty xs ys h =
    ap sort_texts (filter_none (λ a. not (contains a ys)) xs (λ a m. ap not (h a m)))

-- Against a snapshot of the same actions there is no difference.
compare_same :
    (current : List Text) (s : Snapshot)
    → s.actions ≡ sort_texts current
    → compare_actions current (some s) ≡ ([], [])
unfolding compare_actions
compare_same current s e =
    let same : (a : Text) → contains a (to_set s.actions) ≡ contains a current =
      (λ a. contains-to_set a s.actions ∙ ap (contains a) e ∙ contains-sort_texts a current) in
    ap₂ (λ x y. (x, y)) (minus-empty current (to_set s.actions) (λ a m. same a ∙ m))
      (minus-empty (to_set s.actions) current (λ a m. sym (same a) ∙ m))

abbrev stored_of : Option (Entry × List Snapshot) → List Snapshot
stored_of none = []
stored_of (some (e, stored)) = stored

-- A second run on the same actions, after one that stored a new version, reports nothing.
pub generate_changelog-twice :
    (version now later : Text) (files : List RouterFile) (snapshots stored : List Snapshot)
    (e : Entry)
    → IsUnused version snapshots
    → generate_changelog version now files snapshots ≡ some (e, stored)
    → generate_changelog version later files stored ≡ none
unfolding generate_changelog
generate_changelog-twice version now later files snapshots stored e unused h =
    let current = to_set (action_names files) in
    let (added, removed) = compare_actions current (last_snapshot snapshots) in
    let new : Snapshot = record {
      version = version;
      timestamp = now;
      actions = sort_texts current;
    } in
    let written : store_snapshot new snapshots ≡ stored =
      go (version == codes "-") (is_empty added && is_empty removed)
        (record { version = version; timestamp = now; added = added; removed = removed })
        (store_snapshot new snapshots) h in
    let last : last_snapshot stored ≡ some new =
      ap last_snapshot (sym written) ∙ last-store_snapshot new snapshots unused in
    let nothing = ap (compare_actions current) last ∙ compare_same current new refl in
    rw nothing (quiet (version == codes "-"))
  where
    go :
        (b c : Bool) (x : Entry) (l : List Snapshot)
        → ◌≡◌ {A = Option (Entry × List Snapshot)}
            (if b then none else if c then none else some (x, l))
            (some (e, stored))
        → l ≡ stored
    go true c x l k = absurd (ground (arith, k))
    go false true x l k = absurd (ground (arith, k))
    go false false x l k = ap stored_of k

    quiet : (b : Bool) → ◌≡◌ {A = Option (Entry × List Snapshot)} (if b then none else none) none
    quiet true = refl
    quiet false = refl
