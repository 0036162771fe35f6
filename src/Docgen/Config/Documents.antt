-- ===== src/Docgen/Config/Documents.antt =====
-- The list of documents after `UpdateDocumentsInConfig` of internal/docgen/parser.go.
use mathlib.Core.List.{append-nil}
use aqi.Prelude.{
  Bool, true, false, not, ◌&&◌, ◌||◌, List, [], ◌∷◌, ◌++◌, ◌≡◌, refl, sym, ap, ap₂, ◌∙◌, ==_iff,
  contains, contains-append, map, filter, filter-append, if◌then◌else◌, Bool-cases, inl, inr, arith,
  All,
}
use aqi.Prelude.Texts.{Text, comparable_text, ends_with, is_empty}
use aqi.Docgen.Config.{
  DocumentInfo, is_generated, extension, keep_existing, add_new, merge_documents,
}

abbrev pub files_of : List DocumentInfo → List Text
files_of = map (λ (d : DocumentInfo). d.file)

-- What is kept of the documents in the file.
abbrev pub is_kept : Text → List DocumentInfo → DocumentInfo → Bool
is_kept ext documents d =
    is_generated documents d.file || (not (is_empty d.file) && ends_with ext d.file)

keep_existing-filter :
    (ext : Text) (documents existing : List DocumentInfo)
    → keep_existing ext documents existing ≡ filter (is_kept ext documents) existing
unfolding keep_existing
keep_existing-filter ext documents [] = refl
keep_existing-filter ext documents (d ∷ existing) =
    go (is_generated documents d.file) (not (is_empty d.file) && ends_with ext d.file)
      (keep_existing-filter ext documents existing)
  where
    go :
        (a b : Bool)
        → keep_existing ext documents existing ≡ filter (is_kept ext documents) existing
        → (if a
            then d ∷ keep_existing ext documents existing
            else if b
            then d ∷ keep_existing ext documents existing
            else keep_existing ext documents existing)
          ≡ (if a || b
              then d ∷ filter (is_kept ext documents) existing
              else filter (is_kept ext documents) existing)
    go true b h = ap (λ l. d ∷ l) h
    go false true h = ap (λ l. d ∷ l) h
    go false false h = h

add_new-filter :
    (files : List Text) (documents : List DocumentInfo)
    → add_new files documents ≡ filter (λ d. not (contains d.file files)) documents
unfolding add_new
add_new-filter files [] = refl
add_new-filter files (d ∷ documents) = rw (add_new-filter files documents) refl

-- The merged list: the documents of the file that were generated again or are of the right format,
-- as the user has named them and in their order, and then the generated ones of other files.
pub merge_documents-filter :
    (format : Text) (existing documents : List DocumentInfo)
    → merge_documents format existing documents ≡ (
        let kept = filter (is_kept (extension format) documents) existing in
        kept ++ filter (λ d. not (contains d.file (files_of kept))) documents)
unfolding merge_documents
merge_documents-filter format existing documents =
    let same = keep_existing-filter (extension format) documents existing in
    let kept = keep_existing (extension format) documents existing in
    ap₂ ◌++◌ same (
      add_new-filter (files_of kept) documents
      ∙ ap (λ l. filter (λ d. not (contains d.file (files_of l))) documents) same)

module _ {A : Type 0} where
  filter_kept : (p : A → Bool) (l : List A) → filter p (filter p l) ≡ filter p l
  filter_kept p [] = refl
  filter_kept p (x ∷ l) = elim (Bool-cases (p x)) [
    | inl t ↦ rw (t, if◌then◌else◌) (rw (t, if◌then◌else◌) (ap (λ m. x ∷ m) (filter_kept p l)))
    | inr f ↦ rw (f, if◌then◌else◌) (filter_kept p l)
  ]

contains-files_filter :
    (f : Text) (files : List Text) (documents : List DocumentInfo)
    → contains f (files_of (filter (λ d. not (contains d.file files)) documents))
      ≡ (contains f (files_of documents) && not (contains f files))
contains-files_filter f files [] = refl
contains-files_filter f files (d ∷ documents) =
    ground (arith, contains-files_filter f files documents, ==_iff f d.file)

files_of-append : (l m : List DocumentInfo) → files_of (l ++ m) ≡ files_of l ++ files_of m
files_of-append [] m = refl
files_of-append (x ∷ l) m = ap (λ t. x.file ∷ t) (files_of-append l m)

filter_no_file :
    (files : List Text) (documents : List DocumentInfo)
    → ((f : Text) → contains f (files_of documents) ≡ true → contains f files ≡ true)
    → filter (λ d. not (contains d.file files)) documents ≡ []
filter_no_file files [] h = refl
filter_no_file files (d ∷ documents) h =
    let here : not (contains d.file files) ≡ false =
      ap not (h d.file (ground (arith, ==_iff d.file d.file))) in
    rw (here, if◌then◌else◌) (filter_no_file files documents (λ f m. h f (ground (arith, m))))

filter_generated :
    (ext : Text) (q : DocumentInfo → Bool) (all documents : List DocumentInfo)
    → All (λ d. is_empty d.file ≡ false) documents
    → ((f : Text) → contains f (files_of documents) ≡ true → contains f (files_of all) ≡ true)
    → filter (is_kept ext all) (filter q documents) ≡ filter q documents
filter_generated ext q all [] named h = refl
filter_generated ext q all (d ∷ documents) named h =
    let rest = filter_generated ext q all documents named.1 (λ f m. h f (ground (arith, m))) in
    let listed : contains d.file (files_of all) ≡ true =
      h d.file (ground (arith, ==_iff d.file d.file)) in
    let kept : is_kept ext all d ≡ true = rw (named.0, listed) refl in
    elim (Bool-cases (q d)) [
      | inl t ↦ rw (t, if◌then◌else◌) (rw (kept, if◌then◌else◌) (ap (λ l. d ∷ l) rest))
      | inr f ↦ rw (f, if◌then◌else◌) rest
    ]

covered :
    (format : Text) (existing documents : List DocumentInfo) (f : Text)
    → contains f (files_of documents) ≡ true
    → (let kept = filter (is_kept (extension format) documents) existing in
        contains f
          (files_of (kept ++ filter (λ d. not (contains d.file (files_of kept))) documents))
        ≡ true)
covered format existing documents f m =
    let kept : List DocumentInfo = filter (is_kept (extension format) documents) existing in
    let new : List DocumentInfo = filter (λ d. not (contains d.file (files_of kept))) documents in
    ap (contains f) (files_of-append kept new)
    ∙ contains-append f (files_of kept) (files_of new)
    ∙ ap (λ b. contains f (files_of kept) || b) (contains-files_filter f (files_of kept) documents)
    ∙ ground (arith, m)

-- Each generated document is in the merged list.
pub contains-merge_documents :
    (format : Text) (existing documents : List DocumentInfo) (f : Text)
    → contains f (files_of documents) ≡ true
    → contains f (files_of (merge_documents format existing documents)) ≡ true
contains-merge_documents format existing documents f m =
    ap (λ l. contains f (files_of l)) (merge_documents-filter format existing documents)
    ∙ covered format existing documents f m

-- Where each generated document has a file name, merging the same documents again changes nothing.
pub merge_documents-twice :
    (format : Text) (existing documents : List DocumentInfo)
    → All (λ d. is_empty d.file ≡ false) documents
    → merge_documents format (merge_documents format existing documents) documents
      ≡ merge_documents format existing documents
merge_documents-twice format existing documents named =
    let p : DocumentInfo → Bool = is_kept (extension format) documents in
    let kept : List DocumentInfo = filter p existing in
    let q : DocumentInfo → Bool = (λ d. not (contains d.file (files_of kept))) in
    let new : List DocumentInfo = filter q documents in
    let once = merge_documents-filter format existing documents in
    let again : filter p (kept ++ new) ≡ kept ++ new =
      filter-append p kept new
      ∙ ap₂ ◌++◌ (filter_kept p existing)
          (filter_generated (extension format) q documents documents named (λ f m. m)) in
    ap (λ l. merge_documents format l documents) once
    ∙ merge_documents-filter format (kept ++ new) documents
    ∙ ap (λ l. l ++ filter (λ d. not (contains d.file (files_of l))) documents) again
    ∙ ap (λ l. (kept ++ new) ++ l)
        (filter_no_file (files_of (kept ++ new)) documents (covered format existing documents))
    ∙ append-nil (kept ++ new)
    ∙ sym once
