-- ===== src/Docgen/Returns/Codes.antt =====
-- The error codes that internal/docgen/parser.go finds in a handler.
use mathlib.Core.List.{foldl}
use aqi.Prelude.{
  ℕ, Bool, false, ◌&&◌, ◌||◌, List, [], ◌∷◌, Option, none, some, ◌≡◌, refl, ap, ◌∙◌, ◌==◌, ==_iff,
  comparable_nat, contains, HasNoRepeats, if◌then◌else◌, Bool-cases, inl, inr, arith, ltb,
}
use aqi.Prelude.Texts.{Text, codes, comparable_text}
use aqi.Docgen.Doc.{ErrorCode, ReturnType}
use aqi.Docgen.Syntax.{Node, Nodes, nothing, also, visit, never, method_call, is_ident}
use aqi.Docgen.Returns.{
  bytes, note_code, message_of, send_code, send, return_of, return_step, extract_returns,
  extract_int_value,
}

abbrev pub codes_of : List ErrorCode → List ℕ
codes_of [] = []
codes_of (e ∷ es) = e.code ∷ codes_of es

abbrev pub max : ℕ → ℕ → ℕ
max a b = if ltb a b then b else a

-- The length of the message that is listed for a code.
abbrev pub listed : ℕ → List ErrorCode → ℕ
listed c [] = 0
listed c (e ∷ es) = if e.code == c then bytes e.message else listed c es

-- Which code and message a node sends, where it is a call of `SendCode`.
abbrev pub sent_args : Nodes → Option (ℕ × Text)
sent_args (also code (also msg args)) =
    if ltb 0 (extract_int_value code) then some (extract_int_value code, message_of msg) else none
sent_args args = none

abbrev sent_call : Option (Node × (Text × Nodes)) → Option (ℕ × Text)
sent_call none = none
sent_call (some (x, (name, args))) =
    if is_ident x && name == codes "SendCode" then sent_args args else none

abbrev pub sent : Node → Option (ℕ × Text)
sent n = sent_call (method_call n)

abbrev sends_code : ℕ → Option (ℕ × Text) → Bool
sends_code c none = false
sends_code c (some (code, msg)) = code == c

abbrev sent_bytes : ℕ → Option (ℕ × Text) → ℕ
sent_bytes c none = 0
sent_bytes c (some (code, msg)) = if code == c then bytes msg else 0

-- Some node sends the code.
abbrev pub is_sent : ℕ → List Node → Bool
is_sent c [] = false
is_sent c (n ∷ ns) = sends_code c (sent n) || is_sent c ns

-- The length of the longest message that is sent with a code.
abbrev pub longest : ℕ → List Node → ℕ
longest c [] = 0
longest c (n ∷ ns) = max (sent_bytes c (sent n)) (longest c ns)

abbrev note : Option (ℕ × Text) → List ErrorCode → List ErrorCode
note none es = es
note (some (code, msg)) es = note_code code msg es

args-note :
    (r : ReturnType) (args : Nodes)
    → (send_code args r).error_codes ≡ note (sent_args args) r.error_codes
unfolding send_code
args-note r nothing = refl
args-note r (also code nothing) = refl
args-note r (also code (also msg args)) = elim (Bool-cases (ltb 0 (extract_int_value code))) [
  | inl t ↦ rw (t, if◌then◌else◌) refl
  | inr f ↦ rw (f, if◌then◌else◌) refl
]

send-error_codes :
    (printed : Node → Text) (r : ReturnType) (args : Nodes)
    → (send printed args r).error_codes ≡ r.error_codes
unfolding send
send-error_codes printed r nothing = refl
send-error_codes printed r (also value args) = refl

return-note :
    (printed : Node → Text) (r : ReturnType) (o : Option (Node × (Text × Nodes)))
    → (return_of printed r o).error_codes ≡ note (sent_call o) r.error_codes
return-note printed r none = refl
return-note printed r (some (x, (name, args))) = elim (Bool-cases (is_ident x)) [
  | inr f ↦ rw (f, if◌then◌else◌) refl
  | inl t ↦ elim (Bool-cases (name == codes "Send")) [
    | inl s ↦
        rw ((==_iff name (codes "Send")).0 s, t, if◌then◌else◌) (send-error_codes printed r args)
    | inr s ↦ elim (Bool-cases (name == codes "SendOk")) [
      | inl k ↦ rw ((==_iff name (codes "SendOk")).0 k, t, if◌then◌else◌) refl
      | inr k ↦ elim (Bool-cases (name == codes "SendCode")) [
        | inl c ↦ rw (c, k, s, t, if◌then◌else◌) (args-note r args)
        | inr c ↦ rw (c, k, s, t, if◌then◌else◌) refl
      ]
    ]
  ]
]

-- A node changes the error codes only by what it sends.
step-note :
    (printed : Node → Text) (r : ReturnType) (n : Node)
    → (return_step printed r n).error_codes ≡ note (sent n) r.error_codes
unfolding return_step
step-note printed r n = return-note printed r (method_call n)

contains-note_code :
    (c code : ℕ) (msg : Text) (es : List ErrorCode)
    → contains c (codes_of (note_code code msg es)) ≡ (code == c || contains c (codes_of es))
unfolding note_code
contains-note_code c code msg [] = ground (arith)
contains-note_code c code msg (e ∷ es) = ground (arith, contains-note_code c code msg es)

listed-note_code :
    (c code : ℕ) (msg : Text) (es : List ErrorCode)
    → listed c (note_code code msg es) ≡ max (if code == c then bytes msg else 0) (listed c es)
unfolding note_code
listed-note_code c code msg [] = ground (arith)
listed-note_code c code msg (e ∷ es) = ground (arith, listed-note_code c code msg es)

note_code-HasNoRepeats :
    (code : ℕ) (msg : Text) (es : List ErrorCode)
    → HasNoRepeats (codes_of es)
    → HasNoRepeats (codes_of (note_code code msg es))
unfolding note_code
note_code-HasNoRepeats code msg [] h = (refl, tt)
note_code-HasNoRepeats code msg (e ∷ es) h = elim (Bool-cases (e.code == code)) [
  | inr f ↦
      rw (f, if◌then◌else◌)
        (
          ground (
            arith,
            contains-note_code e.code code msg es,
            h.0,
            f,
            ==_iff code e.code,
            ==_iff e.code code,
          ),
          note_code-HasNoRepeats code msg es h.1,
        )
  | inl t ↦ elim (Bool-cases (ltb (bytes e.message) (bytes msg))) [
    | inl l ↦ rw (t, l, if◌then◌else◌) h
    | inr l ↦ rw (t, l, if◌then◌else◌) h
  ]
]

note-contains :
    (c : ℕ) (o : Option (ℕ × Text)) (es : List ErrorCode)
    → contains c (codes_of (note o es)) ≡ (sends_code c o || contains c (codes_of es))
note-contains c none es = refl
note-contains c (some (code, msg)) es = contains-note_code c code msg es

note-listed :
    (c : ℕ) (o : Option (ℕ × Text)) (es : List ErrorCode)
    → listed c (note o es) ≡ max (sent_bytes c o) (listed c es)
note-listed c none es = ground (arith)
note-listed c (some (code, msg)) es = listed-note_code c code msg es

note-HasNoRepeats :
    (o : Option (ℕ × Text)) (es : List ErrorCode)
    → HasNoRepeats (codes_of es)
    → HasNoRepeats (codes_of (note o es))
note-HasNoRepeats none es h = h
note-HasNoRepeats (some (code, msg)) es h = note_code-HasNoRepeats code msg es h

module _ (printed : Node → Text) where
  fold_codes :
      (c : ℕ) (ns : List Node) (r : ReturnType)
      → (contains c (codes_of (foldl (return_step printed) r ns).error_codes)
          ≡ (is_sent c ns || contains c (codes_of r.error_codes)))
        × (listed c (foldl (return_step printed) r ns).error_codes
            ≡ max (longest c ns) (listed c r.error_codes))
  fold_codes c [] r = (refl, ground (arith))
  fold_codes c (n ∷ ns) r =
      let rest = fold_codes c ns (return_step printed r n) in
      let noted = step-note printed r n in
      (
        rest.0
            ∙ ap (λ es. is_sent c ns || contains c (codes_of es)) noted
            ∙ ground (arith, note-contains c (sent n) r.error_codes),
        rest.1
            ∙ ap (λ es. max (longest c ns) (listed c es)) noted
            ∙ ground (arith, note-listed c (sent n) r.error_codes),
      )

  fold-HasNoRepeats :
      (ns : List Node) (r : ReturnType)
      → HasNoRepeats (codes_of r.error_codes)
      → HasNoRepeats (codes_of (foldl (return_step printed) r ns).error_codes)
  fold-HasNoRepeats [] r h = h
  fold-HasNoRepeats (n ∷ ns) r h =
      fold-HasNoRepeats ns (return_step printed r n)
        (rw (step-note printed r n) (note-HasNoRepeats (sent n) r.error_codes h))

  -- The documented error codes of a handler: each code once, exactly the codes that a `SendCode` of
  -- the body sends or that were there before, and for each code the length of the longest message
  -- that is sent with it or was there before.
  pub extract_returns_codes :
      (body : Node) (r : ReturnType)
      → HasNoRepeats (codes_of r.error_codes)
      → (let errors = (extract_returns printed body r).error_codes in
          HasNoRepeats (codes_of errors)
          × ((c : ℕ)
              → (contains c (codes_of errors)
                  ≡ (is_sent c (visit never body) || contains c (codes_of r.error_codes)))
                × (listed c errors ≡ max (longest c (visit never body)) (listed c r.error_codes))))
  unfolding extract_returns
  extract_returns_codes body r h =
      (fold-HasNoRepeats (visit never body) r h, λ c. fold_codes c (visit never body) r)
