-- ===== src/Experiences/Events/Evidence.antt =====
-- The evidence of a payload: canonicalize_evidence of _EvidenceLifecycleStateEventV1 in
-- src/experience_hub/experiences/events.py, over the canonical JSON of
-- src/experience_hub/canonical.py.
use experience_hub.Prelude.{
  ℕ, ◌+◌, ◌/◌, ◌%◌, Bool, true, false, ◌&&◌, ◌||◌, List, [], ◌∷◌, ◌++◌, ltb, ◌==◌, if◌then◌else◌,
}
use experience_hub.Experiences.Events.{TypedEvidence}

-- A character inside a JSON string: a quote, a backslash and the controls are escaped.
unfoldable json_character : ℕ → List ℕ
json_character c =
    if c == 34 || c == 92
    then 92 ∷ c ∷ []
    else if c == 8
    then 92 ∷ 98 ∷ []
    else if c == 9
    then 92 ∷ 116 ∷ []
    else if c == 10
    then 92 ∷ 110 ∷ []
    else if c == 12
    then 92 ∷ 102 ∷ []
    else if c == 13
    then 92 ∷ 114 ∷ []
    else if ltb c 32
    then 92
      ∷ 117
      ∷ 48
      ∷ 48
      ∷ (48 + c / 16)
      ∷ (if ltb (c % 16) 10 then 48 + c % 16 else 87 + c % 16)
      ∷ []
    else c ∷ []

-- The characters of a text, and then the rest.
unfoldable json_text : List ℕ → List ℕ → List ℕ
unfolding json_character
json_text [] rest = rest
json_text (c ∷ cs) rest = json_character c ++ json_text cs rest

-- `{"id":"…","type":"…"}`
unfoldable pub evidence_json : TypedEvidence → List ℕ
unfolding json_text
evidence_json e =
    123
    ∷ 34
    ∷ 105
    ∷ 100
    ∷ 34
    ∷ 58
    ∷ 34
    ∷ json_text e.id
        (34 ∷ 44 ∷ 34 ∷ 116 ∷ 121 ∷ 112 ∷ 101 ∷ 34 ∷ 58 ∷ 34 ∷ json_text e.type (34 ∷ 125 ∷ []))

-- The order of the UTF-8 of two texts, which is that of their characters.
unfoldable pub text_lt : List ℕ → List ℕ → Bool
text_lt [] [] = false
text_lt [] (d ∷ ds) = true
text_lt (c ∷ cs) [] = false
text_lt (c ∷ cs) (d ∷ ds) = ltb c d || c == d && text_lt cs ds

unfoldable pub evidence_lt : TypedEvidence → TypedEvidence → Bool
unfolding evidence_json text_lt
evidence_lt a b = text_lt (evidence_json a) (evidence_json b)

-- The keys of `unique`, sorted, with the values that they have.
unfoldable pub insert_evidence : TypedEvidence → List TypedEvidence → List TypedEvidence
insert_evidence x [] = x ∷ []
insert_evidence x (y ∷ ys) =
    let later : List TypedEvidence = insert_evidence x ys in
    if evidence_lt x y then x ∷ y ∷ ys else if evidence_lt y x then y ∷ later else y ∷ ys

unfoldable pub canonicalize_evidence : List TypedEvidence → List TypedEvidence
unfolding insert_evidence
canonicalize_evidence [] = []
canonicalize_evidence (x ∷ xs) = insert_evidence x (canonicalize_evidence xs)

-- What canonicalize_evidence gives: in order, without a repetition.
unfoldable pub is_canonical : List TypedEvidence → Bool
is_canonical [] = true
is_canonical (x ∷ []) = true
is_canonical (x ∷ y ∷ rest) = evidence_lt x y && is_canonical (y ∷ rest)
