-- ===== src/Tests/Evidences.antt =====
-- Examples for the evidence of a payload.
use experience_hub.Prelude.{◌≡◌, refl, List, [], ◌∷◌}
use experience_hub.Experiences.Events.{TypedEvidence}
use experience_hub.Experiences.Events.Evidence.{evidence_lt, insert_evidence, canonicalize_evidence}

-- A log with the identifier a" and a run with the identifier b.
abbrev quoted_log : TypedEvidence
quoted_log = record { type = 108 ∷ 111 ∷ 103 ∷ []; id = 97 ∷ 34 ∷ [] }

abbrev plain_run : TypedEvidence
plain_run = record { type = 114 ∷ 117 ∷ 110 ∷ []; id = 98 ∷ [] }

abbrev given : List TypedEvidence
given = plain_run ∷ quoted_log ∷ plain_run ∷ []

sorted_once : canonicalize_evidence given ≡ quoted_log ∷ plain_run ∷ []
unfolding canonicalize_evidence insert_evidence evidence_lt
sorted_once = refl
