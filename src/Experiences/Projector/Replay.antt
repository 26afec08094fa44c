-- ===== src/Experiences/Projector/Replay.antt =====
-- What the projection holds after a run over the ledger.
use text.Mathlib.Text.{◌==◌ as str_eq}
use experience_hub.Prelude.{
  ℕ, ◌≡◌, sym, ==→≡, ◌∙◌, ap, true, Option, none, some, List, [], ◌∷◌, String, ◌==◌, if◌then◌else◌,
  ok, ok-injective, >>=-eq-ok, Bool-cases, inl, inr,
}
use experience_hub.Floats.{FloatOps}
use experience_hub.Scoring.{LifecycleConfig}
use experience_hub.Experiences.Events.{Payload}
use experience_hub.Experiences.Events.Valid.{valid, after}
use experience_hub.Storage.EventStore.{StoredEvent}
use experience_hub.Experiences.Projector.Rows.{Row, select_row, snapshot_parameters}
use experience_hub.Experiences.Projector.Rows.Table.{IsStored}
use experience_hub.Experiences.Projector.Sources.{
  Sources, Decoded, of_experience, of_adoption, of_other, experience_of, is_state_event_type,
  checked,
}
use experience_hub.Experiences.Projector.Context.{returned, returned-ok}
use experience_hub.Experiences.Projector.Provenance.{Index}
use experience_hub.Experiences.Projector.Apply.{
  Projection, OnlineEvent, with_payload, apply_decoded, apply, stored_event_from_row, replay_ledger,
  rebuild, online,
}
use experience_hub.Experiences.Projector.Effect.{anchored_after, IsProjected, payload-IsProjected}

-- The row that a decoded event leaves to the experience `k`, which had the row `row`.
abbrev pub left_row : {P : Type 0} → ℕ → Option Row → StoredEvent P → Option Decoded → Option Row
left_row k row e (some (of_experience p)) =
    if experience_of p == k
    then some
        (record (snapshot_parameters (after p) e.event_id) { projection_event_id = e.event_id })
    else row
left_row k row e _ = row

-- The row that the state events of a ledger leave to the experience `k`: that of the last one.
pub last_row :
    {P : Type 0}
    → (String → P → Option Decoded)
    → ℕ
    → Option Row
    → List (StoredEvent P)
    → Option Row
last_row decode k row [] = row
last_row decode k row (e ∷ es) =
    last_row decode k
      (if is_state_event_type e.row.event_type
        then left_row k row e (decode e.row.event_type e.row.payload)
        else row)
      es

-- Decoding validates.
abbrev pub DecodesValid : {P : Type 0} → FloatOps → (String → P → Option Decoded) → Type 0
DecodesValid {P} ops decode =
    (t : String) (q : P) (p : Payload) → decode t q ≡ some (of_experience p) → valid ops p ≡ true

projected_row :
    {P : Type 0} (ops : FloatOps) (rows projected : List Row) (e : StoredEvent P) (p : Payload)
    (k : ℕ)
    → (after p).experience_id ≡ experience_of p
    → IsStored ops (snapshot_parameters (after p) e.event_id) rows projected
    → select_row k projected ≡ (
        if experience_of p == k
        then some (snapshot_parameters (after p) e.event_id)
        else select_row k rows)
unfolding snapshot_parameters
projected_row ops rows projected e p k n s = elim (Bool-cases (experience_of p == k)) [
  | inl t ↦
      rw t
        (ap (λ (j : ℕ). select_row j projected) (sym (n ∙ ==→≡ (experience_of p) k t)) ∙ s.stored)
  | inr f ↦ rw f (s.others k (rw n f))
]

module _ (ops : FloatOps) (config : LifecycleConfig) {P C : Type 0} (sources : Sources P C)
    (decodes : DecodesValid ops sources.decode) where
  applied_decoded :
      (session next : Projection P) (e : StoredEvent P) (d : Decoded)
      → sources.decode e.row.event_type e.row.payload ≡ some d
      → apply_decoded ops config sources session (with_payload e d) d ≡ ok next
      → (p : Payload) × (sources.decode e.row.event_type e.row.payload ≡ some (of_experience p))
        × IsProjected ops sources p (with_payload e p) session.rows next.rows
  unfolding apply_decoded
  applied_decoded session next e (of_experience p) h a = (
    p,
    h,
    payload-IsProjected ops sources config session next (with_payload e p) p (decodes _ _ p h) a,
  )
  applied_decoded session next e (of_adoption c) h a = cc
  applied_decoded session next e (of_other id) h a = cc

  -- If the registry decodes experience events to valid payloads only, then an event of the ledger
  -- that is applied decodes to such a payload, which follows the current row of its experience and
  -- the event before it, and the row of that experience becomes the state after the event, under the
  -- event's identifier, while no other row changes.
  pub applied-IsProjected :
      (session next : Projection P) (e : StoredEvent P) (event : StoredEvent Decoded)
      → stored_event_from_row sources e ≡ ok event
      → apply ops config sources session event ≡ ok next
      → (p : Payload) × (sources.decode e.row.event_type e.row.payload ≡ some (of_experience p))
        × IsProjected ops sources p (with_payload e p) session.rows next.rows
  unfolding stored_event_from_row apply
  applied-IsProjected session next e event h a =
      let (d, u, r) = >>=-eq-ok (returned (sources.decode e.row.event_type e.row.payload)) _ h in
      let a₁ : apply ops config sources session (with_payload e d) ≡ ok next =
        ap (apply ops config sources session) (ok-injective r) ∙ a in
      let (_, t, a₂) = >>=-eq-ok (checked (str_eq e.row.key.aggregate_type "experience")) _ a₁ in
      applied_decoded session next e d (returned-ok _ u) a₂

  -- It leaves to each experience the row that the reference gives.
  pub applied_row :
      (session next : Projection P) (e : StoredEvent P) (event : StoredEvent Decoded) (k : ℕ)
      → stored_event_from_row sources e ≡ ok event
      → apply ops config sources session event ≡ ok next
      → select_row k next.rows
        ≡ left_row k (select_row k session.rows) e (sources.decode e.row.event_type e.row.payload)
  unfolding snapshot_parameters
  applied_row session next e event k h a =
      let (p, d, projected) = applied-IsProjected session next e event h a in
      rw d (
        projected_row ops session.rows next.rows e p k (anchored_after ops p (decodes _ _ p d))
          projected.written)

  replay_ledger_row :
      (session last : Projection P) (es : List (StoredEvent P)) (k : ℕ)
      → replay_ledger ops config sources session es ≡ ok last
      → select_row k last.rows ≡ last_row sources.decode k (select_row k session.rows) es
  unfolding replay_ledger last_row
  replay_ledger_row session last [] k h =
      ap (λ (s : Projection P). select_row k s.rows) (sym (ok-injective h))
  replay_ledger_row session last (e ∷ es) k h =
      elim (Bool-cases (is_state_event_type e.row.event_type)) [
        | inl t ↦
            let (event, u, h₁) =
              >>=-eq-ok (stored_event_from_row sources e) _ (rw (t, replay_ledger) at h) in
            let (next, v, h₂) = >>=-eq-ok (apply ops config sources session event) _ h₁ in
            rw (t, ← applied_row session next e event k u v) (replay_ledger_row next last es k h₂)
        | inr f ↦ rw f (replay_ledger_row session last es k (rw (f, replay_ledger) at h))
      ]

  -- If the registry decodes experience events to valid payloads only, then a rebuild that succeeds
  -- leaves to every experience the row of the last state event about it in
  -- the ledger, with the state after that event and its identifier, and no other row.
  pub rebuild-last_row :
      (cached : Option (Index P)) (last : Projection P) (k : ℕ)
      → rebuild ops config sources cached ≡ ok last
      → select_row k last.rows ≡ last_row sources.decode k none sources.ledger
  unfolding rebuild select_row
  rebuild-last_row cached last k h = replay_ledger_row _ last sources.ledger k h

module _ (ops : FloatOps) (config : LifecycleConfig) {P C : Type 0}
    (decode : String → P → Option Decoded) (decodes : DecodesValid ops decode) where
  abbrev pub events_of : List (OnlineEvent P C) → List (StoredEvent P)
  events_of [] = []
  events_of (s ∷ rest) = s.event ∷ events_of rest

  -- Every session has the registry.
  abbrev pub SameRegistry : List (OnlineEvent P C) → Type 0
  SameRegistry [] = Unit
  SameRegistry (s ∷ rest) = (s.sources.decode ≡ decode) × SameRegistry rest

  online_row :
      (rows last : List Row) (steps : List (OnlineEvent P C)) (k : ℕ)
      → SameRegistry steps
      → online ops config rows steps ≡ ok last
      → select_row k last ≡ last_row decode k (select_row k rows) (events_of steps)
  unfolding online last_row
  online_row rows last [] k same h = ap (select_row k) (sym (ok-injective h))
  online_row rows last (s ∷ rest) k (d, same) h =
      elim (Bool-cases (is_state_event_type s.event.row.event_type)) [
        | inl t ↦
            let (event, u, h₁) =
              >>=-eq-ok (stored_event_from_row s.sources s.event) _ (rw (t, online) at h) in
            let (next, v, h₂) =
              >>=-eq-ok
                (apply ops config s.sources (record { rows = rows; cached = s.cached }) event) _
                h₁ in
            let valid_registry : DecodesValid ops s.sources.decode = rw d decodes in
            rw (t, last_row)
              (online_row next.rows last rest k same h₂
                ∙ ap (λ (r : Option Row). last_row decode k r (events_of rest))
                    (rw d at
                      (applied_row ops config s.sources valid_registry _ next s.event event k u v)))
        | inr f ↦ rw (f, last_row) (online_row rows last rest k same (rw (f, online) at h))
      ]

  -- If the registry, the same in all sessions, decodes experience events to valid payloads only, the
  -- events of a ledger were applied one at a time, each in its own session with what it then
  -- saw of the other tables, and a rebuild over the whole ledger succeeds, then the rebuilt table
  -- has the same row as the one kept online for every experience.
  pub online-rebuild :
      (steps : List (OnlineEvent P C)) (sources : Sources P C) (cached : Option (Index P))
      (rows : List Row) (last : Projection P) (k : ℕ)
      → SameRegistry steps
      → sources.decode ≡ decode
      → sources.ledger ≡ events_of steps
      → online ops config [] steps ≡ ok rows
      → rebuild ops config sources cached ≡ ok last
      → select_row k last.rows ≡ select_row k rows
  unfolding select_row
  online-rebuild steps sources cached rows last k same d l o r =
      rebuild-last_row ops config sources (rw d decodes) cached last k r
      ∙ rw (d, l) (sym (online_row [] rows steps k same o))
