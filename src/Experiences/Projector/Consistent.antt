-- ===== src/Experiences/Projector/Consistent.antt =====
-- The rows of a projection are valid, and no two experiences of an owner share a content.
use experience_hub.Prelude.{
  ℕ, ◌≡◌, sym, ◌∙◌, ap, true, Option, some, List, [], ◌∷◌, arith, ◌==◌, Bool-cases, inl, inr, ok,
  ok-injective, >>=-eq-ok, ==→≡,
}
use mathlib.Core.Option.{some-injective}
use experience_hub.Floats.{FloatOps}
use experience_hub.Scoring.{LifecycleConfig}
use experience_hub.Experiences.State.{State, state_valid}
use experience_hub.Experiences.Events.Valid.{after}
use experience_hub.Storage.EventStore.{StoredEvent}
use experience_hub.Experiences.Projector.Rows.{
  Row, select_row, snapshot_parameters, snapshot_from_mapping, row_checks,
}
use experience_hub.Experiences.Projector.Rows.Table.{
  IsStored, Unique, IsStored-Unique, snapshot_round,
}
use experience_hub.Experiences.Projector.Sources.{Sources, is_state_event_type}
use experience_hub.Experiences.Projector.Provenance.{Index}
use experience_hub.Experiences.Projector.Apply.{
  Projection, apply, stored_event_from_row, replay_ledger, rebuild,
}
use experience_hub.Experiences.Projector.Replay.{DecodesValid, applied-IsProjected}

checked-state_valid :
    (ops : FloatOps) (s : State) (id : ℕ)
    → row_checks ops (snapshot_parameters s id) ≡ true
    → state_valid ops s ≡ true
unfolding row_checks snapshot_parameters state_valid
checked-state_valid ops s id h = ground arith

-- Every row is read as a valid state of its experience, and each content of an owner belongs to one
-- experience.
pub record IsConsistent (ops : FloatOps) (rows : List Row) : Type 0 where
  pub readable :
      (k : ℕ) (r : Row)
      → select_row k rows ≡ some r
      → (s : State) × (snapshot_from_mapping ops r ≡ ok s) × (s.experience_id ≡ k)
  pub unique : Unique rows

IsStored-Consistent :
    (ops : FloatOps) (s : State) (id : ℕ) (rows stored : List Row)
    → IsConsistent ops rows
    → IsStored ops (snapshot_parameters s id) rows stored
    → IsConsistent ops stored
unfolding snapshot_parameters
IsStored-Consistent ops s id rows stored c w = record {
  readable = λ k r h. elim (Bool-cases (s.experience_id == k)) [
    | inl t ↦
        let e : snapshot_parameters s id ≡ r =
          some-injective _ _
            (sym w.stored ∙ ap (λ (j : ℕ). select_row j stored) (==→≡ _ k t) ∙ h) in
        (s, rw (← e) (snapshot_round ops s id (checked-state_valid ops s id w.checked)), ==→≡ _ k t)
    | inr f ↦ c.readable k r (sym (w.others k f) ∙ h)
  ];
  unique = IsStored-Unique ops (snapshot_parameters s id) rows stored c.unique w;
}

module _ (ops : FloatOps) (config : LifecycleConfig) {P C : Type 0} (sources : Sources P C)
    (decodes : DecodesValid ops sources.decode) where
  replay_ledger-IsConsistent :
      (session last : Projection P) (es : List (StoredEvent P))
      → IsConsistent ops session.rows
      → replay_ledger ops config sources session es ≡ ok last
      → IsConsistent ops last.rows
  unfolding replay_ledger
  replay_ledger-IsConsistent session last [] c h = rw (← ok-injective h) c
  replay_ledger-IsConsistent session last (e ∷ es) c h =
      elim (Bool-cases (is_state_event_type e.row.event_type)) [
        | inl t ↦
            let (event, u, h₁) =
              >>=-eq-ok (stored_event_from_row sources e) _ (rw (t, replay_ledger) at h) in
            let (next, v, h₂) = >>=-eq-ok (apply ops config sources session event) _ h₁ in
            let (p, d, projected) =
              applied-IsProjected ops config sources decodes session next e event u v in
            replay_ledger-IsConsistent next last es
              (IsStored-Consistent ops (after p) e.event_id session.rows next.rows c
                projected.written)
              h₂
        | inr f ↦ replay_ledger-IsConsistent session last es c (rw (f, replay_ledger) at h)
      ]

  -- If the registry decodes experience events to valid payloads only, then a rebuild that succeeds
  -- leaves a table whose every row is read as a valid state of its
  -- experience, and in which no two experiences of an owner have the same content.
  pub rebuild-IsConsistent :
      (cached : Option (Index P)) (last : Projection P)
      → rebuild ops config sources cached ≡ ok last
      → IsConsistent ops last.rows
  unfolding rebuild select_row
  rebuild-IsConsistent cached last h =
      replay_ledger-IsConsistent _ last sources.ledger
        (record { readable = λ k r e. cc; unique = λ j k q r e. cc }) h
