-- ===== src/Experiences/Projector/Effect.antt =====
-- What one event does to the projection.
use mathlib.Core.Option.{some-injective, some-ne-none}
use text.Mathlib.Text.{◌==◌ as str_eq}
use experience_hub.Prelude.{
  ℕ, ◌+◌, ◌<◌, ◌≡◌, refl, sym, ◌∙◌, ap, Bool, true, Option, none, some, List, ◌==◌, arith, ok,
  ok-injective, inl, inr, Option-cases, require-then, require-ok, ◌&&◌, ltb, leb, >>=-eq-ok,
}
use experience_hub.Floats.{FloatOps}
use experience_hub.Scoring.{LifecycleConfig}
use experience_hub.Experiences.State.{State, state_eq}
use experience_hub.Experiences.State.Fields.{state_eq→≡}
use experience_hub.Experiences.Events.{
  Payload, created, version_created, accessed, reactivated, temperature_changed,
  lifecycle_evaluated, confirmed, refuted, corroborated, pinned, unpinned, archived_event, restored,
}
use experience_hub.Experiences.Events.Pending.{event_type}
use experience_hub.Experiences.Events.Valid.{
  valid, before, after, anchored, state_event_valid, temperature_change_valid, access_valid,
}
use experience_hub.Storage.EventStore.{StoredEvent}
use experience_hub.Experiences.Projector.Rows.{
  Row, select_row, snapshot_parameters, snapshot_from_mapping, update_row,
}
use experience_hub.Experiences.Projector.Rows.Table.{IsStored, insert-IsStored, update-IsStored}
use experience_hub.Experiences.Projector.Sources.{
  Sources, experience_of, event_at, is_state_event_type, found, found-ok, load_source_anchors,
  checked,
}
use experience_hub.Experiences.Projector.Context.{
  StateContext, current_snapshot, store_state_event, state_event_context, prior_checkpoint,
}
use experience_hub.Experiences.Projector.Source.{
  apply_created, apply_version, created_checks, superseded_version, version_effect_checks,
}
use experience_hub.Experiences.Projector.Apply.{
  Projection, apply_payload, apply_state_event, state_checks,
}

-- The state after a valid payload is one of the experience that the payload names.
pub anchored_after :
    (ops : FloatOps) (p : Payload) → valid ops p ≡ true → (after p).experience_id ≡ experience_of p
unfolding valid after experience_of anchored state_event_valid temperature_change_valid access_valid
anchored_after ops p v = ground arith

module _ (ops : FloatOps) where
  current_row :
      (rows : List Row) (k : ℕ) (s : State) (id : ℕ)
      → current_snapshot ops rows k ≡ ok (some (s, id))
      → (r : Row) × (select_row k rows ≡ some r)
        × (snapshot_from_mapping ops r ≡ ok s)
        × (r.projection_event_id ≡ id)
  unfolding current_snapshot
  current_row rows k s id h = elim (Option-cases (select_row k rows)) [
    | inl e ↦ absurd (some-ne-none _ (sym (ok-injective (rw (e, current_snapshot) at h))))
    | inr (r, e) ↦
        let (t, u, v) = >>=-eq-ok (snapshot_from_mapping ops r) _ (rw (e, current_snapshot) at h) in
        let pair : (t, r.projection_event_id) ≡ (s, id) = some-injective _ _ (ok-injective v) in
        (r, e, u ∙ ap (λ (q : State × ℕ). ok q.0) pair, ap (λ (q : State × ℕ). q.1) pair)
  ]

  store-IsStored :
      (rows stored : List Row) (event : StoredEvent Payload) (a : State) (k : ℕ) (r : Row)
      → a.experience_id ≡ k
      → select_row k rows ≡ some r
      → store_state_event ops rows event a ≡ ok stored
      → IsStored ops (snapshot_parameters a event.event_id) rows stored
  unfolding store_state_event snapshot_parameters
  store-IsStored rows stored event a k r n s h =
      let (updated, u, h₁) =
        >>=-eq-ok (update_row ops (snapshot_parameters a event.event_id) rows) _ h in
      let (c, e) = require-then (updated.1 == 1) _ _ h₁ in
      rw (← ok-injective e) (
        update-IsStored ops (snapshot_parameters a event.event_id) rows r updated.0 updated.1
          (rw n s) u c)

  module _ {P C : Type 0} (sources : Sources P C) where
    -- The event before `event` of an experience, from which its current row comes.
    pub record Follows (rows : List Row) (event : StoredEvent Payload) (experience_id : ℕ)
        (b : State) : Type 0 where
      pub row : Row
      pub prior : StoredEvent P
      pub current : select_row experience_id rows ≡ some row
      pub state : snapshot_from_mapping ops row ≡ ok b
      pub checkpoint : event_at row.projection_event_id sources.ledger ≡ some prior
      pub sequence : prior.row.sequence + 1 ≡ event.row.sequence
      pub earlier : prior.event_id < event.event_id

    prior-Follows :
        (rows : List Row) (event : StoredEvent Payload) (k : ℕ) (b s : State) (id : ℕ)
        (q : StoredEvent P)
        → current_snapshot ops rows k ≡ ok (some (s, id))
        → state_eq s b ≡ true
        → prior_checkpoint sources event k id ≡ ok q
        → Follows rows event k b
    unfolding prior_checkpoint
    prior-Follows rows event k b s id q h same c =
        let (r, e, v, n) = current_row rows k s id h in
        let (prior, u, c₁) = >>=-eq-ok (found (event_at id sources.ledger)) _ c in
        let fits : Bool =
          str_eq prior.row.key.aggregate_type "experience"
          && prior.row.key.aggregate_id == k
          && is_state_event_type prior.row.event_type
          && prior.row.sequence + 1 == event.row.sequence
          && ltb prior.event_id event.event_id in
        let (_, t, _) = >>=-eq-ok (checked fits) _ c₁ in
        let holds : fits ≡ true = require-ok fits _ t in
        record {
          row = r;
          prior = prior;
          current = e;
          state = rw (← state_eq→≡ s b same) v;
          checkpoint = rw n (found-ok _ u);
          sequence = ground arith;
          earlier = ground arith;
        }

    context-Follows :
        (rows : List Row) (event : StoredEvent Payload) (k : ℕ) (b : State) (c : StateContext P)
        → state_event_context ops sources rows event k b ≡ ok c
        → Follows rows event k b
    unfolding state_event_context
    context-Follows rows event k b c h =
        let (t, h₁) = require-then _ _ _ h in
        let (present, u, h₂) = >>=-eq-ok (current_snapshot ops rows k) _ h₁ in
        let ((s, id), v, h₃) = >>=-eq-ok (found present) _ h₂ in
        let (same, h₄) = require-then _ _ _ h₃ in
        let (identity, w, h₅) = >>=-eq-ok (found (sources.identity k)) _ h₄ in
        let (version, x, h₆) = >>=-eq-ok (found (sources.version b.current_version_id)) _ h₅ in
        let (y, h₇) = require-then _ _ _ h₆ in
        let (prior, z, h₈) = >>=-eq-ok (prior_checkpoint sources event k id) _ h₇ in
        prior-Follows rows event k b s id prior (u ∙ ap ok (found-ok present v)) same z

    -- A payload without `before` opens an experience; every other one follows its current row.
    unfoldable pub Preceded : List Row → StoredEvent Payload → ℕ → Option State → Type 0
    Preceded rows event k none = (select_row k rows ≡ none) × (event.row.sequence ≡ 1)
    Preceded rows event k (some b) = Follows rows event k b

    -- The event's payload was projected from `rows` to `projected`.
    pub record IsProjected (p : Payload) (event : StoredEvent Payload) (rows projected : List Row)
        : Type 0 where
      pub preceded : Preceded rows event (experience_of p) (before p)
      pub written : IsStored ops (snapshot_parameters (after p) event.event_id) rows projected

    module _ (config : LifecycleConfig) where
      created_first :
          (event : StoredEvent Payload) (id version_id : ℕ) (a : State) {u : Unit {0}}
          → created_checks ops config sources event id version_id a ≡ ok u
          → event.row.sequence ≡ 1
      unfolding created_checks
      created_first event id version_id a h =
          let opens : Bool =
            str_eq event.row.event_type "experience.created"
            && event.row.key.aggregate_id == id
            && event.row.sequence == 1 in
          let (u, t, _) = >>=-eq-ok (checked opens) _ h in
          let holds : opens ≡ true = require-ok opens _ t in ground arith

      created-Projected :
          (rows projected : List Row) (event : StoredEvent Payload) (id version_id : ℕ) (a : State)
          → a.experience_id ≡ id
          → apply_created ops config sources rows event id version_id a ≡ ok projected
          → IsStored ops (snapshot_parameters a event.event_id) rows projected
            × (select_row id rows ≡ none)
            × (event.row.sequence ≡ 1)
      unfolding apply_created snapshot_parameters
      created-Projected rows projected event id version_id a n h =
          let (u, c, h₁) =
            >>=-eq-ok (created_checks ops config sources event id version_id a) _ h in
          let (present, v, h₂) = >>=-eq-ok (current_snapshot ops rows id) _ h₁ in
          let (w, h₃) = require-then _ _ _ h₂ in
          let (stored, gone) = insert-IsStored ops (snapshot_parameters a event.event_id) rows h₃ in
          (stored, rw n at gone, created_first event id version_id a c)

      version-Projected :
          (rows projected : List Row) (event : StoredEvent Payload) (id version_id number : ℕ)
          (supersedes : Option ℕ) (b a : State)
          → a.experience_id ≡ id
          → apply_version ops config sources rows event id version_id number supersedes b a
            ≡ ok projected
          → Follows rows event id b
            × IsStored ops (snapshot_parameters a event.event_id) rows projected
      unfolding apply_version
      version-Projected rows projected event id version_id number supersedes b a n h =
          let (_, t₁, h₁) =
            >>=-eq-ok
              (checked (
                str_eq event.row.event_type "experience.version_created"
                && event.row.key.aggregate_id == id
                && leb 2 event.row.sequence))
              _ h in
          let (t₂, h₂) = require-then _ _ _ h₁ in
          let ((identity, version, content), u, h₃) =
            >>=-eq-ok (load_source_anchors sources event id version_id) _ h₂ in
          let (t₃, h₄) = require-then _ _ _ h₃ in
          let (superseded, v, h₅) =
            >>=-eq-ok (superseded_version ops config sources id number supersedes b) _ h₄ in
          let (present, w, h₆) = >>=-eq-ok (current_snapshot ops rows id) _ h₅ in
          let ((s, prior_id), x, h₇) = >>=-eq-ok (found present) _ h₆ in
          let (same, h₈) = require-then _ _ _ h₇ in
          let (prior, y, h₉) = >>=-eq-ok (prior_checkpoint sources event id prior_id) _ h₈ in
          let (_, z, last) =
            >>=-eq-ok
              (version_effect_checks ops config sources event identity prior superseded number
                version_id supersedes b a)
              _ h₉ in
          let follows =
            prior-Follows rows event id b s prior_id prior (w ∙ ap ok (found-ok present x)) same
              y in
          (follows, store-IsStored rows projected event a id follows.row n follows.current last)

      state_event-Projected :
          (session next : Projection P) (event : StoredEvent Payload) (p : Payload) (b a : State)
          → a.experience_id ≡ experience_of p
          → apply_state_event ops config sources session event p b a ≡ ok next
          → Follows session.rows event (experience_of p) b
            × IsStored ops (snapshot_parameters a event.event_id) session.rows next.rows
      unfolding apply_state_event
      state_event-Projected session next event p b a n h =
          let (_, t₁, h₁) = >>=-eq-ok (checked (str_eq event.row.event_type (event_type p))) _ h in
          let (t₂, h₂) = require-then _ _ _ h₁ in
          let (context, u, h₃) =
            >>=-eq-ok (state_event_context ops sources session.rows event (experience_of p) b) _
              h₂ in
          let (cached, v, h₄) =
            >>=-eq-ok (state_checks ops config sources session.cached event context p) _ h₃ in
          let (rows, w, e) = >>=-eq-ok (store_state_event ops session.rows event a) _ h₄ in
          let follows = context-Follows session.rows event (experience_of p) b context u in
          let same : rows ≡ next.rows = ap (λ (s : Projection P). s.rows) (ok-injective e) in
          (
            follows,
            store-IsStored session.rows next.rows event a (experience_of p) follows.row n
                follows.current (w ∙ ap ok same),
          )

      of_state_event :
          (session next : Projection P) (event : StoredEvent Payload) (p : Payload) (b a : State)
          → before p ≡ some b
          → after p ≡ a
          → (after p).experience_id ≡ experience_of p
          → apply_state_event ops config sources session event p b a ≡ ok next
          → IsProjected p event session.rows next.rows
      unfolding Preceded
      of_state_event session next event p b a eb ea n h =
          let (follows, stored) = state_event-Projected session next event p b a (rw ea at n) h in
          record { preceded = rw eb follows; written = rw ea stored }

      -- An event of a valid payload that the projector applies.
      pub payload-IsProjected :
          (session next : Projection P) (event : StoredEvent Payload) (p : Payload)
          → valid ops p ≡ true
          → apply_payload ops config sources session event p ≡ ok next
          → IsProjected p event session.rows next.rows
      unfolding apply_payload before after experience_of Preceded
      payload-IsProjected session next event (created id version_id a) v h =
          let (rows, u, e) =
            >>=-eq-ok (apply_created ops config sources session.rows event id version_id a) _ h in
          let same : rows ≡ next.rows = ap (λ (s : Projection P). s.rows) (ok-injective e) in
          let (stored, gone, number) =
            created-Projected session.rows rows event id version_id a
              (anchored_after ops (created id version_id a) v) u in
          record { preceded = (gone, number); written = rw same at stored }
      payload-IsProjected session next event
            (version_created id version_id number supersedes links b a) v h =
          let (rows, u, e) =
            >>=-eq-ok
              (apply_version ops config sources session.rows event id version_id number supersedes b
                a)
              _ h in
          let same : rows ≡ next.rows = ap (λ (s : Projection P). s.rows) (ok-injective e) in
          let (follows, stored) =
            version-Projected session.rows rows event id version_id number supersedes b a
              (anchored_after ops (version_created id version_id number supersedes links b a) v)
              u in
          record { preceded = follows; written = rw same at stored }
      payload-IsProjected session next event (accessed id version_id b a) v h =
          of_state_event session next event (accessed id version_id b a) b a refl refl
            (anchored_after ops (accessed id version_id b a) v) h
      payload-IsProjected session next event (reactivated id query_hash mode signal b a) v h =
          of_state_event session next event (reactivated id query_hash mode signal b a) b a refl
            refl (anchored_after ops (reactivated id query_hash mode signal b a) v) h
      payload-IsProjected session next event (temperature_changed id cause cycle_id b a) v h =
          of_state_event session next event (temperature_changed id cause cycle_id b a) b a refl
            refl (anchored_after ops (temperature_changed id cause cycle_id b a) v) h
      payload-IsProjected session next event (lifecycle_evaluated id cycle_id evaluated_at goal b a)
            v h =
          of_state_event session next event (lifecycle_evaluated id cycle_id evaluated_at goal b a)
            b a refl refl
            (anchored_after ops (lifecycle_evaluated id cycle_id evaluated_at goal b a) v) h
      payload-IsProjected session next event (confirmed id reason evidence b a) v h =
          of_state_event session next event (confirmed id reason evidence b a) b a refl refl
            (anchored_after ops (confirmed id reason evidence b a) v) h
      payload-IsProjected session next event (refuted id reason evidence b a) v h =
          of_state_event session next event (refuted id reason evidence b a) b a refl refl
            (anchored_after ops (refuted id reason evidence b a) v) h
      payload-IsProjected session next event (corroborated id adoption_id capsule_id root trust b a)
            v h =
          of_state_event session next event (corroborated id adoption_id capsule_id root trust b a)
            b a refl refl
            (anchored_after ops (corroborated id adoption_id capsule_id root trust b a) v) h
      payload-IsProjected session next event (pinned id reason b a) v h =
          of_state_event session next event (pinned id reason b a) b a refl refl
            (anchored_after ops (pinned id reason b a) v) h
      payload-IsProjected session next event (unpinned id reason b a) v h =
          of_state_event session next event (unpinned id reason b a) b a refl refl
            (anchored_after ops (unpinned id reason b a) v) h
      payload-IsProjected session next event (archived_event id cycle_id reason b a) v h =
          of_state_event session next event (archived_event id cycle_id reason b a) b a refl refl
            (anchored_after ops (archived_event id cycle_id reason b a) v) h
      payload-IsProjected session next event (restored id reason b a) v h =
          of_state_event session next event (restored id reason b a) b a refl refl
            (anchored_after ops (restored id reason b a) v) h
