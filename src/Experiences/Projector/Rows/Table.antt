-- ===== src/Experiences/Projector/Rows/Table.antt =====
-- What the statements do to the row of each experience, and that a row keeps its snapshot.
use mathlib.Core.Option.{some-injective}
use experience_hub.Prelude.{
  ℕ, ◌≡◌, ◌≢◌, refl, inl, inr, Bool, true, false, none, some, List, [], ◌∷◌, arith, ◌==◌, any, ok,
  not, integrity_error, ok-injective, sym, ◌∙◌, ap, ==_refl, ==→≡, Bool-cases, require, require-ok,
  >>=-eq-ok,
}
use experience_hub.Floats.{FloatOps}
use experience_hub.Experiences.State.{State, Temperature, hot, warm, cold, archived, state_valid}
use experience_hub.Experiences.Projector.Rows.{
  Row, temperature_value, temperature_named, integer_of, boolean_of, snapshot_parameters,
  snapshot_from_mapping, valid_snapshot, select_row, replace_row, count_rows, content_taken,
  row_checks, insert_row, update_row,
}

temperature_round : (t : Temperature) → temperature_named (temperature_value t) ≡ some t
unfolding temperature_named temperature_value
temperature_round hot = refl
temperature_round warm = refl
temperature_round cold = refl
temperature_round archived = refl

boolean_round : (b : Bool) → boolean_of (integer_of b) ≡ some b
unfolding boolean_of integer_of
boolean_round true = refl
boolean_round false = refl

-- A valid snapshot is read back from the row that it is stored as.
pub snapshot_round :
    (ops : FloatOps) (s : State) (event_id : ℕ)
    → state_valid ops s ≡ true
    → snapshot_from_mapping ops (snapshot_parameters s event_id) ≡ ok s
unfolding snapshot_from_mapping valid_snapshot snapshot_parameters
snapshot_round ops s event_id v =
    ground (arith, temperature_round s.temperature, boolean_round s.pinned)

-- The row of an experience.
pub selected_id :
    (k : ℕ) (rows : List Row) (r : Row) → select_row k rows ≡ some r → r.experience_id ≡ k
unfolding select_row
selected_id k [] r h = cc
selected_id k (x ∷ rows) r h = ground (arith, selected_id k rows r)

pub select-replace_same :
    (new : Row) (rows : List Row) (r : Row)
    → select_row new.experience_id rows ≡ some r
    → select_row new.experience_id (replace_row new rows) ≡ some new
unfolding select_row replace_row
select-replace_same new [] r h = cc
select-replace_same new (x ∷ rows) r h = ground (arith, select-replace_same new rows r)

pub select-replace_other :
    (new : Row) (rows : List Row) (k : ℕ)
    → (new.experience_id == k) ≡ false
    → select_row k (replace_row new rows) ≡ select_row k rows
unfolding select_row replace_row
select-replace_other new [] k h = refl
select-replace_other new (x ∷ rows) k h = ground (arith, select-replace_other new rows k h)

absent :
    (k : ℕ) (rows : List Row)
    → any (λ (r : Row). r.experience_id == k) rows ≡ false
    → select_row k rows ≡ none
unfolding select_row
absent k [] h = refl
absent k (x ∷ rows) h = ground (arith, absent k rows)

-- The content of a row that was stored is not that of another row of the owner.
pub not_taken :
    (new : Row) (rows : List Row) (k : ℕ) (r : Row)
    → content_taken new rows ≡ false
    → select_row k rows ≡ some r
    → (k == new.experience_id) ≡ false
    → r.owner_agent_id ≡ new.owner_agent_id
    → r.current_content_hash ≢ new.current_content_hash
unfolding select_row content_taken
not_taken new [] k r t h n e c = cc
not_taken new (x ∷ rows) k r t h n e c = ground (
  arith,
  λ (u : content_taken new rows ≡ false) (v : select_row k rows ≡ some r).
      not_taken new rows k r u v n e c,
)

-- The rows keep each content of an owner for one experience.
abbrev pub Unique : List Row → Type 0
Unique rows =
    (j k : ℕ) (q r : Row)
    → select_row j rows ≡ some q
    → select_row k rows ≡ some r
    → q.owner_agent_id ≡ r.owner_agent_id
    → q.current_content_hash ≡ r.current_content_hash
    → j ≡ k

not-true : (b : Bool) → not b ≡ true → b ≡ false
not-true b h = ground arith

new_first : (new : Row) (rows : List Row) → select_row new.experience_id (new ∷ rows) ≡ some new
unfolding select_row
new_first new rows = ground (arith, ==_refl new.experience_id)

first_other :
    (new : Row) (rows : List Row) (k : ℕ)
    → (new.experience_id == k) ≡ false
    → select_row k (new ∷ rows) ≡ select_row k rows
unfolding select_row
first_other new rows k h = ground (arith, h)

-- The table `after` holds the row `new` and otherwise what the table `rows` holds.
pub record IsStored (ops : FloatOps) (new : Row) (rows after : List Row) : Type 0 where
  pub stored : select_row new.experience_id after ≡ some new
  pub others : (k : ℕ) → (new.experience_id == k) ≡ false → select_row k after ≡ select_row k rows
  pub free : content_taken new rows ≡ false
  pub checked : row_checks ops new ≡ true

pub insert-IsStored :
    (ops : FloatOps) (new : Row) (rows : List Row) {after : List Row}
    → insert_row ops new rows ≡ ok after
    → IsStored ops new rows after × (select_row new.experience_id rows ≡ none)
unfolding insert_row
insert-IsStored ops new rows h =
    let (_, c, h₁) = >>=-eq-ok (require (row_checks ops new) integrity_error) _ h in
    let (_, d, h₂) =
      >>=-eq-ok
        (require (not (any (λ (r : Row). r.experience_id == new.experience_id) rows))
          integrity_error)
        _ h₁ in
    let (_, f, e) = >>=-eq-ok (require (not (content_taken new rows)) integrity_error) _ h₂ in
    let gone : select_row new.experience_id rows ≡ none =
      absent new.experience_id rows (not-true _ (require-ok _ _ d)) in
    (
      rw (← ok-injective e) (record {
        stored = new_first new rows;
        others = first_other new rows;
        free = not-true _ (require-ok _ _ f);
        checked = require-ok _ _ c;
      }),
      gone,
    )

pub update-IsStored :
    (ops : FloatOps) (new : Row) (rows : List Row) (r : Row) (after : List Row) (n : ℕ)
    → select_row new.experience_id rows ≡ some r
    → update_row ops new rows ≡ ok (after, n)
    → (n == 1) ≡ true
    → IsStored ops new rows after
unfolding update_row
update-IsStored ops new rows r after n s h one =
    elim (Bool-cases (count_rows new.experience_id rows == 0)) [
      | inl z ↦
          let none_of : 0 ≡ n = ap (λ (p : List Row × ℕ). p.1) (ok-injective (rw z at h)) in
          absurd (omega (arith, ==→≡ n 1 one))
      | inr z ↦
          let (_, c, h₁) = >>=-eq-ok (require (row_checks ops new) integrity_error) _ (rw z at h) in
          let (_, f, e) = >>=-eq-ok (require (not (content_taken new rows)) integrity_error) _ h₁ in
          let same : replace_row new rows ≡ after =
            ap (λ (p : List Row × ℕ). p.0) (ok-injective e) in
          rw (← same) (record {
            stored = select-replace_same new rows r s;
            others = select-replace_other new rows;
            free = not-true _ (require-ok _ _ f);
            checked = require-ok _ _ c;
          })
    ]

==_swap : (a b : ℕ) → (b == a) ≡ false → (a == b) ≡ false
==_swap a b h = ground arith

is_new :
    (new : Row) (after : List Row) (k : ℕ) (r : Row)
    → select_row new.experience_id after ≡ some new
    → (new.experience_id == k) ≡ true
    → select_row k after ≡ some r
    → new ≡ r
is_new new after k r s e h = some-injective new r (sym s ∙ rw (==→≡ new.experience_id k e) h)

-- Another experience of the owner does not have the content that was stored.
differs :
    (ops : FloatOps) (new : Row) (rows after : List Row) (k : ℕ) (r : Row)
    → IsStored ops new rows after
    → (new.experience_id == k) ≡ false
    → select_row k after ≡ some r
    → r.owner_agent_id ≡ new.owner_agent_id
    → r.current_content_hash ≢ new.current_content_hash
differs ops new rows after k r s n h =
    not_taken new rows k r s.free (sym (s.others k n) ∙ h) (==_swap k new.experience_id n)

pub IsStored-Unique :
    (ops : FloatOps) (new : Row) (rows after : List Row)
    → Unique rows
    → IsStored ops new rows after
    → Unique after
IsStored-Unique ops new rows after u s j k q r hq hr o c =
    elim (Bool-cases (new.experience_id == j)) [
      | inl a ↦ elim (Bool-cases (new.experience_id == k)) [
        | inl b ↦ omega (arith, ==→≡ new.experience_id j a, ==→≡ new.experience_id k b)
        | inr b ↦
            let e : new ≡ q = is_new new after j q s.stored a hq in
            absurd (differs ops new rows after k r s b hr (rw e (sym o)) (rw e (sym c)))
      ]
      | inr a ↦ elim (Bool-cases (new.experience_id == k)) [
        | inl b ↦
            let e : new ≡ r = is_new new after k r s.stored b hr in
            absurd (differs ops new rows after j q s a hq (rw e o) (rw e c))
        | inr b ↦ u j k q r (sym (s.others j a) ∙ hq) (sym (s.others k b) ∙ hr) o c
      ]
    ]
