-- ===== src/Storage/EventStore/Numbering.antt =====
-- The sequences of an aggregate are 1, 2, 3, … in the order of the rows.
use experience_hub.Prelude.{
  ℕ, suc, ◌+◌, ◌≡◌, refl, sym, ap, ◌∙◌, Bool, true, none, some, List, [], ◌∷◌, ◌++◌, arith, max,
  length, if◌then◌else◌, ◌⊎◌, inl, inr, Bool-cases, ok, require, value_error, runtime_error, any,
  ◌==◌, >>=-eq-ok, ok-injective,
}
use text.Mathlib.TextEquality.{eq_iff}
use text.Mathlib.TextPositions.{eq_refl}
use mathlib.Core.List.{append-nil, append_assoc}
use experience_hub.Experiences.Events.Pending.{PendingEvent}
use experience_hub.Storage.EventStore.{
  Key, key_eq, key_of, EventRow, EventLog, StoredEvent, max_sequence, next_sequence, or_zero,
  sequence_for, PayloadClasses, event_registered, row_of, allocate, with_ids, append,
}

key_eq_refl : (k : Key) → key_eq k k ≡ true
unfolding key_eq
key_eq_refl k = ground (arith, eq_refl k.aggregate_type)

key_eq→≡ : (a b : Key) → key_eq a b ≡ true → a ≡ b
unfolding key_eq
key_eq→≡ a b h = ground (arith, eq_iff a.aggregate_type b.aggregate_type)

module _ {P : Type 0} where
  -- How many rows an aggregate has.
  unfoldable pub count : Key → List (EventRow P) → ℕ
  count k [] = 0
  count k (r ∷ rs) = let rest : ℕ = count k rs in if key_eq r.key k then suc rest else rest

  -- Each row after the prefix has the number of its aggregate's rows before it, plus one.
  abbrev pub NumberedAfter : List (EventRow P) → List (EventRow P) → Type 0
  NumberedAfter prefix [] = Unit
  NumberedAfter prefix (r ∷ rs) =
      (r.sequence ≡ count r.key prefix + 1) × NumberedAfter (prefix ++ r ∷ []) rs

  count-append :
      (k : Key) (xs ys : List (EventRow P)) → count k (xs ++ ys) ≡ count k xs + count k ys
  unfolding count
  count-append k [] ys = omega arith
  count-append k (x ∷ xs) ys = ground (arith, count-append k xs ys)

  -- The greatest sequence of a numbered log is the number of rows.
  max-numbered :
      (k : Key) (prefix rs : List (EventRow P))
      → NumberedAfter prefix rs
      → max (count k prefix) (or_zero (max_sequence k rs)) ≡ count k prefix + count k rs
  unfolding max_sequence count
  max-numbered k prefix [] h = omega arith
  max-numbered k prefix (r ∷ rs) h =
      let ih = max-numbered k (prefix ++ r ∷ []) rs h.1 in
      elim (Bool-cases (key_eq r.key k)) [
        | inl e ↦ ground (
          arith,
          ih,
          count-append k prefix (r ∷ []),
          ap (λ (j : Key). count j prefix) (key_eq→≡ r.key k e),
        )
        | inr n ↦ ground (arith, ih, count-append k prefix (r ∷ []))
      ]

  NumberedAfter-append :
      (prefix xs ys : List (EventRow P))
      → NumberedAfter prefix xs
      → NumberedAfter (prefix ++ xs) ys
      → NumberedAfter prefix (xs ++ ys)
  NumberedAfter-append prefix [] ys hx hy = rw append-nil at hy
  NumberedAfter-append prefix (x ∷ xs) ys hx hy =
      (hx.0, NumberedAfter-append (prefix ++ x ∷ []) xs ys hx.1 (rw append_assoc hy))

  -- What the loop keeps for an aggregate: nothing, before its first event, and then the sequence
  -- that follows its rows.
  abbrev Ready : List (EventRow P) → List (EventRow P) → List (Key × ℕ) → Key → Type 0
  Ready rows emitted next k =
      (next_sequence k next ≡ none) × (count k emitted ≡ 0)
      ⊎ (next_sequence k next ≡ some (count k (rows ++ emitted) + 1))

  sequence_for-Ready :
      (rows emitted : List (EventRow P)) (next : List (Key × ℕ)) (k : Key)
      → NumberedAfter [] rows
      → Ready rows emitted next k
      → sequence_for rows k (next_sequence k next) ≡ count k (rows ++ emitted) + 1
  unfolding sequence_for count
  sequence_for-Ready rows emitted next k h (inl (n, z)) =
      rw n (omega (arith, max-numbered k [] rows h, count-append k rows emitted))
  sequence_for-Ready rows emitted next k h (inr e) = rw e

  Ready-step :
      (rows emitted : List (EventRow P)) (next : List (Key × ℕ)) (r : EventRow P)
      → r.sequence ≡ count r.key (rows ++ emitted) + 1
      → ((k : Key) → Ready rows emitted next k)
      → (k : Key) → Ready rows (emitted ++ r ∷ []) ((r.key, r.sequence + 1) ∷ next) k
  unfolding next_sequence count
  Ready-step rows emitted next r e ready k =
      let more = count-append k emitted (r ∷ []) in
      let total = count-append k rows (emitted ++ r ∷ []) in
      let before = count-append k rows emitted in
      elim (Bool-cases (key_eq r.key k)) [
        | inl same ↦
            let key : count r.key (rows ++ emitted) ≡ count k (rows ++ emitted) =
              ap (λ (j : Key). count j (rows ++ emitted)) (key_eq→≡ r.key k same) in
            inr (rw same (ap some (ground (arith, more, total, before, key, e))))
        | inr other ↦ elim (ready k) [
          | inl (n, z) ↦ inl (rw other n, ground (arith, more))
          | inr n ↦ inr (rw other (n ∙ ap some (ground (arith, more, total, before))))
        ]
      ]

  -- The rows stand for the events, in their order.
  abbrev pub Records : ℕ → List (PendingEvent P) → List (EventRow P) → Type 0
  Records c [] [] = Unit
  Records c (e ∷ es) (r ∷ rs) = (r ≡ row_of c r.sequence e) × Records c es rs
  Records c _ _ = ⊥

module _ {P : Type 0} (classes : PayloadClasses P) where
  allocate-cons :
      (c : ℕ) (rows : List (EventRow P)) (next : List (Key × ℕ)) (e : PendingEvent P)
      (es : List (PendingEvent P)) (new : List (EventRow P))
      → allocate classes c rows next (e ∷ es) ≡ ok new
      → let n = sequence_for rows (key_of e) (next_sequence (key_of e) next) in
        (later : List (EventRow P)) × (allocate classes c rows ((key_of e, n + 1) ∷ next) es
          ≡ ok later)
        × (new ≡ row_of c n e ∷ later)
  unfolding allocate
  allocate-cons c rows next e es new a = elim (Bool-cases (event_registered classes e)) [
    | inl y ↦
        let n : ℕ = sequence_for rows (key_of e) (next_sequence (key_of e) next) in
        let (later, x, z) =
          >>=-eq-ok (allocate classes c rows ((key_of e, n + 1) ∷ next) es)
            (λ later. ok (row_of c n e ∷ later)) (rw y at a) in
        (later, x, sym (ok-injective z))
    | inr n ↦ cc (rw n at a)
  ]

  allocate_lem :
      (c : ℕ) (rows emitted : List (EventRow P)) (next : List (Key × ℕ))
      (es : List (PendingEvent P)) (new : List (EventRow P))
      → NumberedAfter [] rows
      → ((k : Key) → Ready rows emitted next k)
      → allocate classes c rows next es ≡ ok new
      → NumberedAfter (rows ++ emitted) new × Records c es new
  allocate_lem c rows emitted next [] new h ready a =
      let e : [] ≡ new = ok-injective (unfold allocate in a) in rw (← e) (tt, tt)
  allocate_lem c rows emitted next (e ∷ es) new h ready a =
      let n : ℕ = sequence_for rows (key_of e) (next_sequence (key_of e) next) in
      let (later, x, z) = allocate-cons c rows next e es new a in
      let r : EventRow P = row_of c n e in
      let number : n ≡ count (key_of e) (rows ++ emitted) + 1 =
        sequence_for-Ready rows emitted next (key_of e) h (ready (key_of e)) in
      let (numbered, recorded) =
        allocate_lem c rows (emitted ++ r ∷ []) ((key_of e, n + 1) ∷ next) es later h
          (Ready-step rows emitted next r number ready) x in
      rw z ((number, rw append_assoc numbered), (refl, recorded))

  -- An append that succeeds to a log whose rows are numbered keeps every stored row, adds one row
  -- for each event in the order given, and leaves the rows numbered: each aggregate's sequences are
  -- 1, 2, 3, … in the order of the rows, without a gap.
  pub append-Numbered :
      (log log' : EventLog P) (c : ℕ) (es : List (PendingEvent P)) (immediate : Bool)
      (stored : List (StoredEvent P))
      → NumberedAfter [] log.rows
      → append classes log c es immediate ≡ ok (log', stored)
      → (new : List (EventRow P)) × (log'.rows ≡ log.rows ++ new)
        × (stored ≡ with_ids (length log.rows + 1) new)
        × Records c es new
        × NumberedAfter [] log'.rows
  unfolding append next_sequence count
  append-Numbered log log' c es immediate stored h a =
      let (u, x, a₁) = >>=-eq-ok (require immediate runtime_error) _ a in
      let (v, y, a₂) = >>=-eq-ok (require (any (λ r. r == c) log.receipts) value_error) _ a₁ in
      let (new, z, last) = >>=-eq-ok (allocate classes c log.rows [] es) _ a₂ in
      let done = ok-injective last in
      let rows : log.rows ++ new ≡ log'.rows =
        ap (λ (p : EventLog P × List (StoredEvent P)). p.0.rows) done in
      let (numbered, recorded) = allocate_lem c log.rows [] [] es new h (λ k. inl (refl, refl)) z in
      (
        new,
        sym rows,
        sym (ap (λ (p : EventLog P × List (StoredEvent P)). p.1) done),
        recorded,
        rw (← rows) (NumberedAfter-append [] log.rows new h (rw append-nil at numbered)),
      )
