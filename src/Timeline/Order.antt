-- ===== src/Timeline/Order.antt =====
-- src/attacks/attack_suite.py: the laws of the sort by time.
use mathlib.Core.List.{Perm}
use mathlib.Core.List.Perm
use can_sentinental.Prelude.{
  ◌+◌, ◌≡◌, refl, true, false, List, [], ◌∷◌, length, arith, All, Bool-cases, inl, inr,
}
use can_sentinental.Floats.{FloatOps}
use can_sentinental.Timeline.{Event, insert_event, sort_events}

module _ {F : Type 0} ⦃fl : FloatOps F⦄ where
  -- The first of the events is not before the time.
  abbrev pub IsSince : F → List (Event F) → Type 0
  IsSince t [] = Unit
  IsSince t (e ∷ es) = fl.lt e.0 t ≡ false

  -- No event is later than the next.
  abbrev pub IsChronological : List (Event F) → Type 0
  IsChronological [] = Unit
  IsChronological (e ∷ es) = IsSince e.0 es × IsChronological es

  insert_event-perm : (e : Event F) (es : List (Event F)) → Perm (insert_event e es) (e ∷ es)
  unfolding insert_event
  insert_event-perm e [] = Perm.rfl
  insert_event-perm e (d ∷ ds) = elim (Bool-cases (fl.lt d.0 e.0)) [
    | inl later ↦
        rw (later, insert_event)
          (Perm.trans (Perm.cons d (insert_event-perm e ds)) (Perm.swap e d ds))
    | inr here ↦ rw (here, insert_event) Perm.rfl
  ]

  pub sort_events-perm : (es : List (Event F)) → Perm (sort_events es) es
  unfolding sort_events
  sort_events-perm [] = Perm.rfl
  sort_events-perm (e ∷ es) =
      Perm.trans (insert_event-perm e (sort_events es)) (Perm.cons e (sort_events-perm es))

  module _ (asym : (a b : F) → fl.lt a b ≡ true → fl.lt b a ≡ false) where
    insert_event-IsSince :
        (t : F) (e : Event F) (es : List (Event F))
        → fl.lt t e.0 ≡ true
        → IsSince t es
        → IsSince t (insert_event e es)
    unfolding insert_event
    insert_event-IsSince t e [] later h = asym t e.0 later
    insert_event-IsSince t e (d ∷ ds) later h = elim (Bool-cases (fl.lt d.0 e.0)) [
      | inl first ↦ rw (first, insert_event) h
      | inr here ↦ rw (here, insert_event) (asym t e.0 later)
    ]

    insert_event-IsChronological :
        (e : Event F) (es : List (Event F))
        → IsChronological es
        → IsChronological (insert_event e es)
    unfolding insert_event
    insert_event-IsChronological e [] h = (tt, tt)
    insert_event-IsChronological e (d ∷ ds) h =
        let rest = insert_event-IsChronological e ds h.1 in
        elim (Bool-cases (fl.lt d.0 e.0)) [
          | inl later ↦ rw (later, insert_event) (insert_event-IsSince d.0 e ds later h.0, rest)
          | inr here ↦ rw (here, insert_event) (here, h)
        ]

    pub sort_events-IsChronological : (es : List (Event F)) → IsChronological (sort_events es)
    unfolding sort_events
    sort_events-IsChronological [] = tt
    sort_events-IsChronological (e ∷ es) =
        insert_event-IsChronological e (sort_events es) (sort_events-IsChronological es)

  -- An event stands at the time of its frame.
  abbrev pub IsTimed : Event F → Type 0
  IsTimed e = e.1.timestamp ≡ e.0

  insert_event-IsTimed :
      (e : Event F) (es : List (Event F))
      → IsTimed e
      → All IsTimed es
      → All IsTimed (insert_event e es)
  unfolding insert_event
  insert_event-IsTimed e [] t h = (t, tt)
  insert_event-IsTimed e (d ∷ ds) t h = elim (Bool-cases (fl.lt d.0 e.0)) [
    | inl later ↦ rw (later, insert_event) (h.0, insert_event-IsTimed e ds t h.1)
    | inr here ↦ rw (here, insert_event) (t, h)
  ]

  pub sort_events-IsTimed : (es : List (Event F)) → All IsTimed es → All IsTimed (sort_events es)
  unfolding sort_events
  sort_events-IsTimed [] h = tt
  sort_events-IsTimed (e ∷ es) h =
      insert_event-IsTimed e (sort_events es) h.0 (sort_events-IsTimed es h.1)

  length-insert_event :
      (e : Event F) (es : List (Event F)) → length (insert_event e es) ≡ length es + 1
  unfolding insert_event
  length-insert_event e [] = refl
  length-insert_event e (d ∷ ds) = elim (Bool-cases (fl.lt d.0 e.0)) [
    | inl later ↦ rw (later, insert_event) (omega (arith, length-insert_event e ds))
    | inr here ↦ rw (here, insert_event) (omega arith)
  ]

  pub length-sort_events : (es : List (Event F)) → length (sort_events es) ≡ length es
  unfolding sort_events
  length-sort_events [] = refl
  length-sort_events (e ∷ es) =
      omega (arith, length-insert_event e (sort_events es), length-sort_events es)
