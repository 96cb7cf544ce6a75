-- ===== src/Timeline/Dataset.antt =====
-- src/attacks/attack_suite.py: `generate_labeled_attack_dataset` on frames of the transmission.
use can_sentinental.Prelude.{
  ◌≤◌, ◌≡◌, ap, ◌∙◌, List, [], ◌∷◌, ◌++◌, length, Result, ok, raise, struct_error, ◌>>=◌, ◌⊎◌, inl,
  inr, Bool-cases,
}
use can_sentinental.Floats.{FloatOps}
use can_sentinental.Frame.{CanFrame, valid_bytes}
use can_sentinental.Ids.{can_id_transmission}
use can_sentinental.Parser.{ParsedTelemetry, observe}
use can_sentinental.Parser.Histories.{parse_frame_raises}
use can_sentinental.Logger.{
  Line, CsvTelemetryLogger, log_frame, log_parsed, append_row, labelled, new_logger, close,
}
use can_sentinental.Logger.Rows.{log_frame-parsed}
use can_sentinental.Logger.Baseline.{parse_frame-struct_error}
use can_sentinental.Sim.{total_steps}
use can_sentinental.Sim.Baseline.{generate_batch-cases}
use can_sentinental.Attacks.{Randint}
use can_sentinental.Timeline.{
  Event, normal_events, flood_events, spoof_events, fuzz_burst, insert_event, sort_events,
  log_events, timeline, generate_labeled_attack_dataset,
}

module _ {F : Type 0} ⦃fl : FloatOps F⦄ where
  -- A frame of the transmission on which decoding raises.
  abbrev IsLong : CanFrame F → Type 0
  IsLong f = (f.can_id ≡ can_id_transmission) × (4 ≤ length (valid_bytes f))

  -- An event whose frame is one of these is among the events.
  abbrev HasLong : List (Event F) → Type 0
  HasLong [] = ⊥
  HasLong (e ∷ es) = IsLong e.1 ⊎ HasLong es

  insert_event-HasLong :
      (e : Event F) (es : List (Event F)) → IsLong e.1 ⊎ HasLong es → HasLong (insert_event e es)
  unfolding insert_event
  insert_event-HasLong e [] h = h
  insert_event-HasLong e (d ∷ ds) h =
      let here = insert_event-HasLong e ds in
      elim (Bool-cases (fl.lt d.0 e.0)) [
        | inl later ↦
            rw (later, insert_event)
              (elim h [
                | inl l ↦ inr (here (inl l))
                | inr (inl l) ↦ inl l
                | inr (inr l) ↦ inr (here (inr l))
              ])
        | inr first ↦ rw (first, insert_event) h
      ]

  sort_events-HasLong : (es : List (Event F)) → HasLong es → HasLong (sort_events es)
  unfolding sort_events
  sort_events-HasLong [] h = h
  sort_events-HasLong (e ∷ es) (inl l) = insert_event-HasLong e (sort_events es) (inl l)
  sort_events-HasLong (e ∷ es) (inr l) =
      insert_event-HasLong e (sort_events es) (inr (sort_events-HasLong es l))

  append-HasLong : (xs ys : List (Event F)) → HasLong xs → HasLong (xs ++ ys)
  append-HasLong [] ys h = absurd h
  append-HasLong (x ∷ xs) ys (inl l) = inl l
  append-HasLong (x ∷ xs) ys (inr l) = inr (append-HasLong xs ys l)

  normal_events-HasLong :
      (front : List (CanFrame F)) (f : CanFrame F) (back : List (CanFrame F))
      → IsLong f
      → HasLong (normal_events (front ++ f ∷ back))
  normal_events-HasLong [] f back l = inl l
  normal_events-HasLong (g ∷ front) f back l = inr (normal_events-HasLong front f back l)

  -- The loop, from the result of logging one event on.
  log_events-step :
      (e : Event F) (es : List (Event F)) (l : CsvTelemetryLogger F)
      {q : Result (ParsedTelemetry F) × CsvTelemetryLogger F}
      → log_frame e.1 e.2 l ≡ q
      → log_events (e ∷ es) l ≡ (elim q.0 as (λ _. Result (Unit {0}) × CsvTelemetryLogger F) [
        | ok _ ↦ log_events es q.1
        | raise err ↦ (raise err, q.1)
      ])
  unfolding log_events
  log_events-step e es l h =
      ap
        (λ (q : Result (ParsedTelemetry F) × CsvTelemetryLogger F).
          elim q.0 as (λ _. Result (Unit {0}) × CsvTelemetryLogger F) [
            | ok _ ↦ log_events es q.1
            | raise err ↦ (raise err, q.1)
          ])
        h

  -- Logging an event goes on, or ends the loop with the error of `struct`.
  log_events-cases :
      (e : Event F) (es : List (Event F)) (l : CsvTelemetryLogger F)
      → ((l' : CsvTelemetryLogger F) × (log_events (e ∷ es) l ≡ log_events es l'))
        ⊎ ((log_events (e ∷ es) l).0 ≡ raise struct_error)
  unfolding log_parsed
  log_events-cases e es l = elim (parse_frame-struct_error e.1 l.parser) [
    | inl (t, h) ↦ inl (
      append_row (labelled e.2 t) (record l { parser = observe e.1 l.parser }),
      log_events-step e es l (log_frame-parsed e.2 e.1 l (ok t) h),
    )
    | inr h ↦
        inr (
          ap (λ q. q.0)
            (log_events-step e es l (log_frame-parsed e.2 e.1 l (raise struct_error) h)))
  ]

  log_events-HasLong :
      (es : List (Event F)) (l : CsvTelemetryLogger F)
      → HasLong es
      → (log_events es l).0 ≡ raise struct_error
  unfolding log_parsed
  log_events-HasLong [] l h = absurd h
  log_events-HasLong (e ∷ es) l (inl (c, n)) =
      let raises = (parse_frame_raises e.1 l.parser).0 c n in
      ap (λ q. q.0)
        (log_events-step e es l (log_frame-parsed e.2 e.1 l (raise struct_error) raises))
  log_events-HasLong (e ∷ es) l (inr h) =
      let rest : (l' : CsvTelemetryLogger F) → (log_events es l').0 ≡ raise struct_error =
        λ l'. log_events-HasLong es l' h in
      elim (log_events-cases e es l) [
        | inl (l', next) ↦ ap (λ q. q.0) next ∙ rest l'
        | inr raises ↦ raises
      ]

  timeline-HasLong :
      (front : List (CanFrame F)) (f : CanFrame F) (back : List (CanFrame F))
      (fuzz : List (Event F))
      → IsLong f
      → HasLong (timeline (front ++ f ∷ back) fuzz)
  unfolding timeline
  timeline-HasLong front f back fuzz long =
      let normal = normal_events (front ++ f ∷ back) in
      sort_events-HasLong (normal ++ (flood_events ++ (spoof_events ++ fuzz))) (
        append-HasLong normal (flood_events ++ (spoof_events ++ fuzz))
          (normal_events-HasLong front f back long))

  -- Generating the labelled attack dataset raises whenever the duration has at least one step of
  -- the simulation, whatever the random generator draws: packing raises, or the parser does on a
  -- frame of the transmission, wherever the sorting puts it.
  pub generate_labeled_attack_dataset_raises :
      {G : Type 0} (randint : Randint G) (total_duration_sec : F) (file : List Line) (g : G)
      → 1 ≤ total_steps total_duration_sec
      → generate_labeled_attack_dataset randint total_duration_sec file g ≡ raise struct_error
  unfolding generate_labeled_attack_dataset
  generate_labeled_attack_dataset_raises randint total_duration_sec file g long =
      let l = new_logger 500 file in
      let fuzz = (fuzz_burst randint 0 300 g).0 in
      elim (generate_batch-cases total_duration_sec long) [
        | inl e ↦ rw e
        | inr (frames, e, (f, c, valid, (front, back, at))) ↦
            let all = timeline (front ++ f ∷ back) fuzz in
            rw (e, at)
              (ap
                (λ (r : Result (Unit {0})). r >>= λ _. ok (close (log_events all l).1).total_logged)
                (log_events-HasLong all l (timeline-HasLong front f back fuzz (c, valid))))
      ]
