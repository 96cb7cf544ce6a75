-- ===== src/Timeline.antt =====
-- src/attacks/attack_suite.py: `generate_labeled_attack_dataset`.
pub mod Order
pub mod Chronology
pub mod Dataset
mod Tests
use can_sentinental.Prelude.{
  ℕ, zero, suc, ◌+◌, List, [], ◌∷◌, ◌++◌, map, replicate, Result, ok, raise, ◌>>=◌, if◌then◌else◌,
}
use can_sentinental.Prelude.Text.{Text, codes}
use can_sentinental.Floats.{FloatOps, of_nat}
use can_sentinental.Frame.{CanFrame}
use can_sentinental.Ids.{can_id_brake_override}
use can_sentinental.Logger.{Line, CsvTelemetryLogger, new_logger, log_frame, close}
use can_sentinental.Sim.{generate_batch}
use can_sentinental.Attacks.{Randint, frame_of, random_bytes}

-- A time, a frame and its label.
abbrev pub Event : Type 0 → Type 0
Event F = F × CanFrame F × Text

module _ {F : Type 0} ⦃fl : FloatOps F⦄ where
  -- base_time + start
  abbrev pub start_at : F → F
  start_at start = fl.add (fl.lit 1000000 0) start

  abbrev pub normal_events : List (CanFrame F) → List (Event F)
  normal_events frames = map (λ f. (f.timestamp, f, codes "NORMAL")) frames

  -- for i in range(n), from the round's number on: a frame every `step` seconds.
  abbrev pub burst : (F → Event F) → F → F → ℕ → ℕ → List (Event F)
  burst event start step i zero = []
  burst event start step i (suc n) =
      event (fl.add start (fl.mul (of_nat i) step)) ∷ burst event start step (i + 1) n

  unfoldable pub flood_events : List (Event F)
  flood_events =
      burst (λ t. (t, frame_of t 0x000 (replicate 8 0) 8, codes "ATTACK_FLOOD"))
        (start_at (fl.lit 8 0)) (fl.lit 6 3) 0 600

  unfoldable pub spoof_events : List (Event F)
  spoof_events =
      burst
        (λ t. (
          t,
          frame_of t can_id_brake_override (0x64 ∷ 1 ∷ 0 ∷ 0 ∷ 0 ∷ 0 ∷ []) 6,
          codes "ATTACK_SPOOF_BRAKE",
        ))
        (start_at (fl.lit 18 0)) (fl.lit 2 2) 0 200

  -- The loop of the fuzzing attack, which draws from the generator.
  unfoldable pub fuzz_burst : {G : Type 0} → Randint G → ℕ → ℕ → G → List (Event F) × G
  unfolding random_bytes
  fuzz_burst randint i zero g = ([], g)
  fuzz_burst randint i (suc n) g =
      let t = fl.add (start_at (fl.lit 26 0)) (fl.mul (of_nat i) (fl.lit 13 3)) in
      let (rand_id, g1) = randint 0x001 0x7FE g in
      let (dlc, g2) = randint 1 8 g1 in
      let (bytes, g3) = random_bytes randint dlc g2 in
      let (events, g4) = fuzz_burst randint (i + 1) n g3 in
      ((t, frame_of t rand_id bytes dlc, codes "ATTACK_FUZZING") ∷ events, g4)

  -- all_events.sort(key=lambda x: x[0]): what the stable sort of a list gives, by insertion.
  unfoldable pub insert_event : Event F → List (Event F) → List (Event F)
  insert_event e [] = e ∷ []
  insert_event e (d ∷ ds) = if fl.lt d.0 e.0 then d ∷ insert_event e ds else e ∷ d ∷ ds

  unfoldable pub sort_events : List (Event F) → List (Event F)
  unfolding insert_event
  sort_events [] = []
  sort_events (e ∷ es) = insert_event e (sort_events es)

  -- for _, frame, label in all_events: logger.log_frame(frame, label=label)
  unfoldable pub log_events :
      List (Event F) → CsvTelemetryLogger F → Result (Unit {0}) × CsvTelemetryLogger F
  log_events [] l = (ok tt, l)
  log_events ((_, frame, label) ∷ es) l =
      let (r, l') = log_frame frame label l in
      let rest = log_events es l' in elim r [ ok _ ↦ rest | raise e ↦ (raise e, l') ]

  -- The events in the order in which they are logged.
  unfoldable pub timeline : List (CanFrame F) → List (Event F) → List (Event F)
  unfolding flood_events spoof_events sort_events
  timeline normal_frames fuzz =
      sort_events (normal_events normal_frames ++ (flood_events ++ (spoof_events ++ fuzz)))

  -- `generate_labeled_attack_dataset`, on the output file's content.
  unfoldable pub generate_labeled_attack_dataset :
      {G : Type 0} → Randint G → F → List Line → G → Result ℕ
  unfolding generate_batch fuzz_burst timeline log_events new_logger
  generate_labeled_attack_dataset randint total_duration_sec file g = do
    normal_frames ← generate_batch total_duration_sec
    let fuzz = (fuzz_burst randint 0 300 g).0
    let (r, l) = log_events (timeline normal_frames fuzz) (new_logger 500 file)
    _ ← r
    ok (close l).total_logged
