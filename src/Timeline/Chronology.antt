-- ===== src/Timeline/Chronology.antt =====
-- src/attacks/attack_suite.py: the order in which `generate_labeled_attack_dataset` logs its events.
use can_sentinental.Prelude.{ℕ, ◌≡◌, List, ◌++◌, length, All}
use can_sentinental.Floats.{FloatOps}
use can_sentinental.Frame.{CanFrame}
use can_sentinental.Timeline.{Event, normal_events, flood_events, spoof_events}
use can_sentinental.Timeline.Order.{IsTimed}

module _ {F : Type 0} ⦃fl : FloatOps F⦄ where
  -- Events that stand at the times of their frames, so many.
  record Timed (n : ℕ) (es : List (Event F)) : Type 0 where
    timed : All IsTimed es
    many : length es ≡ n

  -- What is collected before the sort: the normal traffic, then the three attacks.
  unfoldable pub collected : List (CanFrame F) → List (Event F) → List (Event F)
  collected frames fuzz = normal_events frames ++ (flood_events ++ (spoof_events ++ fuzz))
