-- ===== src/Alerts/Severity.antt =====
-- src/detection/alert_engine.py: what the heuristic classification can report.
use can_sentinental.Prelude.{
  ℕ, ◌≡◌, refl, ap, ◌∙◌, ◌⊎◌, Bool, true, false, List, [], ◌∷◌, none, ◌==◌, ◌||◌, ok, arith,
  count_if,
}
use can_sentinental.Prelude.Dict.{lookup, contains, get_or}
use can_sentinental.Prelude.Text.{Text}
use can_sentinental.Floats.{FloatOps, zero_float}
use can_sentinental.Frame.{CanFrame}
use can_sentinental.Ids.{can_id_body_climate, can_id_lighting}
use can_sentinental.Parser.{new_parser, parse_frame, delta_since}
use can_sentinental.Parser.Histories.{parse_all, parse_frame-history, has_id, last_stamp}
use can_sentinental.Detector.{DetectionResult}
use can_sentinental.Alerts.{
  low, high, critical, dos_bus_flood, statistical_timing_anomaly, ecu_subsystem_map, subsystem_info,
  is_flood, classify, alert_for, delta_ms,
}

or-true : (b : Bool) → (b || true) ≡ true
or-true true = refl
or-true false = refl

-- The criticality of a known subsystem is low only for the climate and the lighting.
low_criticality :
    (can_id : ℕ)
    → (subsystem_info can_id).criticality ≡ low
    → (can_id ≡ can_id_body_climate) ⊎ (can_id ≡ can_id_lighting)
unfolding subsystem_info get_or lookup
low_criticality can_id h = ground arith

module _ {F : Type 0} ⦃fl : FloatOps F⦄ (can_id : ℕ) (delta_t_ms entropy score : F) where
  -- An identifier that no ECU has is never reported below high; a report is of low severity only
  -- as a timing anomaly of the climate or the lighting, and a flood is always critical.
  pub classify_severity :
      (contains can_id ecu_subsystem_map ≡ false
        → ((classify can_id delta_t_ms entropy score).severity ≡ critical)
          ⊎ ((classify can_id delta_t_ms entropy score).severity ≡ high))
      × ((classify can_id delta_t_ms entropy score).severity ≡ low
          → ((classify can_id delta_t_ms entropy score).attack_type ≡ statistical_timing_anomaly)
            × ((can_id ≡ can_id_body_climate) ⊎ (can_id ≡ can_id_lighting)))
      × ((classify can_id delta_t_ms entropy score).attack_type ≡ dos_bus_flood
          → (is_flood can_id delta_t_ms ≡ true)
            × ((classify can_id delta_t_ms entropy score).severity ≡ critical))
  unfolding classify
  classify_severity = (ground arith, ground (arith, low_criticality can_id), ground arith)

module _ {F : Type 0} ⦃fl : FloatOps F⦄ (iso : F → Text) where
  last_stamp-none :
      (can_id : ℕ) (fs : List (CanFrame F))
      → count_if (has_id can_id) fs ≡ 0
      → last_stamp (has_id can_id) fs none ≡ none
  last_stamp-none can_id [] h = refl
  last_stamp-none can_id (f ∷ fs) h = ground (arith, last_stamp-none can_id fs)

  -- Where 0.0 * 1000.0 is below 0.8, the first frame of an identifier that is found anomalous is
  -- always reported as a bus flood, whatever its identifier, its entropy and its score are: its
  -- time difference is 0.0 for want of an earlier frame.
  pub first_frame_flood :
      (fs : List (CanFrame F)) (f : CanFrame F) (det : DetectionResult F) (counter : ℕ)
      → fl.lt (fl.mul zero_float (fl.lit 1000 0)) (fl.lit 8 1) ≡ true
      → count_if (has_id f.can_id) fs ≡ 0
      → (parse_frame f (parse_all fs new_parser)).0 ≡ ok det.parsed
      → ((alert_for iso det counter).attack_type ≡ dos_bus_flood)
        × ((alert_for iso det counter).severity ≡ critical)
  unfolding alert_for
  first_frame_flood fs f det counter below fresh parsed =
      let delta : det.parsed.delta_t ≡ zero_float =
        (parse_frame-history fs f parsed).0
        ∙ ap (delta_since f.timestamp) (last_stamp-none f.can_id fs fresh) in
      let flooded : is_flood det.frame.can_id (delta_ms det) ≡ true =
        rw (delta, below) (or-true (det.frame.can_id == 0)) in
      (rw flooded, rw flooded)
