-- ===== src/Logger/Baseline.antt =====
-- src/logger/csv_logger.py: `generate_baseline_dataset` on frames of the transmission.
use can_sentinental.Prelude.{
  ℕ, ◌≤◌, ◌≡◌, ap, ◌∙◌, List, [], ◌∷◌, ◌++◌, length, leb, ◌&&◌, Result, ok, raise, struct_error,
  arith, Bool-cases, inl, inr, ◌⊎◌, ◌==◌,
}
use can_sentinental.Prelude.Text.{Text, codes}
use can_sentinental.Floats.{FloatOps}
use can_sentinental.Frame.{CanFrame, valid_bytes}
use can_sentinental.Ids.{can_id_transmission}
use can_sentinental.Parser.{CanTelemetryParser, ParsedTelemetry, parse_frame, observe}
use can_sentinental.Parser.Histories.{parse_frame_raises}
use can_sentinental.Logger.Rows.{log_all-ok, log_all-raise}
use can_sentinental.Logger.{
  Line, CsvTelemetryLogger, new_logger, close, append_row, labelled, log_all, write_baseline,
}

module _ {F : Type 0} ⦃fl : FloatOps F⦄ where
  -- A frame is parsed, or it raises the error of `struct`.
  pub parse_frame-struct_error :
      (f : CanFrame F) (p : CanTelemetryParser F)
      → ((t : ParsedTelemetry F) × (parse_frame f p ≡ (ok t, observe f p)))
        ⊎ (parse_frame f p ≡ (raise struct_error, observe f p))
  parse_frame-struct_error f p =
      let raises = parse_frame_raises f p in
      elim (Bool-cases ((f.can_id == can_id_transmission) && leb 4 (length (valid_bytes f)))) [
        | inl e ↦ inr (raises.0 (ground arith) (ground arith))
        | inr e ↦ let parsed = raises.1 (λ c. ground arith) in inl (parsed.0, parsed.1)
      ]

  log_all-transmission :
      (label : Text) (fs : List (CanFrame F)) (f : CanFrame F) (rest : List (CanFrame F))
      (l : CsvTelemetryLogger F)
      → f.can_id ≡ can_id_transmission
      → 4 ≤ length (valid_bytes f)
      → (log_all (fs ++ f ∷ rest) label l).0 ≡ raise struct_error
  log_all-transmission label [] f rest l c n =
      ap (λ q. q.0) (log_all-raise label f rest l ((parse_frame_raises f l.parser).0 c n))
  log_all-transmission label (g ∷ fs) f rest l c n = elim (parse_frame-struct_error g l.parser) [
    | inl (t, e) ↦
        ap (λ q. q.0) (log_all-ok label g (fs ++ f ∷ rest) l e)
        ∙ log_all-transmission label fs f rest
            (append_row (labelled label t) (record l { parser = observe g l.parser })) c n
    | inr e ↦ ap (λ q. q.0) (log_all-raise label g (fs ++ f ∷ rest) l e)
  ]

  -- Writing a baseline dataset raises on every simulation that has a transmission frame with four
  -- valid bytes or more, whatever frames it has besides.
  pub write_baseline-transmission :
      (fs : List (CanFrame F)) (f : CanFrame F) (rest : List (CanFrame F)) (file : List Line)
      → f.can_id ≡ can_id_transmission
      → 4 ≤ length (valid_bytes f)
      → (write_baseline (fs ++ f ∷ rest) file).0 ≡ raise struct_error
  unfolding write_baseline
  write_baseline-transmission fs f rest file c n =
      let logged = log_all (fs ++ f ∷ rest) (codes "NORMAL") (new_logger 500 file) in
      ap
        (λ (r : Result (Unit {0})).
          (elim r as (λ _. Result ℕ × CsvTelemetryLogger F) [
            | ok _ ↦ (ok (close logged.1).total_logged, close logged.1)
            | raise e ↦ (raise e, logged.1)
          ]).0)
        (log_all-transmission (codes "NORMAL") fs f rest (new_logger 500 file) c n)
