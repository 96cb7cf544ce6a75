-- ===== src/Csv/Streaming.antt =====
-- src/ml/features.py and src/logger/csv_logger.py: the features of a logged dataset are those of
-- the frames as they came.
use can_sentinental.Prelude.{
  ℕ, zero, suc, ◌<◌, ◌≡◌, refl, sym, ap, ◌∙◌, List, [], ◌∷◌, length, take, map, some, ok, raise,
  arith, All, All-take, inl, inr,
}
use can_sentinental.Prelude.Text.{Text, codes, hex, join}
use can_sentinental.Prelude.Label.{Label}
use can_sentinental.Prelude.Numeral.{read_nat-decimal, from_hex, from_hex-join}
use can_sentinental.Struct.{Bytes, IsBytes}
use can_sentinental.Floats.{FloatOps}
use can_sentinental.Frame.{CanFrame, valid_bytes}
use can_sentinental.Ids.{can_id_transmission}
use can_sentinental.Parser.{CanTelemetryParser, new_parser, observe, telemetry, to_flat_dict}
use can_sentinental.Parser.Histories.{parse_frame-cases, parse_frame_raises}
use can_sentinental.Signals.{Signals}
use can_sentinental.Logger.{Line, written, csv_fieldnames, labelled, new_logger, log_all, close}
use can_sentinental.Logger.Rows.{IsReady, rows_of, rows_of-ok, rows_of-nil, log_all-rows}
use can_sentinental.Features.{
  NumpyStats, StreamingFeatureExtractor, new_extractor, extract_features, as_array,
  calculate_byte_stats,
}
use can_sentinental.Features.Window.{extract_frame}
use can_sentinental.Model.{Matrix}
use can_sentinental.Csv.{
  TextRow, line_cells, named, rows_under, read_int, payload_of, read_float, read_row, extract_rows,
  extract_features_from_csv,
}

take-take : (n : ℕ) (xs : Bytes) → take n (take n xs) ≡ take n xs
take-take zero xs = refl
take-take (suc n) [] = refl
take-take (suc n) (x ∷ xs) = ap (λ ys. x ∷ ys) (take-take n xs)

-- A row under the field names of the logger.
abbrev read_back : Line → TextRow
read_back line = named (map codes csv_fieldnames) (line_cells line)

-- The rows of lines under these names.
abbrev under : List Line → List TextRow
under lines = rows_under (map codes csv_fieldnames) (map line_cells lines)

payload_of-from_hex : (t : Text) → payload_of (some t) ≡ from_hex t
unfolding payload_of
payload_of-from_hex [] = refl
payload_of-from_hex (c ∷ t) = refl

payload_of-join :
    (bytes : Bytes) → IsBytes bytes → payload_of (some (join [] (map (hex 2) bytes))) ≡ ok bytes
payload_of-join bytes h = payload_of-from_hex (join [] (map (hex 2) bytes)) ∙ from_hex-join bytes h

module _ {F : Type 0} ⦃fl : FloatOps F⦄ where
  -- A frame of bytes that the parser gets past.
  pub record IsLoggable (f : CanFrame F) : Type 0 where
    pub bytes : IsBytes f.payload
    pub parsed : f.can_id ≡ can_id_transmission → length (valid_bytes f) < 4

  -- The time stamp as the file keeps it.
  abbrev pub retimed : (F → F) → CanFrame F → CanFrame F
  retimed reread f = record f { timestamp = reread f.timestamp }

  read_float-some : (t : Text) {x : F} → fl.of_text t ≡ some x → read_float (some t) ≡ ok x
  unfolding read_float
  read_float-some t h = rw (h, read_float)

  -- The line of a frame is not blank.
  under-labelled :
      (f : CanFrame F) (p : CanTelemetryParser F) (signals : Signals F) (label : Text)
      (lines : List Line)
      → under (written (labelled label (telemetry f p signals)) ∷ lines)
        ≡ read_back (written (labelled label (telemetry f p signals))) ∷ under lines
  unfolding labelled to_flat_dict
  under-labelled f p signals label lines = refl

  read_row-labelled :
      (f : CanFrame F) (p : CanTelemetryParser F) (signals : Signals F) (label : Text) {ts : F}
      → IsBytes f.payload
      → fl.of_text (fl.fixed 6 f.timestamp) ≡ some ts
      → read_row (read_back (written (labelled label (telemetry f p signals))))
        ≡ ok (f.can_id, f.dlc, ts, some label, valid_bytes f)
  unfolding read_row read_int labelled to_flat_dict telemetry
  read_row-labelled f p signals label h e =
      let payload = payload_of-join (valid_bytes f) (All-take (λ b. b < 256) f.dlc f.payload h) in
      rw (
        read_nat-decimal f.can_id,
        read_nat-decimal f.dlc,
        read_float-some (fl.fixed 6 f.timestamp) e,
        payload,
      )

module _ {F : Type 0} ⦃fl : FloatOps F⦄ (np : NumpyStats F) where
  -- Only the bytes below the DLC matter to the features.
  calculate_byte_stats-take :
      (bytes : Bytes) (dlc : ℕ)
      → calculate_byte_stats np (take dlc bytes) dlc ≡ calculate_byte_stats np bytes dlc
  unfolding calculate_byte_stats
  calculate_byte_stats-take [] zero = refl
  calculate_byte_stats-take [] (suc dlc) = refl
  calculate_byte_stats-take (b ∷ bytes) zero = refl
  calculate_byte_stats-take (b ∷ bytes) (suc dlc) = rw (take-take, calculate_byte_stats) refl

  extract_features-take :
      (can_id dlc : ℕ) (bytes : Bytes) (ts : F) (e : StreamingFeatureExtractor F)
      → extract_features np can_id dlc (take dlc bytes) ts e
        ≡ extract_features np can_id dlc bytes ts e
  unfolding extract_features
  extract_features-take can_id dlc bytes ts e = rw (take-take, calculate_byte_stats-take)

  -- The feature vectors of frames as they come.
  unfoldable pub features_of : List (CanFrame F) → StreamingFeatureExtractor F → Matrix F
  features_of [] e = []
  features_of (f ∷ fs) e = let (v, e') = extract_frame np f e in as_array v ∷ features_of fs e'

  module _ (label : Text) (reread : F → F)
      (printed : (t : F) → fl.of_text (fl.fixed 6 t) ≡ some (reread t)) where
    extract_rows-cons :
        (row : TextRow) (rows : List TextRow) (can_id dlc : ℕ) (ts : F) (bytes : Bytes)
        (e : StreamingFeatureExtractor F) {x : Matrix F} {y : List Label}
        → read_row row ≡ ok (can_id, dlc, ts, some label, bytes)
        → extract_rows np rows (extract_features np can_id dlc bytes ts e).1 ≡ ok (x, y)
        → extract_rows np (row ∷ rows) e
          ≡ ok (as_array (extract_features np can_id dlc bytes ts e).0 ∷ x, some label ∷ y)
    unfolding extract_rows
    extract_rows-cons row rows can_id dlc ts bytes e h rest = rw (h, rest)

    extract_rows-rows_of :
        (fs : List (CanFrame F)) (p : CanTelemetryParser F) (e : StreamingFeatureExtractor F)
        → All IsLoggable fs
        → extract_rows np (under (map written (rows_of label fs p))) e
          ≡ ok (features_of (map (retimed reread) fs) e, map (λ _. some label) fs)
    extract_rows-rows_of [] p e h =
        rw (rows_of-nil label p) (unfold extract_rows features_of in refl)
    extract_rows-rows_of (f ∷ fs) p e h =
        let loggable = h.0 in
        elim (parse_frame-cases f p) [
          | inl (signals, parsed) ↦
              let ts = reread f.timestamp in
              let row = read_back (written (labelled label (telemetry f p signals))) in
              let lines = map written (rows_of label fs (observe f p)) in
              let rows = under lines in
              let valid = extract_features-take f.can_id f.dlc f.payload ts e in
              let later = (extract_frame np (retimed reread f) e).1 in
              rw (rows_of-ok label f fs p parsed) (
                ap (λ rs. extract_rows np rs e) (under-labelled f p signals label lines)
                ∙ extract_rows-cons row rows f.can_id f.dlc ts (valid_bytes f) e
                    (read_row-labelled f p signals label loggable.bytes (printed f.timestamp))
                    (ap (λ r. extract_rows np rows r.1) valid
                      ∙ extract_rows-rows_of fs (observe f p) later h.1)
                ∙ (ap
                      (λ r. ok (
                        as_array r.0 ∷ features_of (map (retimed reread) fs) later,
                        some label ∷ map (λ _. some label) fs,
                      ))
                      valid
                    ∙ unfold features_of in refl))
          | inr (err, raised) ↦
              let parsed = (parse_frame_raises f p).1 loggable.parsed in
              let clash : raise err ≡ ok parsed.0 = ap (λ r. r.0) (sym raised ∙ parsed.1) in
              absurd (ground (arith, clash))
        ]

    -- Frames that are logged to a new file and read back give, where reading a printed time stamp
    -- is `reread`, the feature vectors of the frames as they came but for these time stamps, in
    -- order, with the label: the text of identifier, DLC and payload loses nothing. The frames are
    -- those that the parser gets past.
    pub extract_features_from_csv-log_all :
        (fs : List (CanFrame F)) (buffer_size : ℕ)
        → All IsLoggable fs
        → extract_features_from_csv np
            (some (close (log_all fs label (new_logger buffer_size [])).1).file)
          ≡ ok (features_of (map (retimed reread) fs) (new_extractor 50), map (λ _. some label) fs)
    unfolding extract_features_from_csv new_logger
    extract_features_from_csv-log_all fs buffer_size h =
        let rows = rows_of label fs new_parser in
        let logger = new_logger buffer_size [] in
        let ready : IsReady logger = record { open_handle = refl; room = λ p. p } in
        let (_, _, _, file, _) = log_all-rows label fs logger ready in
        ap (λ ls. extract_features_from_csv np (some ls)) file
        ∙ extract_rows-rows_of fs new_parser (new_extractor 50) h
