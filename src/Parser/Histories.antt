-- ===== src/Parser/Histories.antt =====
-- src/parser/telemetry_parser.py: what the parser's state says of the frames that it has seen, and
-- what `parse_frame` returns after them.
use can_sentinental.Prelude.{
  ℕ, ◌+◌, ◌≤◌, ◌<◌, ◌≡◌, refl, ap, ◌∙◌, Bool, true, List, [], ◌∷◌, length, Option, none, some, ◌==◌,
  if◌then◌else◌, ok, raise, struct_error, arith, count_if, Result-cases, inl, inr, ◌⊎◌, Error,
}
use can_sentinental.Prelude.Dict.{lookup, get_or, lookup-insert, get_or-insert}
use can_sentinental.Floats.{FloatOps}
use can_sentinental.Frame.{CanFrame, valid_bytes}
use can_sentinental.Ids.{can_id_transmission}
use can_sentinental.Signals.{Signals, decode_signals}
use can_sentinental.Signals.Decoding.{decode_signals_raises}
use can_sentinental.Parser.{
  CanTelemetryParser, ParsedTelemetry, new_parser, observe, telemetry, parse_frame, delta_since,
}

-- The timestamp of the last frame that passes a test, or the given one.
abbrev pub last_stamp : {F : Type 0} → (CanFrame F → Bool) → List (CanFrame F) → Option F → Option F
last_stamp p [] last = last
last_stamp p (f ∷ fs) last = last_stamp p fs (if p f then some f.timestamp else last)

abbrev pub has_id : {F : Type 0} → ℕ → CanFrame F → Bool
has_id can_id f = f.can_id == can_id

module _ {F : Type 0} ⦃fl : FloatOps F⦄ where
  pub state-parse_frame :
      (f : CanFrame F) (p : CanTelemetryParser F) → (parse_frame f p).1 ≡ observe f p
  unfolding parse_frame
  state-parse_frame f p = ground arith

  -- The state after frames, whether or not each of them is returned.
  unfoldable pub parse_all : List (CanFrame F) → CanTelemetryParser F → CanTelemetryParser F
  parse_all [] p = p
  parse_all (f ∷ fs) p = parse_all fs (parse_frame f p).1

  lookup-parse_all :
      (can_id : ℕ) (fs : List (CanFrame F)) (p : CanTelemetryParser F)
      → lookup can_id (parse_all fs p).last_seen_per_id
        ≡ last_stamp (has_id can_id) fs (lookup can_id p.last_seen_per_id)
  unfolding parse_all
  lookup-parse_all can_id [] p = refl
  lookup-parse_all can_id (f ∷ fs) p =
      ap (λ q. lookup can_id (parse_all fs q).last_seen_per_id) (state-parse_frame f p)
      ∙ (lookup-parse_all can_id fs (observe f p)
          ∙ ap (last_stamp (has_id can_id) fs)
              (unfold observe in lookup-insert f.can_id can_id f.timestamp p.last_seen_per_id))

  global-parse_all :
      (fs : List (CanFrame F)) (p : CanTelemetryParser F)
      → (parse_all fs p).last_global_timestamp ≡ last_stamp (λ f. true) fs p.last_global_timestamp
  unfolding parse_all
  global-parse_all [] p = refl
  global-parse_all (f ∷ fs) p =
      ap (λ q. (parse_all fs q).last_global_timestamp) (state-parse_frame f p)
      ∙ (global-parse_all fs (observe f p)
          ∙ ap (last_stamp (λ f. true) fs) (unfold observe in refl))

  count-observe :
      (can_id : ℕ) (f : CanFrame F) (p : CanTelemetryParser F)
      → get_or can_id (observe f p).message_counts 0
        ≡ get_or can_id p.message_counts 0 + count_if (has_id can_id) (f ∷ [])
  unfolding observe
  count-observe can_id f p = ground (
    arith,
    get_or-insert f.can_id can_id (get_or f.can_id p.message_counts 0 + 1) 0 p.message_counts,
  )

  counts-parse_all :
      (can_id : ℕ) (fs : List (CanFrame F)) (p : CanTelemetryParser F)
      → get_or can_id (parse_all fs p).message_counts 0
        ≡ get_or can_id p.message_counts 0 + count_if (has_id can_id) fs
  unfolding parse_all
  counts-parse_all can_id [] p = omega arith
  counts-parse_all can_id (f ∷ fs) p = omega (
    arith,
    ap (λ q. get_or can_id (parse_all fs q).message_counts 0) (state-parse_frame f p),
    counts-parse_all can_id fs (observe f p),
    count-observe can_id f p,
  )

  total-parse_all :
      (fs : List (CanFrame F)) (p : CanTelemetryParser F)
      → (parse_all fs p).total_messages ≡ p.total_messages + length fs
  unfolding parse_all
  total-parse_all [] p = omega arith
  total-parse_all (f ∷ fs) p =
      let counted : (observe f p).total_messages ≡ p.total_messages + 1 = unfold observe in refl in
      omega (
        arith,
        ap (λ q. (parse_all fs q).total_messages) (state-parse_frame f p),
        total-parse_all fs (observe f p),
        counted,
      )

module _ {F : Type 0} ⦃fl : FloatOps F⦄ where
  -- What is returned is the telemetry of the frame against the state before it.
  pub parse_frame-telemetry :
      (f : CanFrame F) (p : CanTelemetryParser F) {t : ParsedTelemetry F}
      → (parse_frame f p).0 ≡ ok t
      → (signals : Signals F) × (t ≡ telemetry f p signals)
  unfolding parse_frame
  parse_frame-telemetry f p e =
      elim (Result-cases (decode_signals {F = F} f.can_id (valid_bytes f))) [
        | inl (signals, r) ↦ (signals, ground arith)
        | inr (err, r) ↦ absurd (ground arith)
      ]

module _ {F : Type 0} ⦃fl : FloatOps F⦄ (fs : List (CanFrame F)) (f : CanFrame F) where
  -- After any frames the parser returns, for the next one, the time since the last earlier frame
  -- of its identifier and since the last earlier frame of all, or zero where there is none; an
  -- identifier's counter is the number of frames seen with it, and the total is their number.
  pub parse_frame-history :
      {t : ParsedTelemetry F}
      → (parse_frame f (parse_all fs new_parser)).0 ≡ ok t
      → (t.delta_t ≡ delta_since f.timestamp (last_stamp (has_id f.can_id) fs none))
        × (t.global_delta_t ≡ delta_since f.timestamp (last_stamp (λ g. true) fs none))
        × ((can_id : ℕ)
            → get_or can_id (parse_all fs new_parser).message_counts 0
              ≡ count_if (has_id can_id) fs)
        × ((parse_all fs new_parser).total_messages ≡ length fs)
  unfolding telemetry lookup get_or
  parse_frame-history {t} e =
      let p = parse_all fs new_parser in
      let (signals, same) = parse_frame-telemetry f p e in
      (
        ap (λ r. r.delta_t) same
            ∙ ap (delta_since f.timestamp) (lookup-parse_all f.can_id fs new_parser),
        ap (λ r. r.global_delta_t) same
            ∙ ap (delta_since f.timestamp) (global-parse_all fs new_parser),
        λ can_id. omega (arith, counts-parse_all can_id fs new_parser),
        omega (arith, total-parse_all fs new_parser),
      )

module _ {F : Type 0} ⦃fl : FloatOps F⦄ (f : CanFrame F) (p : CanTelemetryParser F) where
  -- A transmission frame with four valid bytes or more makes `parse_frame` raise, after the
  -- histories and counters have been updated; every other frame is parsed, with the same update,
  -- and gives back its own identifier, time, DLC and valid bytes.
  pub parse_frame_raises :
      (f.can_id ≡ can_id_transmission
        → 4 ≤ length (valid_bytes f)
        → parse_frame f p ≡ (raise struct_error, observe f p))
      × ((f.can_id ≡ can_id_transmission → length (valid_bytes f) < 4)
          → (t : ParsedTelemetry F) × (parse_frame f p ≡ (ok t, observe f p))
            × (t.can_id ≡ f.can_id)
            × (t.timestamp ≡ f.timestamp)
            × (t.dlc ≡ f.dlc)
            × (t.payload ≡ valid_bytes f))
  unfolding parse_frame telemetry
  parse_frame_raises =
      let decoded = decode_signals_raises {F = F} f.can_id (valid_bytes f) in
      (
        λ e h. rw (decoded.0 e h, parse_frame),
        λ h.
            let (signals, r) = decoded.1 h in
            (telemetry f p signals, rw (r, parse_frame), refl, refl, refl, refl),
      )

module _ {F : Type 0} ⦃fl : FloatOps F⦄ (f : CanFrame F) (p : CanTelemetryParser F) where
  -- The two ways in which `parse_frame` ends; the state is written in both.
  pub parse_frame-cases :
      ((signals : Signals F) × (parse_frame f p ≡ (ok (telemetry f p signals), observe f p)))
      ⊎ ((e : Error) × (parse_frame f p ≡ (raise e, observe f p)))
  unfolding parse_frame
  parse_frame-cases = elim (Result-cases (decode_signals {F = F} f.can_id (valid_bytes f))) [
    | inl (signals, r) ↦ inl (signals, rw (r, parse_frame))
    | inr (e, r) ↦ inr (e, rw (r, parse_frame))
  ]
