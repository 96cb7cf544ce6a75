-- ===== src/Features/Offline.antt =====
-- src/ml/features.py: the streaming extractor against the features as they are defined on the whole
-- list of the frames since its last reset.
use mathlib.Core.List.{map-append}
use mathlib.Core.Path.{ap₂}
use can_sentinental.Prelude.{
  ℕ, ◌-◌, ◌≡◌, refl, sym, ap, ◌∙◌, List, [], ◌∷◌, ◌++◌, length, take, map, Option, none, some, ltb,
  ◌==◌, if◌then◌else◌, arith, drop-of-le,
}
use can_sentinental.Prelude.Dict.{lookup, lookup-insert}
use can_sentinental.Prelude.Deque.{append, last_n, append-last_n}
use can_sentinental.Struct.{Bytes}
use can_sentinental.Floats.{FloatOps, zero_float, of_nat}
use can_sentinental.Frame.{CanFrame}
use can_sentinental.Features.{
  NumpyStats, Features, StreamingFeatureExtractor, new_extractor, extract_features, reset, count,
  delta_since, calculate_shannon_entropy, calculate_byte_stats, calculate_payload_change_rate,
}
use can_sentinental.Features.Window.{extract_frame}

-- The payload as far as the DLC goes.
abbrev pub valid_payload : {F : Type 0} → CanFrame F → Bytes
valid_payload f = take f.dlc f.payload

-- What the last of the frames with an identifier has.
abbrev pub last_of : {F B : Type 0} → (CanFrame F → B) → ℕ → List (CanFrame F) → Option B
last_of value can_id [] = none
last_of value can_id (f ∷ fs) = elim (last_of value can_id fs) [
  | none ↦ if f.can_id == can_id then some (value f) else none
  | some v ↦ some v
]

-- The time of the last frame.
abbrev pub last_time : {F : Type 0} → List (CanFrame F) → Option F
last_time [] = none
last_time (f ∷ []) = some f.timestamp
last_time (f ∷ g ∷ fs) = last_time (g ∷ fs)

abbrev pub identifiers : {F : Type 0} → List (CanFrame F) → List ℕ
identifiers fs = map (λ f. f.can_id) fs

module _ {F B : Type 0} (value : CanFrame F → B) where
  last_of-append :
      (can_id : ℕ) (fs : List (CanFrame F)) (f : CanFrame F)
      → last_of value can_id (fs ++ f ∷ [])
        ≡ (if f.can_id == can_id then some (value f) else last_of value can_id fs)
  last_of-append can_id [] f = refl
  last_of-append can_id (g ∷ fs) f = ground (arith, last_of-append can_id fs f)

last_time-append :
    {F : Type 0} (fs : List (CanFrame F)) (f : CanFrame F)
    → last_time (fs ++ f ∷ []) ≡ some f.timestamp
last_time-append [] f = refl
last_time-append (g ∷ []) f = refl
last_time-append (g ∷ h ∷ fs) f = last_time-append (h ∷ fs) f

module _ {F : Type 0} ⦃fl : FloatOps F⦄ (np : NumpyStats F) (size : ℕ) where
  -- The features of a frame after others, from the definitions alone.
  unfoldable pub offline : List (CanFrame F) → CanFrame F → Features F
  offline seen f =
      let window = last_n size (identifiers seen ++ f.can_id ∷ []) in
      let occurrences = count f.can_id window in
      let (byte_mean, byte_var) = calculate_byte_stats np f.payload f.dlc in
      record {
        can_id = of_nat f.can_id;
        dlc = of_nat f.dlc;
        delta_t = delta_since np f.timestamp (last_of (λ g. g.timestamp) f.can_id seen);
        global_delta_t = delta_since np f.timestamp (last_time seen);
        entropy = calculate_shannon_entropy (valid_payload f);
        byte_mean = byte_mean;
        byte_variance = byte_var;
        id_freq_window = of_nat occurrences;
        id_ratio_window =
            if ltb 0 (length window)
            then fl.div (of_nat occurrences) (of_nat (length window))
            else zero_float;
        payload_change_rate =
            calculate_payload_change_rate (valid_payload f) (last_of valid_payload f.can_id seen);
      }

  -- The extractor's state stands for the frames seen.
  pub record Represents (seen : List (CanFrame F)) (e : StreamingFeatureExtractor F) : Type 0 where
    pub bound : e.window_size ≡ size
    pub recent : e.window ≡ last_n size (identifiers seen)
    pub times :
        (can_id : ℕ)
        → lookup can_id e.last_timestamp_per_id ≡ last_of (λ g. g.timestamp) can_id seen
    pub payloads :
        (can_id : ℕ) → lookup can_id e.last_payload_per_id ≡ last_of valid_payload can_id seen
    pub latest : e.last_global_timestamp ≡ last_time seen

  empty-last_n : ◌≡◌ {A = List ℕ} [] (last_n size [])
  empty-last_n = sym (drop-of-le (0 - size) [] (omega arith))

  new_extractor-Represents : Represents [] (new_extractor size)
  unfolding lookup
  new_extractor-Represents = record {
    bound = refl;
    recent = empty-last_n;
    times = λ can_id. refl;
    payloads = λ can_id. refl;
    latest = refl;
  }

  reset-Represents :
      (seen : List (CanFrame F)) (e : StreamingFeatureExtractor F)
      → Represents seen e
      → Represents [] (reset e)
  unfolding reset lookup
  reset-Represents seen e r = record {
    bound = r.bound;
    recent = empty-last_n;
    times = λ can_id. refl;
    payloads = λ can_id. refl;
    latest = refl;
  }

  module _ (seen : List (CanFrame F)) (f : CanFrame F) (e : StreamingFeatureExtractor F)
      (r : Represents seen e) where
    window-extract :
        append e.window_size f.can_id e.window ≡ last_n size (identifiers seen ++ f.can_id ∷ [])
    window-extract =
        ap₂ (λ n w. append n f.can_id w) r.bound r.recent
        ∙ append-last_n size f.can_id (identifiers seen)

    extract_frame-Represents :
        ((extract_frame np f e).0 ≡ offline seen f)
        × Represents (seen ++ f ∷ []) (extract_frame np f e).1
    unfolding extract_features offline
    extract_frame-Represents = (
      rw (window-extract, r.times f.can_id, r.payloads f.can_id, r.latest) refl,
      record {
        bound = r.bound;
        recent = window-extract ∙ ap (last_n size) (sym (map-append (λ g. g.can_id) seen (f ∷ [])));
        times = λ can_id.
            lookup-insert f.can_id can_id f.timestamp e.last_timestamp_per_id
            ∙ ap (λ o. if f.can_id == can_id then some f.timestamp else o) (r.times can_id)
            ∙ sym (last_of-append (λ g. g.timestamp) can_id seen f);
        payloads = λ can_id.
            lookup-insert f.can_id can_id (valid_payload f) e.last_payload_per_id
            ∙ ap (λ o. if f.can_id == can_id then some (valid_payload f) else o) (r.payloads can_id)
            ∙ sym (last_of-append (valid_payload) can_id seen f);
        latest = sym (last_time-append seen f);
      },
    )

-- A call on the extractor.
pub data Call (F : Type 0) : Type 0 where
  frame : CanFrame F → Call F
  forget : Call F

module _ {F : Type 0} ⦃fl : FloatOps F⦄ (np : NumpyStats F) where
  -- The feature vectors that calls return, in their order.
  unfoldable pub run : List (Call F) → StreamingFeatureExtractor F → List (Features F)
  run [] e = []
  run (frame f ∷ calls) e = let (v, e') = extract_frame np f e in v ∷ run calls e'
  run (forget ∷ calls) e = run calls (reset e)

  -- The same calls, on the list of the frames since the last reset.
  unfoldable pub replay : ℕ → List (Call F) → List (CanFrame F) → List (Features F)
  replay size [] seen = []
  replay size (frame f ∷ calls) seen = offline np size seen f ∷ replay size calls (seen ++ f ∷ [])
  replay size (forget ∷ calls) seen = replay size calls []

  run-Represents :
      (size : ℕ) (calls : List (Call F)) (seen : List (CanFrame F))
      (e : StreamingFeatureExtractor F)
      → Represents np size seen e
      → run calls e ≡ replay size calls seen
  unfolding run replay
  run-Represents size [] seen e r = refl
  run-Represents size (frame f ∷ calls) seen e r =
      let (same, kept) = extract_frame-Represents np size seen f e r in
      ap₂ (λ v vs. v ∷ vs) same
        (run-Represents size calls (seen ++ f ∷ []) (extract_frame np f e).1 kept)
  run-Represents size (forget ∷ calls) seen e r =
      run-Represents size calls [] (reset e) (reset-Represents np size seen e r)

  -- Any sequence of calls of `extract_features` and `reset` on a new extractor returns the feature
  -- vectors that the definitions give on the whole list of the frames since the last reset: the
  -- times since the last frame of the identifier and of all, the changes against the identifier's
  -- last payload, and the identifier's share of the last identifiers that fit the window.
  pub run_refines :
      (size : ℕ) (calls : List (Call F)) → run calls (new_extractor size) ≡ replay size calls []
  run_refines size calls =
      run-Represents size calls [] (new_extractor size) (new_extractor-Represents np size)
