-- ===== src/Features.antt =====
-- src/ml/features.py: `FeatureExtractor` and `StreamingFeatureExtractor`. NumPy's mean and variance
-- of the bytes are parameters; an array is a list.
pub mod Window
pub mod Change
pub mod Offline
mod Tests
use can_sentinental.Prelude.{
  ℕ, zero, suc, ◌+◌, ◌-◌, Bool, true, false, not, List, [], ◌∷◌, length, take, is_empty, Option,
  none, some, ltb, ◌==◌, ◌||◌, if◌then◌else◌,
}
use can_sentinental.Prelude.Dict.{Dict, lookup, insert}
use can_sentinental.Prelude.Counter.{counter}
use can_sentinental.Prelude.Deque.{append}
use can_sentinental.Struct.{Bytes}
use can_sentinental.Floats.{FloatOps, zero_float, of_nat, max_float}

-- np.mean and np.var of a list of integers
pub record NumpyStats (F : Type 0) : Type 0 where
  pub mean : List ℕ → F
  pub var : List ℕ → F

-- The loop over the positions that both payloads have.
abbrev pub differing : Bytes → Bytes → ℕ
differing [] ys = 0
differing (x ∷ xs) [] = 0
differing (x ∷ xs) (y ∷ ys) = (if x == y then 0 else 1) + differing xs ys

-- abs(a - b)
abbrev pub abs_diff : ℕ → ℕ → ℕ
abs_diff a b = if ltb a b then b - a else a - b

-- The number of changes, before its conversion to a float.
abbrev pub changes : Bytes → Bytes → ℕ
changes curr prev = differing curr prev + abs_diff (length curr) (length prev)

-- list.count
abbrev pub count : ℕ → List ℕ → ℕ
count x [] = 0
count x (y ∷ ys) = (if y == x then 1 else 0) + count x ys

module _ {F : Type 0} ⦃fl : FloatOps F⦄ where
  unfoldable pub entropy_loop : ℕ → Dict ℕ → F → F
  entropy_loop total [] entropy = entropy
  entropy_loop total ((_, count) ∷ counts) entropy =
      let p = fl.div (of_nat count) (of_nat total) in
      entropy_loop total counts (fl.sub entropy (fl.mul p (fl.log2 p)))

  unfoldable pub calculate_shannon_entropy : Bytes → F
  unfolding entropy_loop counter
  calculate_shannon_entropy bytes =
      if is_empty bytes then zero_float else entropy_loop (length bytes) (counter bytes) zero_float

  unfoldable pub calculate_byte_stats : NumpyStats F → Bytes → ℕ → F × F
  calculate_byte_stats np bytes dlc =
      if is_empty bytes || dlc == 0
      then (zero_float, zero_float)
      else let valid_bytes = take dlc bytes in (np.mean valid_bytes, np.var valid_bytes)

  unfoldable pub calculate_payload_change_rate : Bytes → Option Bytes → F
  calculate_payload_change_rate curr none = zero_float
  calculate_payload_change_rate curr (some prev) = of_nat (changes curr prev)

pub record StreamingFeatureExtractor (F : Type 0) : Type 0 where
  pub window_size : ℕ
  pub window : List ℕ
  pub last_timestamp_per_id : Dict F
  pub last_payload_per_id : Dict Bytes
  pub last_global_timestamp : Option F

-- The entries of the feature vector, in the order of FEATURE_COLUMNS.
pub record Features (F : Type 0) : Type 0 where
  pub can_id : F
  pub dlc : F
  pub delta_t : F
  pub global_delta_t : F
  pub entropy : F
  pub byte_mean : F
  pub byte_variance : F
  pub id_freq_window : F
  pub id_ratio_window : F
  pub payload_change_rate : F

abbrev pub as_array : {F : Type 0} → Features F → List F
as_array v =
    v.can_id ∷ v.dlc ∷ v.delta_t ∷ v.global_delta_t ∷ v.entropy ∷ v.byte_mean ∷ v.byte_variance
    ∷ v.id_freq_window ∷ v.id_ratio_window ∷ v.payload_change_rate ∷ []

module _ {F : Type 0} where
  -- __init__
  abbrev pub new_extractor : ℕ → StreamingFeatureExtractor F
  new_extractor window_size = record {
    window_size = window_size;
    window = [];
    last_timestamp_per_id = [];
    last_payload_per_id = [];
    last_global_timestamp = none;
  }

  unfoldable pub reset : StreamingFeatureExtractor F → StreamingFeatureExtractor F
  reset e = record e {
    window = [];
    last_timestamp_per_id = [];
    last_payload_per_id = [];
    last_global_timestamp = none;
  }

module _ {F : Type 0} ⦃fl : FloatOps F⦄ (np : NumpyStats F) where
  abbrev pub delta_since : F → Option F → F
  delta_since timestamp none = zero_float
  delta_since timestamp (some last) = max_float zero_float (fl.sub timestamp last)

  -- `extract_features`: the vector, and the state that it leaves.
  unfoldable pub extract_features :
      ℕ → ℕ → Bytes → F → StreamingFeatureExtractor F → Features F × StreamingFeatureExtractor F
  unfolding calculate_shannon_entropy calculate_payload_change_rate
  extract_features can_id dlc bytes timestamp e =
      let payload = take dlc bytes in
      let window = append e.window_size can_id e.window in
      let id_freq = count can_id window in
      let (byte_mean, byte_var) = calculate_byte_stats np bytes dlc in
      (
        record {
          can_id = of_nat can_id;
          dlc = of_nat dlc;
          delta_t = delta_since timestamp (lookup can_id e.last_timestamp_per_id);
          global_delta_t = delta_since timestamp e.last_global_timestamp;
          entropy = calculate_shannon_entropy payload;
          byte_mean = byte_mean;
          byte_variance = byte_var;
          id_freq_window = of_nat id_freq;
          id_ratio_window =
              if ltb 0 (length window)
              then fl.div (of_nat id_freq) (of_nat (length window))
              else zero_float;
          payload_change_rate =
              calculate_payload_change_rate payload (lookup can_id e.last_payload_per_id);
        },
        record e {
          window = window;
          last_timestamp_per_id = insert can_id timestamp e.last_timestamp_per_id;
          last_payload_per_id = insert can_id payload e.last_payload_per_id;
          last_global_timestamp = some timestamp;
        },
      )
