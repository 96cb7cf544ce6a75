-- ===== src/Storage.antt =====
-- src/ml/train_isolation_forest.py: `save`, `load` and `train_pipeline`, and `FEATURE_COLUMNS` of
-- src/ml/features.py. What joblib and the json module write and read is a parameter, as are the
-- fresh scaler and forest, and so is what the disk does to each write. `max_samples` and
-- `random_state` only reach the forest when it is made, so they are in `new_forest`.
pub mod Roundtrip
pub mod Saving
pub mod Tests
use can_sentinental.Prelude.{
  ℕ, Bool, true, false, List, [], ◌∷◌, Option, none, some, Result, ok, raise, ◌>>=◌,
  file_not_found_error, key_error, Error,
}
use can_sentinental.Prelude.Text.{Text, codes}
use can_sentinental.Floats.{FloatOps, zero_float}
use can_sentinental.Features.{NumpyStats}
use can_sentinental.Csv.{extract_features_from_csv}
use can_sentinental.Logger.{Line}
use can_sentinental.Model.{Sklearn, CanIsolationForestModel, Metrics, fit, evaluate}

abbrev pub feature_columns : List Text
feature_columns =
    codes "can_id"
    ∷ codes "dlc"
    ∷ codes "delta_t"
    ∷ codes "global_delta_t"
    ∷ codes "entropy"
    ∷ codes "byte_mean"
    ∷ codes "byte_variance"
    ∷ codes "id_freq_window"
    ∷ codes "id_ratio_window"
    ∷ codes "payload_change_rate"
    ∷ []

-- The model with the rest of its fields.
pub record Pipeline (F S M : Type 0) : Type 0 where
  pub core : CanIsolationForestModel F S M
  pub n_estimators : ℕ
  pub feature_names : List Text

-- What joblib finds in a model file: the dictionary, key by key.
pub record Payload (F S M : Type 0) : Type 0 where
  pub scaler : Option S
  pub forest : Option M
  pub threshold : Option F
  pub feature_names : Option (List Text)

pub record Metadata (F : Type 0) : Type 0 where
  pub model_type : Text
  pub n_estimators : ℕ
  pub contamination : F
  pub threshold : F
  pub feature_names : List Text
  pub created_at : Text
  pub scaler_mean : List F
  pub scaler_scale : List F

-- The keys that are read from a metadata file.
pub record MetadataKeys : Type 0 where
  pub model_type : Option Text
  pub n_estimators : Option ℕ

-- joblib, the json module, and fresh objects of scikit-learn; `D` is a file's content.
pub record Library (F S M D : Type 0) : Type 0 where
  pub dump : Payload F S M → D
  pub load_payload : D → Result (Payload F S M)
  pub dump_json : Metadata F → D
  pub load_json : D → Result MetadataKeys
  pub size : D → ℕ
  -- StandardScaler() and IsolationForest(n_estimators, contamination)
  pub new_scaler : S
  pub new_forest : ℕ → F → M
  -- scaler.mean_ and scaler.scale_, or [] where the scaler has none
  pub mean_of : S → List F
  pub scale_of : S → List F

-- The files at the model's path and at the metadata's, which differ; `none` is no file.
pub record Files (D : Type 0) : Type 0 where
  pub model_file : Option D
  pub metadata_file : Option D

-- What becomes of opening a file and writing to it: all is written; nothing is changed, and it
-- raises; or it raises when a part is written.
pub data Write (D : Type 0) : Type 0 where
  complete : Write D
  refused : Error → Write D
  broken : Error → D → Write D

-- What a `save` meets: whether making the directories raises, and its two writes.
pub record Disk (D : Type 0) : Type 0 where
  pub make_dirs : Option Error
  pub model_write : Write D
  pub metadata_write : Write D

-- Opening the file at a path: what it holds, where it exists.
abbrev pub content : {D : Type 0} → Option D → Result D
content none = raise file_not_found_error
content (some d) = ok d

-- payload[key]
abbrev pub required : {A : Type 0} → Option A → Result A
required none = raise key_error
required (some a) = ok a

-- d.get(key, default)
abbrev pub or_default : {A : Type 0} → A → Option A → A
or_default a none = a
or_default a (some b) = b

module _ {F S M D : Type 0} ⦃fl : FloatOps F⦄ (lib : Library F S M D) where
  unfoldable pub new_pipeline : ℕ → F → Pipeline F S M
  new_pipeline n_estimators contamination = record {
    core = record {
      contamination = contamination;
      scaler = lib.new_scaler;
      forest = lib.new_forest n_estimators contamination;
      is_trained = false;
      threshold = zero_float;
    };
    n_estimators = n_estimators;
    feature_names = feature_columns;
  }

  abbrev pub payload_of : Pipeline F S M → Payload F S M
  payload_of p = record {
    scaler = some p.core.scaler;
    forest = some p.core.forest;
    threshold = some p.core.threshold;
    feature_names = some p.feature_names;
  }

  abbrev pub metadata_of : Text → Pipeline F S M → Metadata F
  metadata_of now p = record {
    model_type = codes "IsolationForest";
    n_estimators = p.n_estimators;
    contamination = p.core.contamination;
    threshold = p.core.threshold;
    feature_names = p.feature_names;
    created_at = now;
    scaler_mean = lib.mean_of p.core.scaler;
    scaler_scale = lib.scale_of p.core.scaler;
  }

  -- A write, and what stands at the path afterwards.
  unfoldable pub write_file : Write D → D → Option D → Result (Unit {0}) × Option D
  write_file complete d old = (ok tt, some d)
  write_file (refused e) d old = (raise e, old)
  write_file (broken e part) d old = (raise e, some part)

  unfoldable pub save_metadata :
      Disk D → Text → Pipeline F S M → Result (Unit {0}) × Files D → Result (Unit {0}) × Files D
  unfolding write_file
  save_metadata disk now p (raise e, files) = (raise e, files)
  save_metadata disk now p (ok _, files) =
      let (r, metadata_file) =
        write_file disk.metadata_write (lib.dump_json (metadata_of now p)) files.metadata_file in
      (r, record files { metadata_file = metadata_file })

  unfoldable pub save_model :
      Disk D → Pipeline F S M → Option Error → Files D → Result (Unit {0}) × Files D
  unfolding write_file
  save_model disk p (some e) files = (raise e, files)
  save_model disk p none files =
      let (r, model_file) =
        write_file disk.model_write (lib.dump (payload_of p)) files.model_file in
      (r, record files { model_file = model_file })

  -- The directories, the model and then the metadata; a raise leaves what was written before it.
  unfoldable pub save : Disk D → Text → Pipeline F S M → Files D → Result (Unit {0}) × Files D
  unfolding save_model save_metadata
  save disk now p files = save_metadata disk now p (save_model disk p disk.make_dirs files)

  -- The metadata's path is not read.
  unfoldable pub load : Files D → Result (Pipeline F S M)
  unfolding new_pipeline
  load files = do
    d ← content files.model_file
    payload ← lib.load_payload d
    let instance_ = new_pipeline 150 (fl.lit 3 2)
    scaler ← required payload.scaler
    forest ← required payload.forest
    ok (record instance_ {
      core = record instance_.core {
        scaler = scaler;
        forest = forest;
        threshold = or_default zero_float payload.threshold;
        is_trained = true;
      };
      feature_names = or_default feature_columns payload.feature_names;
    })

module _ {F S M : Type 0} ⦃fl : FloatOps F⦄ (np : NumpyStats F) (sk : Sklearn F S M) where
  -- The metrics on the attack dataset, where its path is given and there is such a file.
  unfoldable pub validate :
      Option (Option (List Line)) → CanIsolationForestModel F S M → Result (Option (Metrics F))
  validate (some (some attack_csv)) model = do
    (x_test, y_test) ← extract_features_from_csv np (some attack_csv)
    metrics ← evaluate sk model x_test y_test
    ok (some metrics)
  validate (some none) model = ok none
  validate none model = ok none

module _ {F S M D : Type 0} ⦃fl : FloatOps F⦄ (np : NumpyStats F) (sk : Sklearn F S M)
    (lib : Library F S M D) where
  -- Loading, fitting and validation, before anything is written.
  unfoldable pub train :
      Option (List Line)
      → Option (Option (List Line))
      → Result (Pipeline F S M × Option (Metrics F))
  unfolding new_pipeline validate
  train normal_csv attack_csv = do
    (x_train, y_train) ← extract_features_from_csv np normal_csv
    let p = new_pipeline lib 150 (fl.lit 3 2)
    model ← fit sk x_train p.core
    metrics ← validate np sk attack_csv model
    ok (record p { core = model }, metrics)

  abbrev pub after_save :
      Pipeline F S M × Option (Metrics F)
      → Result (Unit {0}) × Files D
      → Result (Pipeline F S M × Option (Metrics F)) × Files D
  after_save trained (ok _, files) = (ok trained, files)
  after_save trained (raise e, files) = (raise e, files)

  unfoldable pub after_train :
      Disk D
      → Text
      → Result (Pipeline F S M × Option (Metrics F))
      → Files D
      → Result (Pipeline F S M × Option (Metrics F)) × Files D
  unfolding save
  after_train disk now (ok (p, metrics)) files = after_save (p, metrics) (save lib disk now p files)
  after_train disk now (raise e) files = (raise e, files)

  unfoldable pub train_pipeline :
      Disk D
      → Text
      → Option (List Line)
      → Option (Option (List Line))
      → Files D
      → Result (Pipeline F S M × Option (Metrics F)) × Files D
  unfolding train after_train
  train_pipeline disk now normal_csv attack_csv files =
      after_train disk now (train normal_csv attack_csv) files
