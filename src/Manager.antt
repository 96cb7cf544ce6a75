-- ===== src/Manager.antt =====
-- src/ml/model_manager.py: `ModelManager`, with the class's cached model as state beside the files.
pub mod Cache
pub mod Auditing
mod Tests
use can_sentinental.Prelude.{
  ℕ, Bool, true, false, not, ◌&&◌, List, [], ◌∷◌, Option, none, some, length, if◌then◌else◌, Result,
  ok, raise, ◌>>=◌, file_not_found_error,
}
use can_sentinental.Prelude.Text.{Text, codes, text_eq}
use can_sentinental.Floats.{FloatOps}
use can_sentinental.Features.{NumpyStats}
use can_sentinental.Logger.{Line}
use can_sentinental.Model.{Sklearn, Metrics}
use can_sentinental.Storage.{
  Pipeline, Library, Files, Disk, content, feature_columns, or_default, load, train_pipeline,
}

pub record ModelManager (F S M D : Type 0) : Type 0 where
  pub cached_model : Option (Pipeline F S M)
  pub files : Files D

-- What `audit_model` returns; the model's path is left out.
pub record Audit (F : Type 0) : Type 0 where
  pub model_size_bytes : ℕ
  pub model_type : Text
  pub n_estimators : ℕ
  pub decision_threshold : F
  pub feature_count : ℕ
  pub features_verified : Bool
  pub is_trained : Bool
  pub audit_status : Text

-- s == t on lists of texts
abbrev pub names_eq : List Text → List Text → Bool
names_eq [] [] = true
names_eq [] (t ∷ ts) = false
names_eq (s ∷ ss) [] = false
names_eq (s ∷ ss) (t ∷ ts) = text_eq s t && names_eq ss ts

module _ {F S M D : Type 0} ⦃fl : FloatOps F⦄ (np : NumpyStats F) (sk : Sklearn F S M)
    (lib : Library F S M D) (disk : Disk D) (now : Text) (train_csv : Option (List Line))
    (eval_csv : Option (Option (List Line))) where
  -- Training, and from its result on.
  unfoldable pub after_pipeline :
      Result (Pipeline F S M × Option (Metrics F)) × Files D
      → ModelManager F S M D
      → Result (Pipeline F S M) × ModelManager F S M D
  after_pipeline (ok (model, _), files) s =
      (ok model, record { cached_model = some model; files = files })
  after_pipeline (raise e, files) s = (raise e, record s { files = files })

  unfoldable pub train_new : ModelManager F S M D → Result (Pipeline F S M) × ModelManager F S M D
  unfolding after_pipeline
  train_new s = after_pipeline (train_pipeline np sk lib disk now train_csv eval_csv s.files) s

  -- From the attempt to load on: any exception is printed, and a new model is trained.
  unfoldable pub after_load :
      Result (Pipeline F S M)
      → ModelManager F S M D
      → Result (Pipeline F S M) × ModelManager F S M D
  unfolding train_new
  after_load (ok model) s = (ok model, record s { cached_model = some model })
  after_load (raise e) s = train_new s

  -- From the cache's content on.
  unfoldable pub without_cache :
      Bool → Option D → ModelManager F S M D → Result (Pipeline F S M) × ModelManager F S M D
  unfolding after_load
  without_cache force none s = train_new s
  without_cache true (some d) s = train_new s
  without_cache false (some d) s = after_load (load lib s.files) s

  -- From the cached model on.
  unfoldable pub with_cache :
      Bool
      → Option (Pipeline F S M)
      → ModelManager F S M D
      → Result (Pipeline F S M) × ModelManager F S M D
  unfolding without_cache
  with_cache force none s = without_cache force s.files.model_file s
  with_cache true (some model) s = without_cache true s.files.model_file s
  with_cache false (some model) s = (ok model, s)

  unfoldable pub get_or_train_model :
      Bool → ModelManager F S M D → Result (Pipeline F S M) × ModelManager F S M D
  unfolding with_cache
  get_or_train_model force_retrain s = with_cache force_retrain s.cached_model s

module _ {F S M D : Type 0} ⦃fl : FloatOps F⦄ (lib : Library F S M D) where
  unfoldable pub audit_model : Files D → Result (Audit F)
  audit_model files = do
    model_data ← content files.model_file
    meta_data ← content files.metadata_file
    metadata ← lib.load_json meta_data
    model ← load lib files
    ok (record {
      model_size_bytes = lib.size model_data;
      model_type = or_default (codes "Unknown") metadata.model_type;
      n_estimators = or_default 100 metadata.n_estimators;
      decision_threshold = model.core.threshold;
      feature_count = length model.feature_names;
      features_verified = names_eq model.feature_names feature_columns;
      is_trained = model.core.is_trained;
      audit_status = codes "PASSED";
    })
