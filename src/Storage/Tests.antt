-- ===== src/Storage/Tests.antt =====
-- Saving, loading and training with a store that keeps what it is given.
use can_sentinental.Prelude.{
  ◌≡◌, refl, true, List, [], ◌∷◌, none, some, Option, Result, ok, raise, value_error, ◌⊎◌, inl, inr,
  Error,
}
use can_sentinental.Prelude.Int.{ℤ, pos}
use can_sentinental.Prelude.Text.{codes}
use can_sentinental.Floats.Fixed.{micro}
use can_sentinental.Model.{Sklearn, Matrix, Metrics, predict}
use can_sentinental.Storage.{
  Pipeline, Payload, Metadata, MetadataKeys, Library, Files, Disk, complete, refused,
  feature_columns, save, load, train_pipeline,
}
use can_sentinental.Parser.{num, text}
use can_sentinental.Logger.{Line, header, written}
use can_sentinental.Storage.Saving.{IsSound}
use can_sentinental.Storage.Roundtrip.{
  IsFaithful, IsUnsaved, load-save-predict, train_pipeline-load,
}
use can_sentinental.Model.Samples.{np, forest_of, first_feature}

abbrev pub sk : Sklearn ℤ (Unit {0}) (Unit {0})
sk = forest_of first_feature

-- A file holds a payload or metadata.
abbrev pub Content : Type 0
Content = Payload ℤ (Unit {0}) (Unit {0}) ⊎ Metadata ℤ

abbrev read_payload : Content → Result (Payload ℤ (Unit {0}) (Unit {0}))
read_payload (inl p) = ok p
read_payload (inr m) = raise value_error

abbrev read_metadata : Content → Result MetadataKeys
read_metadata (inl p) = raise value_error
read_metadata (inr m) =
    ok (record { model_type = some m.model_type; n_estimators = some m.n_estimators })

abbrev pub lib : Library ℤ (Unit {0}) (Unit {0}) Content
lib = record {
  dump = λ p. inl p;
  load_payload = read_payload;
  dump_json = λ m. inr m;
  load_json = read_metadata;
  size = λ d. 100;
  new_scaler = tt;
  new_forest = λ n c. tt;
  mean_of = λ s. [];
  scale_of = λ s. [];
}

pub lib-IsFaithful : IsFaithful lib
lib-IsFaithful = record { joblib = λ p. refl; json = λ m. refl }

-- A dataset of one frame.
abbrev file : List Line
file =
    header ("can_id" ∷ "dlc" ∷ "timestamp" ∷ "label" ∷ [])
    ∷ written (
        ("can_id", num 272)
        ∷ ("dlc", num 0)
        ∷ ("timestamp", text (codes "1.500000"))
        ∷ ("label", text (codes "NORMAL"))
        ∷ [])
    ∷ []

-- A disk that takes every write, and one that refuses the metadata.
abbrev pub sound : Disk Content
sound = record { make_dirs = none; model_write = complete; metadata_write = complete }

abbrev half : Disk Content
half = record { make_dirs = none; model_write = complete; metadata_write = refused value_error }

abbrev pub no_files : Files Content
no_files = record { model_file = none; metadata_file = none }

abbrev pub trained : Pipeline ℤ (Unit {0}) (Unit {0})
trained = record {
  core = record {
    contamination = pos 20000;
    scaler = tt;
    forest = tt;
    is_trained = true;
    threshold = pos 7;
  };
  n_estimators = 100;
  feature_names = feature_columns;
}

pub saves : (save lib sound (codes "now") trained no_files).0 ≡ ok tt
unfolding save
saves = refl

-- The model is written, and the call raises.
saves_half :
    let (r, after) = save lib half (codes "now") trained no_files in
    (r ≡ raise value_error)
    × (after.metadata_file ≡ none)
    × ((q : Pipeline ℤ (Unit {0}) (Unit {0})) × (load lib after ≡ ok q))
unfolding save load
saves_half = (refl, refl, (_, refl))

load-save-predict_example :
    (q : Pipeline ℤ (Unit {0}) (Unit {0})) × (load lib
        (save lib sound (codes "now") trained no_files).1
      ≡ ok q)
    × ((x : Matrix ℤ) → predict sk q.core x ≡ predict sk trained.core x)
    × (q.core.threshold ≡ pos 7)
    × (q.feature_names ≡ feature_columns)
load-save-predict_example =
    load-save-predict lib np sk sound (codes "now") trained no_files lib-IsFaithful refl saves

train_pipeline-load_example :
    ((p : Pipeline ℤ (Unit {0}) (Unit {0})) × (metrics : Option (Metrics ℤ)) × (after : Files
        Content)
      × (train_pipeline np sk lib half (codes "now") (some file) none no_files
          ≡ (ok (p, metrics), after))
      × (load lib after ≡ ok p)
      × (p.feature_names ≡ feature_columns))
    ⊎ ((e : Error) × (after : Files Content) × (train_pipeline np sk lib half
            (codes "now")
            (some file)
            none
            no_files
          ≡ (raise e, after))
        × IsUnsaved lib no_files after
        × (IsSound half → after ≡ no_files))
train_pipeline-load_example =
    train_pipeline-load lib np sk half (codes "now") (some file) none no_files lib-IsFaithful
