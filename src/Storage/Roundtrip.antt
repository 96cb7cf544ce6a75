-- ===== src/Storage/Roundtrip.antt =====
-- src/ml/train_isolation_forest.py: what is saved is loaded again.
use mathlib.Core.Path.{subst}
use can_sentinental.Prelude.{
  ◌≡◌, refl, sym, ap, ◌∙◌, true, List, [], ◌∷◌, Option, some, Result, ok, raise, arith, bind-ok,
  Result-cases, Error, ◌⊎◌, inl, inr,
}
use can_sentinental.Prelude.Text.{Text}
use can_sentinental.Floats.{FloatOps}
use can_sentinental.Features.{NumpyStats}
use can_sentinental.Csv.{extract_features_from_csv}
use can_sentinental.Logger.{Line}
use can_sentinental.Model.{Sklearn, CanIsolationForestModel, Matrix, Metrics, fit, predict}
use can_sentinental.Storage.{
  Pipeline, Payload, Metadata, Library, Files, Disk, feature_columns, new_pipeline, payload_of,
  save, load, validate, train, after_save, after_train, train_pipeline,
}
use can_sentinental.Storage.Saving.{IsSound, IsLeft, saved, save-IsSaved, save-saved}

module _ {F S M D : Type 0} ⦃fl : FloatOps F⦄ (lib : Library F S M D) where
  -- What is dumped is read back.
  pub record IsFaithful : Type 0 where
    pub joblib : (p : Payload F S M) → lib.load_payload (lib.dump p) ≡ ok p
    pub json :
        (m : Metadata F)
        → lib.load_json (lib.dump_json m)
          ≡ ok (record { model_type = some m.model_type; n_estimators = some m.n_estimators })

  -- The model as it is loaded, trained and with the settings of a new one.
  abbrev pub reloaded : Pipeline F S M → Pipeline F S M
  reloaded p = record p {
    core = record p.core { contamination = fl.lit 3 2; is_trained = true };
    n_estimators = 150;
  }

  -- Loading only needs the model's file.
  pub load-dump :
      (p : Pipeline F S M) (files : Files D)
      → IsFaithful
      → files.model_file ≡ some (lib.dump (payload_of lib p))
      → load lib files ≡ ok (reloaded p)
  unfolding load new_pipeline
  load-dump p files h whole = rw (whole, h.joblib) refl

  pub load-save :
      (disk : Disk D) (now : Text) (p : Pipeline F S M) (files : Files D)
      → IsFaithful
      → (save lib disk now p files).0 ≡ ok tt
      → load lib (save lib disk now p files).1 ≡ ok (reloaded p)
  load-save disk now p files h returned = load-dump p (save lib disk now p files).1 h (
      ap (λ (q : Result (Unit {0}) × Files D). q.1.model_file)
        (save-saved lib disk now p files returned))

  -- What a training that raises leaves: the files as they were, a part of a model's file, or the
  -- whole file of the model that was trained, with metadata that are not its own.
  abbrev pub IsUnsaved : Files D → Files D → Type 0
  IsUnsaved files after =
      (after ≡ files)
      ⊎ (((part : D) × (after ≡ record files { model_file = some part }))
          ⊎ ((p : Pipeline F S M) × (load lib after ≡ ok p)))

  IsLeft-IsUnsaved :
      (p : Pipeline F S M) (files after : Files D)
      → IsFaithful
      → IsLeft lib p files after
      → IsUnsaved files after
  IsLeft-IsUnsaved p files after h (inl same) = inl same
  IsLeft-IsUnsaved p files after h (inr (inl partial)) = inr (inl partial)
  IsLeft-IsUnsaved p files after h (inr (inr whole)) =
      inr (inr (reloaded p, load-dump p after h whole))

  module _ (np : NumpyStats F) (sk : Sklearn F S M) where
    -- A trained model whose `save` returns is loaded again, and predicts on every matrix as it did
    -- before, with the same threshold and feature names.
    pub load-save-predict :
        (disk : Disk D) (now : Text) (p : Pipeline F S M) (files : Files D)
        → IsFaithful
        → p.core.is_trained ≡ true
        → (save lib disk now p files).0 ≡ ok tt
        → (q : Pipeline F S M) × (load lib (save lib disk now p files).1 ≡ ok q)
          × ((x : Matrix F) → predict sk q.core x ≡ predict sk p.core x)
          × (q.core.threshold ≡ p.core.threshold)
          × (q.feature_names ≡ p.feature_names)
    unfolding predict
    load-save-predict disk now p files h t returned =
        (reloaded p, load-save disk now p files h returned, λ x. rw t refl, refl, refl)

    fit-settings :
        (x : Matrix F) (m : CanIsolationForestModel F S M) {m' : CanIsolationForestModel F S M}
        → fit sk x m ≡ ok m'
        → (m'.contamination ≡ m.contamination) × (m'.is_trained ≡ true)
    unfolding fit
    fit-settings [] m h = absurd (ground arith)
    fit-settings (row ∷ x) m h = (ground arith, ground arith)

    -- A new model but for what was fitted.
    abbrev built : CanIsolationForestModel F S M → Pipeline F S M
    built m = record { core = m; n_estimators = 150; feature_names = feature_columns }

    built-reloaded :
        (m : CanIsolationForestModel F S M)
        → (m.contamination ≡ fl.lit 3 2) × (m.is_trained ≡ true)
        → built m ≡ reloaded (built m)
    built-reloaded m (c, t) i = record {
      core = record m { contamination = c i; is_trained = t i };
      n_estimators = 150;
      feature_names = feature_columns;
    }

    -- What training returns is a new model but for what was fitted.
    train-settings :
        (normal_csv : Option (List Line)) (attack_csv : Option (Option (List Line)))
        {p : Pipeline F S M} {metrics : Option (Metrics F)}
        → train np sk lib normal_csv attack_csv ≡ ok (p, metrics)
        → (p ≡ reloaded p) × (p.feature_names ≡ feature_columns)
    unfolding train new_pipeline
    train-settings normal_csv attack_csv {p} {metrics} h =
        let ((x, y), h1, read) = bind-ok (extract_features_from_csv np normal_csv) _ h in
        let (model, h2, fitted) = bind-ok (fit sk x _) _ h1 in
        let (found, h3, valid) = bind-ok (validate np sk attack_csv model) _ h2 in
        let whole : built model ≡ p =
          ap
            (λ (r : Result (Pipeline F S M × Option (Metrics F))).
              (elim r as (λ _. Pipeline F S M × Option (Metrics F)) [
                | ok q ↦ q
                | raise e ↦ (p, metrics)
              ]).0)
            h3 in
        subst (λ q. (q ≡ reloaded q) × (q.feature_names ≡ feature_columns)) whole
          (built-reloaded model (fit-settings x _ fitted), refl)

    -- A training that returns leaves files from which the model that it returned is loaded, with
    -- nothing lost. One that raises leaves the files as they were, if the disk takes every write;
    -- if not, it may also leave a part of the model's file beside the old metadata, or a whole
    -- model's file, from which a model is loaded though none was returned.
    pub train_pipeline-load :
        (disk : Disk D) (now : Text) (normal_csv : Option (List Line))
        (attack_csv : Option (Option (List Line))) (files : Files D)
        → IsFaithful
        → ((p : Pipeline F S M) × (metrics : Option (Metrics F)) × (after : Files D)
            × (train_pipeline np sk lib disk now normal_csv attack_csv files
                ≡ (ok (p, metrics), after))
            × (load lib after ≡ ok p)
            × (p.feature_names ≡ feature_columns))
          ⊎ ((e : Error) × (after : Files D) × (train_pipeline np sk lib disk now normal_csv
                  attack_csv files
                ≡ (raise e, after))
              × IsUnsaved files after
              × (IsSound disk → after ≡ files))
    unfolding train_pipeline after_train
    train_pipeline-load disk now normal_csv attack_csv files h =
        elim (Result-cases (train np sk lib normal_csv attack_csv)) [
          | inl ((p, metrics), e) ↦
              let (same, names) = train-settings normal_csv attack_csv e in
              elim (save-IsSaved lib disk now p files) [
                | inl whole ↦ inl (
                  p,
                  metrics,
                  saved lib now p,
                  rw e (ap (after_save np sk lib (p, metrics)) whole),
                  load-dump p (saved lib now p) h refl ∙ ap ok (sym same),
                  names,
                )
                | inr (err, after, failed, left, unsound) ↦ inr (
                  err,
                  after,
                  rw e (ap (after_save np sk lib (p, metrics)) failed),
                  IsLeft-IsUnsaved p files after h left,
                  λ sound. absurd (unsound sound),
                )
              ]
          | inr (err, e) ↦ inr (err, files, rw e refl, inl refl, λ sound. refl)
        ]
