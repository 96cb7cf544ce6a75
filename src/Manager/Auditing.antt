-- ===== src/Manager/Auditing.antt =====
-- src/ml/model_manager.py: what the audit says of a model that was saved.
use can_sentinental.Prelude.{
  ◌≡◌, refl, ap, ◌∙◌, true, length, List, [], ◌∷◌, some, none, ok, raise, file_not_found_error,
  arith, ◌↔◌,
}
use can_sentinental.Prelude.Text.{Text, codes, text_eq, text_eq-eq, text_eq_refl}
use can_sentinental.Floats.{FloatOps}
use can_sentinental.Storage.{payload_of, Pipeline, Library, Files, Disk, feature_columns, save}
use can_sentinental.Storage.Roundtrip.{IsFaithful, load-dump}
use can_sentinental.Storage.Saving.{saved, save-saved}
use can_sentinental.Manager.{Audit, names_eq, audit_model}

names_eq-eq : (ss ts : List Text) → names_eq ss ts ≡ true → ss ≡ ts
names_eq-eq [] [] h = refl
names_eq-eq [] (t ∷ ts) h = cc
names_eq-eq (s ∷ ss) [] h = cc
names_eq-eq (s ∷ ss) (t ∷ ts) h =
    let head : text_eq s t ≡ true = ground arith in
    let tail : names_eq ss ts ≡ true = ground arith in
    λ i. text_eq-eq s t head i ∷ names_eq-eq ss ts tail i

names_eq_refl : (ss : List Text) → names_eq ss ss ≡ true
names_eq_refl [] = refl
names_eq_refl (s ∷ ss) = ground (arith, text_eq_refl s, names_eq_refl ss)

module _ {F S M D : Type 0} ⦃fl : FloatOps F⦄ (lib : Library F S M D) where
  -- Auditing a model whose `save` returned always passes, with its number of trees and its threshold; the
  -- features count as verified exactly if they are the program's, which the verdict does not
  -- depend on. Without the model's file, or without the metadata, the audit raises.
  pub audit_model-save :
      (disk : Disk D) (now : Text) (p : Pipeline F S M) (files : Files D)
      → IsFaithful lib
      → (save lib disk now p files).0 ≡ ok tt
      → ((a : Audit F) × (audit_model lib (save lib disk now p files).1 ≡ ok a)
          × ((a.features_verified ≡ true) ↔ (p.feature_names ≡ feature_columns))
          × (a.n_estimators ≡ p.n_estimators)
          × (a.decision_threshold ≡ p.core.threshold)
          × (a.audit_status ≡ codes "PASSED"))
        × (audit_model lib (record files { model_file = none }) ≡ raise file_not_found_error)
        × ((d : D)
            → audit_model lib (record { model_file = some d; metadata_file = none })
              ≡ raise file_not_found_error)
  unfolding audit_model
  audit_model-save disk now p files h returned = (
    (
      record {
        model_size_bytes = lib.size (lib.dump (payload_of lib p));
        model_type = codes "IsolationForest";
        n_estimators = p.n_estimators;
        decision_threshold = p.core.threshold;
        feature_count = length p.feature_names;
        features_verified = names_eq p.feature_names feature_columns;
        is_trained = true;
        audit_status = codes "PASSED";
      },
      rw
          (
            save-saved lib disk now p files returned,
            h.json,
            load-dump lib p (saved lib now p) h refl,
          )
          refl,
      (
        names_eq-eq p.feature_names feature_columns,
        λ same. ap (λ names. names_eq names feature_columns) same ∙ names_eq_refl feature_columns,
      ),
      refl,
      refl,
      refl,
    ),
    refl,
    λ d. refl,
  )
