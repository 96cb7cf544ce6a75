-- ===== src/Manager/Tests.antt =====
-- The manager on files that hold a model.
use can_sentinental.Prelude.{
  ◌≡◌, false, true, none, some, ok, raise, file_not_found_error, ◌⊎◌, ◌↔◌, arith,
}
use can_sentinental.Prelude.Int.{ℤ, pos}
use can_sentinental.Prelude.Text.{codes}
use can_sentinental.Floats.Fixed.{micro}
use can_sentinental.Storage.{Pipeline, feature_columns, save}
use can_sentinental.Model.Samples.{np}
use can_sentinental.Storage.Tests.{
  sk, lib, saves, sound, Content, lib-IsFaithful, no_files, trained,
}
use can_sentinental.Manager.{ModelManager, Audit, get_or_train_model, audit_model}
use can_sentinental.Manager.Cache.{IsCoherent, IsRaised, get_or_train_model-IsCoherent}
use can_sentinental.Manager.Auditing.{audit_model-save}

abbrev started : ModelManager ℤ (Unit {0}) (Unit {0}) Content
started = record { cached_model = none; files = (save lib sound (codes "now") trained no_files).1 }

started-IsCoherent : IsCoherent lib started
started-IsCoherent m found = absurd (ground arith)

get_or_train_model-IsCoherent_example :
    ((m : Pipeline ℤ (Unit {0}) (Unit {0})) × (after : ModelManager ℤ (Unit {0}) (Unit {0}) Content)
      × (get_or_train_model np sk lib sound (codes "now") none none false started ≡ (ok m, after))
      × IsCoherent lib after
      × (get_or_train_model np sk lib sound (codes "now") none none false after ≡ (ok m, after))
      × (get_or_train_model np sk lib sound
            (codes "now")
            none
            none
            false
            (record after { cached_model = none })
          ≡ (ok m, after)))
    ⊎ IsRaised np sk lib sound
        (codes "now")
        none
        none
        started
        (get_or_train_model np sk lib sound (codes "now") none none false started)
get_or_train_model-IsCoherent_example =
    get_or_train_model-IsCoherent np sk lib sound (codes "now") none none false started
      lib-IsFaithful started-IsCoherent

audit_model-save_example :
    ((a : Audit ℤ) × (audit_model lib (save lib sound (codes "now") trained no_files).1 ≡ ok a)
      × ((a.features_verified ≡ true) ↔ (feature_columns ≡ feature_columns))
      × (a.n_estimators ≡ 100)
      × (a.decision_threshold ≡ pos 7)
      × (a.audit_status ≡ codes "PASSED"))
    × (audit_model lib (record no_files { model_file = none }) ≡ raise file_not_found_error)
    × ((d : Content)
        → audit_model lib (record { model_file = some d; metadata_file = none })
          ≡ raise file_not_found_error)
audit_model-save_example =
    audit_model-save lib sound (codes "now") trained no_files lib-IsFaithful saves
