-- ===== src/Manager/Cache.antt =====
-- src/ml/model_manager.py: the cached model against the files, and the audit of what was trained.
use mathlib.Core.Path.{subst}
use can_sentinental.Prelude.{
  sym, ◌≡◌, refl, ap, Bool, true, false, List, Option, none, some, Result, ok, raise,
  file_not_found_error, ◌⊎◌, inl, inr, Error, Result-cases, arith, ◌∙◌,
}
use can_sentinental.Prelude.Text.{Text}
use can_sentinental.Floats.{FloatOps}
use can_sentinental.Features.{NumpyStats}
use can_sentinental.Logger.{Line}
use can_sentinental.Model.{Sklearn}
use can_sentinental.Storage.{Pipeline, Library, Files, Disk, load}
use can_sentinental.Storage.Saving.{IsSound}
use can_sentinental.Storage.Roundtrip.{IsFaithful, IsUnsaved, train_pipeline-load}
use can_sentinental.Manager.{
  ModelManager, after_pipeline, train_new, after_load, without_cache, with_cache,
  get_or_train_model,
}

module _ {F S M D : Type 0} ⦃fl : FloatOps F⦄ (lib : Library F S M D) where
  -- A cached model is the one that the files hold.
  abbrev pub IsCoherent : ModelManager F S M D → Type 0
  IsCoherent s = (m : Pipeline F S M) → s.cached_model ≡ some m → load lib s.files ≡ ok m

module _ {F S M D : Type 0} ⦃fl : FloatOps F⦄ (np : NumpyStats F) (sk : Sklearn F S M)
    (lib : Library F S M D) where
  module _ (disk : Disk D) (now : Text) (train_csv : Option (List Line))
      (eval_csv : Option (Option (List Line))) where
    abbrev call : Bool → ModelManager F S M D → Result (Pipeline F S M) × ModelManager F S M D
    call = get_or_train_model np sk lib disk now train_csv eval_csv

    -- A call that raises keeps the cached model, and leaves the files as its training does.
    abbrev pub IsRaised :
        ModelManager F S M D → Result (Pipeline F S M) × ModelManager F S M D → Type 0
    IsRaised s q =
        (e : Error) × (files : Files D) × (q ≡ (raise e, record s { files = files }))
        × IsUnsaved lib s.files files
        × (IsSound disk → files ≡ s.files)

    -- A call that returns the model that is cached then and stored, or raises.
    abbrev IsOutcome :
        ModelManager F S M D → Result (Pipeline F S M) × ModelManager F S M D → Type 0
    IsOutcome s q =
        ((m : Pipeline F S M) × (q.0 ≡ ok m)
          × (q.1.cached_model ≡ some m)
          × (load lib q.1.files ≡ ok m))
        ⊎ IsRaised s q

    train_new-IsOutcome :
        (s : ModelManager F S M D)
        → IsFaithful lib
        → IsOutcome s (train_new np sk lib disk now train_csv eval_csv s)
    unfolding train_new after_pipeline
    train_new-IsOutcome s h =
        elim (train_pipeline-load lib np sk disk now train_csv eval_csv s.files h) [
          | inl (p, metrics, after, returned, stored, names) ↦
              subst (λ q. IsOutcome s (after_pipeline np sk lib disk now train_csv eval_csv q s))
                (sym returned) (inl (p, refl, refl, stored))
          | inr (e, files, raised, left, sound) ↦ inr (
            e,
            files,
            ap (λ q. after_pipeline np sk lib disk now train_csv eval_csv q s) raised,
            left,
            sound,
          )
        ]

    after_load-IsOutcome :
        (s : ModelManager F S M D)
        → IsFaithful lib
        → IsOutcome s (after_load np sk lib disk now train_csv eval_csv (load lib s.files) s)
    unfolding after_load
    after_load-IsOutcome s h = elim (Result-cases (load lib s.files)) [
      | inl (m, e) ↦
          subst (λ r. IsOutcome s (after_load np sk lib disk now train_csv eval_csv r s)) (sym e)
            (inl (m, refl, refl, e))
      | inr (err, e) ↦
          subst (λ r. IsOutcome s (after_load np sk lib disk now train_csv eval_csv r s)) (sym e)
            (train_new-IsOutcome s h)
    ]

    without_cache-IsOutcome :
        (force : Bool) (d : Option D) (s : ModelManager F S M D)
        → IsFaithful lib
        → IsOutcome s (without_cache np sk lib disk now train_csv eval_csv force d s)
    unfolding without_cache
    without_cache-IsOutcome force none s h = train_new-IsOutcome s h
    without_cache-IsOutcome true (some d) s h = train_new-IsOutcome s h
    without_cache-IsOutcome false (some d) s h = after_load-IsOutcome s h

    with_cache-IsOutcome :
        (force : Bool) (cached : Option (Pipeline F S M)) (s : ModelManager F S M D)
        → s.cached_model ≡ cached
        → IsFaithful lib
        → IsCoherent lib s
        → IsOutcome s (with_cache np sk lib disk now train_csv eval_csv force cached s)
    unfolding with_cache
    with_cache-IsOutcome force none s c h coherent =
        without_cache-IsOutcome force s.files.model_file s h
    with_cache-IsOutcome true (some m) s c h coherent =
        without_cache-IsOutcome true s.files.model_file s h
    with_cache-IsOutcome false (some m) s c h coherent = inl (m, refl, c, coherent m c)

    load_missing :
        (files : Files D) → files.model_file ≡ none → load lib files ≡ raise file_not_found_error
    unfolding load
    load_missing files there = rw there refl

    -- A process that starts on files with a model finds that model.
    restart :
        (d : Option D) (files : Files D) {m : Pipeline F S M}
        → files.model_file ≡ d
        → load lib files ≡ ok m
        → without_cache np sk lib disk now train_csv eval_csv false d
            (record { cached_model = none; files = files })
          ≡ (ok m, record { cached_model = some m; files = files })
    unfolding without_cache
    restart none files there e = absurd (ground (arith, e, load_missing files there))
    restart (some d) files there e =
        ap
          (λ r.
            after_load np sk lib disk now train_csv eval_csv r
              (record { cached_model = none; files = files }))
          e

    -- On a manager whose cached model, if any, is the one that the files hold, a call may return a
    -- model. Then the model that is cached is again the one that the files hold, a next call that
    -- does not force training returns the same model and changes nothing, and so does the first
    -- such call of a process started on the same files, which ends in the same state. Or the call
    -- raises: it keeps the cached model, and changes nothing at all if the disk takes every write.
    -- If not, the files are as they were, or have a part of a model's file beside the old metadata,
    -- or a whole model's file, from which a model is loaded though none was returned.
    pub get_or_train_model-IsCoherent :
        (force : Bool) (s : ModelManager F S M D)
        → IsFaithful lib
        → IsCoherent lib s
        → ((m : Pipeline F S M) × (after : ModelManager F S M D) × (get_or_train_model np sk lib
                disk now train_csv eval_csv force s
              ≡ (ok m, after))
            × IsCoherent lib after
            × (get_or_train_model np sk lib disk now train_csv eval_csv false after ≡ (ok m, after))
            × (get_or_train_model np sk lib disk now train_csv eval_csv false
                  (record after { cached_model = none })
                ≡ (ok m, after)))
          ⊎ IsRaised s (get_or_train_model np sk lib disk now train_csv eval_csv force s)
    unfolding get_or_train_model
    get_or_train_model-IsCoherent force s h coherent =
        elim (with_cache-IsOutcome force s.cached_model s refl h coherent) [
          | inr raised ↦ inr raised
          | inl (m, returned, cached, stored) ↦
              let after = (get_or_train_model np sk lib disk now train_csv eval_csv force s).1 in
              inl (
                m,
                after,
                (λ i. (returned i, after)),
                (λ n found.
                    stored
                    ∙ ap
                        (λ (c : Option (Pipeline F S M)). elim c as (λ _. Result (Pipeline F S M)) [
                          | none ↦ ok m
                          | some q ↦ ok q
                        ])
                        (sym cached ∙ found)),
                ap (λ c. with_cache np sk lib disk now train_csv eval_csv false c after) cached,
                restart after.files.model_file after.files refl stored
                    ∙ (λ i. (ok m, record after { cached_model = sym cached i })),
              )
        ]
