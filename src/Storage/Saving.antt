-- ===== src/Storage/Saving.antt =====
-- src/ml/train_isolation_forest.py: what `save` leaves on the disk, whatever the disk does.
use can_sentinental.Prelude.{
  ◌≡◌, refl, ap, arith, Option, none, some, ok, raise, Error, Result, ◌⊎◌, inl, inr,
}
use can_sentinental.Prelude.Text.{Text}
use can_sentinental.Floats.{FloatOps}
use can_sentinental.Storage.{
  Pipeline, Library, Files, Write, complete, refused, broken, Disk, payload_of, metadata_of, save,
}

-- A disk on which everything succeeds.
pub record IsSound {D : Type 0} (disk : Disk D) : Type 0 where
  pub dirs : disk.make_dirs ≡ none
  pub model : disk.model_write ≡ complete
  pub metadata : disk.metadata_write ≡ complete

raise-ok : (r : Result (Unit {0})) (e : Error) → r ≡ raise e → r ≡ ok tt → ⊥
raise-ok r e failed returned = ground arith

module _ {F S M D : Type 0} ⦃fl : FloatOps F⦄ (lib : Library F S M D) where
  -- The files of a model.
  abbrev pub saved : Text → Pipeline F S M → Files D
  saved now p = record {
    model_file = some (lib.dump (payload_of lib p));
    metadata_file = some (lib.dump_json (metadata_of lib now p));
  }

  -- What a `save` that raises leaves: the files as they were, a part of the model's, or the whole
  -- of the model's with metadata that are not its own.
  abbrev pub IsLeft : Pipeline F S M → Files D → Files D → Type 0
  IsLeft p files after =
      (after ≡ files)
      ⊎ (((part : D) × (after ≡ record files { model_file = some part }))
          ⊎ (after.model_file ≡ some (lib.dump (payload_of lib p))))

  abbrev pub IsSaved :
      Disk D → Text → Pipeline F S M → Files D → Result (Unit {0}) × Files D → Type 0
  IsSaved disk now p files q =
      (q ≡ (ok tt, saved now p))
      ⊎ ((e : Error) × (after : Files D) × (q ≡ (raise e, after))
          × IsLeft p files after
          × (IsSound disk → ⊥))

  save-cases :
      (dirs : Option Error) (model metadata : Write D) (now : Text) (p : Pipeline F S M)
      (files : Files D)
      → let disk : Disk D = record {
        make_dirs = dirs;
        model_write = model;
        metadata_write = metadata;
      } in
        IsSaved disk now p files (save lib disk now p files)
  unfolding save
  save-cases (some e) model metadata now p files =
      inr (e, files, refl, inl refl, λ sound. ground (arith, sound.dirs))
  save-cases none (refused e) metadata now p files =
      inr (e, files, refl, inl refl, λ sound. ground (arith, sound.model))
  save-cases none (broken e part) metadata now p files = inr (
    e,
    record files { model_file = some part },
    refl,
    inr (inl (part, refl)),
    λ sound. ground (arith, sound.model),
  )
  save-cases none complete (refused e) now p files = inr (
    e,
    record files { model_file = some (lib.dump (payload_of lib p)) },
    refl,
    inr (inr refl),
    λ sound. ground (arith, sound.metadata),
  )
  save-cases none complete (broken e part) now p files = inr (
    e,
    record { model_file = some (lib.dump (payload_of lib p)); metadata_file = some part },
    refl,
    inr (inr refl),
    λ sound. ground (arith, sound.metadata),
  )
  save-cases none complete complete now p files = inl refl

  pub save-IsSaved :
      (disk : Disk D) (now : Text) (p : Pipeline F S M) (files : Files D)
      → IsSaved disk now p files (save lib disk now p files)
  save-IsSaved disk now p files =
      save-cases disk.make_dirs disk.model_write disk.metadata_write now p files

  -- A `save` that returns has written both files.
  pub save-saved :
      (disk : Disk D) (now : Text) (p : Pipeline F S M) (files : Files D)
      → (save lib disk now p files).0 ≡ ok tt
      → save lib disk now p files ≡ (ok tt, saved now p)
  save-saved disk now p files returned = elim (save-IsSaved disk now p files) [
    | inl whole ↦ whole
    | inr (e, after, failed, left, unsound) ↦ absurd (
        raise-ok (save lib disk now p files).0 e
          (ap (λ (q : Result (Unit {0}) × Files D). q.0) failed) returned)
  ]
