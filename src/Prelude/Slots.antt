-- ===== src/Prelude/Slots.antt =====
-- A list of slots, such as threads by their number: a slot that is not there reads as a default, and
-- writing to it changes nothing.
use Prim.Native.Nat.{ℕ, zero, suc, ◌≤◌}
use mathlib.Core.Path.{◌≡◌, refl, sym, ap}
use mathlib.Core.Bool.{false}
use mathlib.Core.List.{List, [], ◌∷◌, ◌++◌}
use native.Mathlib.Omega.{arith}
use can_sentinental.Prelude.Tests.{◌==◌}
use can_sentinental.Prelude.Lists.{All}

module _ {A : Type 0} where
  abbrev pub slot : A → ℕ → List A → A
  slot default i [] = default
  slot default zero (a ∷ as') = a
  slot default (suc i) (a ∷ as') = slot default i as'

  abbrev pub set_slot : ℕ → A → List A → List A
  set_slot i b [] = []
  set_slot zero b (a ∷ as') = b ∷ as'
  set_slot (suc i) b (a ∷ as') = a ∷ set_slot i b as'

  pub slot-set_slot_other :
      (default : A) (i j : ℕ) (b : A) (as' : List A)
      → (i == j) ≡ false
      → slot default i (set_slot j b as') ≡ slot default i as'
  slot-set_slot_other default i j b [] h = refl
  slot-set_slot_other default zero zero b (a ∷ as') h = absurd (ground arith)
  slot-set_slot_other default zero (suc j) b (a ∷ as') h = refl
  slot-set_slot_other default (suc i) zero b (a ∷ as') h = refl
  slot-set_slot_other default (suc i) (suc j) b (a ∷ as') h =
      slot-set_slot_other default i j b as' (ground arith)

  -- A measure that is zero at the default.
  module _ (rank : A → ℕ) (default : A) (least : rank default ≡ 0) where
    pub rank-set_slot :
        (i : ℕ) (b : A) (as' : List A) → rank (slot default i (set_slot i b as')) ≤ rank b
    rank-set_slot i b [] = omega (arith, least)
    rank-set_slot zero b (a ∷ as') = omega arith
    rank-set_slot (suc i) b (a ∷ as') = rank-set_slot i b as'

  module _ {ℓ} (P : A → Type ℓ) where
    pub slot-All :
        (default : A) (i : ℕ) (as' : List A) → P default → All P as' → P (slot default i as')
    slot-All default i [] d h = d
    slot-All default zero (a ∷ as') d h = h.0
    slot-All default (suc i) (a ∷ as') d h = slot-All default i as' d h.1

    pub set_slot-All : (i : ℕ) (b : A) (as' : List A) → P b → All P as' → All P (set_slot i b as')
    set_slot-All i b [] p h = h
    set_slot-All zero b (a ∷ as') p h = (p, h.1)
    set_slot-All (suc i) b (a ∷ as') p h = (h.0, set_slot-All i b as' p h.1)

  -- Writing what is there.
  pub set_slot-slot :
      (default : A) (i : ℕ) (as' : List A) → set_slot i (slot default i as') as' ≡ as'
  set_slot-slot default i [] = refl
  set_slot-slot default zero (a ∷ as') = refl
  set_slot-slot default (suc i) (a ∷ as') = ap (λ bs. a ∷ bs) (set_slot-slot default i as')

  -- Reading what was written, where the default is what is written to a slot that is not there.
  pub slot-set_slot :
      (default : A) (i : ℕ) (b : A) (as' : List A)
      → (slot default i as' ≡ default → b ≡ default)
      → slot default i (set_slot i b as') ≡ b
  slot-set_slot default i b [] h = sym (h refl)
  slot-set_slot default zero b (a ∷ as') h = refl
  slot-set_slot default (suc i) b (a ∷ as') h = slot-set_slot default i b as' h

  -- A new slot at the end.
  pub slot-append {ℓ} :
      (P : A → Type ℓ) (default : A) (i : ℕ) (as' : List A) (b : A)
      → (P default → P b)
      → P (slot default i as')
      → P (slot default i (as' ++ b ∷ []))
  slot-append P default zero [] b h p = h p
  slot-append P default (suc i) [] b h p = p
  slot-append P default zero (a ∷ as') b h p = p
  slot-append P default (suc i) (a ∷ as') b h p = slot-append P default i as' b h p
