-- ===== src/Prelude/Dict.antt =====
-- Python dictionaries with integer keys, in insertion order: assigning to an old key keeps its
-- place, a new key comes last.
use Prim.Native.Nat.{ℕ}
use mathlib.Core.Path.{◌≡◌, refl}
use mathlib.Core.Bool.{Bool, true, false}
use mathlib.Core.List.{List, [], ◌∷◌}
use mathlib.Core.Option.{Option, none, some}
use native.Mathlib.Omega.{arith}
use can_sentinental.Prelude.Tests.{◌==◌, if◌then◌else◌}

abbrev pub Dict {ℓ} : Type ℓ → Type ℓ
Dict V = List (ℕ × V)

module _ {ℓ} {V : Type ℓ} where
  -- d.get(k)
  unfoldable pub lookup : ℕ → Dict V → Option V
  lookup k [] = none
  lookup k ((j, v) ∷ d) = if j == k then some v else lookup k d

  -- d.get(k, default)
  unfoldable pub get_or : ℕ → Dict V → V → V
  unfolding lookup
  get_or k d v = elim (lookup k d) [ none ↦ v | some w ↦ w ]

  -- k in d
  unfoldable pub contains : ℕ → Dict V → Bool
  unfolding lookup
  contains k d = elim (lookup k d) [ none ↦ false | some w ↦ true ]

  -- d[k] = v
  unfoldable pub insert : ℕ → V → Dict V → Dict V
  insert k v [] = (k, v) ∷ []
  insert k v ((j, w) ∷ d) = if j == k then (k, v) ∷ d else (j, w) ∷ insert k v d

  pub lookup-insert :
      (k j : ℕ) (v : V) (d : Dict V)
      → lookup j (insert k v d) ≡ (if k == j then some v else lookup j d)
  unfolding lookup insert
  lookup-insert k j v [] = refl
  lookup-insert k j v ((i, w) ∷ d) = ground (arith, lookup-insert k j v d)

  pub get_or-insert :
      (k j : ℕ) (v w : V) (d : Dict V)
      → get_or j (insert k v d) w ≡ (if k == j then v else get_or j d w)
  unfolding get_or
  get_or-insert k j v w d = ground (arith, lookup-insert k j v d)
