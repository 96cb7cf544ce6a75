-- ===== src/Features/Change.antt =====
-- src/ml/features.py: the payload change rate is a distance between payloads.
use can_sentinental.Prelude.{
  ℕ, suc, ◌+◌, ◌≤◌, ◌≡◌, ◌↔◌, refl, [], ◌∷◌, length, ◌==◌, if◌then◌else◌, arith,
}
use can_sentinental.Struct.{Bytes}
use can_sentinental.Features.{differing, abs_diff, changes}

changes_comm : (a b : Bytes) → changes a b ≡ changes b a
changes_comm [] [] = refl
changes_comm [] (y ∷ b) = ground arith
changes_comm (x ∷ a) [] = ground arith
changes_comm (x ∷ a) (y ∷ b) = ground (arith, changes_comm a b)

changes_self : (a : Bytes) → changes a a ≡ 0
changes_self [] = ground arith
changes_self (x ∷ a) = ground (arith, changes_self a)

eq_of_changes : (a b : Bytes) → changes a b ≡ 0 → a ≡ b
eq_of_changes [] [] h = refl
eq_of_changes [] (y ∷ b) h = absurd (ground arith)
eq_of_changes (x ∷ a) [] h = absurd (ground arith)
eq_of_changes (x ∷ a) (y ∷ b) h = ground (arith, eq_of_changes a b)

differing-le : (a b : Bytes) → (differing a b ≤ length a) × (differing a b ≤ length b)
differing-le [] b = (omega arith, omega arith)
differing-le (x ∷ a) [] = (omega arith, omega arith)
differing-le (x ∷ a) (y ∷ b) = let h = differing-le a b in (ground arith, ground arith)

abbrev differs : ℕ → ℕ → ℕ
differs x y = if x == y then 0 else 1

differs_triangle : (x y z : ℕ) → differs x z ≤ differs x y + differs y z
differs_triangle x y z = ground arith

abs_diff-suc : (m n : ℕ) → abs_diff (suc m) (suc n) ≡ abs_diff m n
abs_diff-suc m n = ground arith

-- What one more position adds.
changes-cons : (x y : ℕ) (a b : Bytes) → changes (x ∷ a) (y ∷ b) ≡ differs x y + changes a b
changes-cons x y a b = omega (arith, abs_diff-suc (length a) (length b))

changes_triangle : (a b c : Bytes) → changes a c ≤ changes a b + changes b c
changes_triangle [] b c = ground (arith, differing-le b c)
changes_triangle (x ∷ a) [] c = ground (arith, differing-le (x ∷ a) c)
changes_triangle (x ∷ a) (y ∷ b) [] = ground (arith, differing-le a b)
changes_triangle (x ∷ a) (y ∷ b) (z ∷ c) = omega (
  arith,
  changes-cons x y a b,
  changes-cons y z b c,
  changes-cons x z a c,
  differs_triangle x y z,
  changes_triangle a b c,
)

-- The number of changes between two payloads is symmetric, zero exactly for equal payloads, at
-- most the longer one's length, and obeys the triangle inequality.
pub changes_distance :
    (a b c : Bytes)
    → (changes a b ≡ changes b a)
      × ((changes a b ≡ 0) ↔ (a ≡ b))
      × ((n : ℕ) → length a ≤ n → length b ≤ n → changes a b ≤ n)
      × (changes a c ≤ changes a b + changes b c)
changes_distance a b c = (
  changes_comm a b,
  (eq_of_changes a b, λ e. rw e (changes_self b)),
  λ n p q. ground (arith, differing-le a b),
  changes_triangle a b c,
)
