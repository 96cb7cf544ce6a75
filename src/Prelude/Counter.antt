-- ===== src/Prelude/Counter.antt =====
-- collections.Counter over bytes: the counts by value, in the order of first occurrence.
use Prim.Native.Nat.{ℕ, ◌+◌, ◌<◌}
use mathlib.Core.Path.{◌≡◌, refl}
use mathlib.Core.List.{List, [], ◌∷◌}
use native.Mathlib.Omega.{arith}
use mathlib.Core.Logic.{inl, inr}
use can_sentinental.Prelude.Tests.{◌==◌, Bool-cases}
use can_sentinental.Prelude.Lists.{length, All, count_if}
use can_sentinental.Prelude.Dict.{Dict, get_or, insert, lookup-insert}

unfoldable pub count_into : Dict ℕ → List ℕ → Dict ℕ
count_into d [] = d
count_into d (b ∷ bs) = count_into (insert b (get_or b d 0 + 1) d) bs

unfoldable pub counter : List ℕ → Dict ℕ
unfolding count_into
counter bs = count_into [] bs

-- counts.values()
abbrev pub values : Dict ℕ → List ℕ
values [] = []
values ((b, c) ∷ d) = c ∷ values d

abbrev pub sum : List ℕ → ℕ
sum [] = 0
sum (x ∷ xs) = x + sum xs

sum-insert_one :
    (b : ℕ) (d : Dict ℕ) → sum (values (insert b (get_or b d 0 + 1) d)) ≡ sum (values d) + 1
unfolding insert get_or
sum-insert_one b [] = refl
sum-insert_one b ((j, w) ∷ d) = ground (arith, sum-insert_one b d)

-- The counts of a counter add up to the number of elements.
pub sum-count_into :
    (d : Dict ℕ) (bs : List ℕ) → sum (values (count_into d bs)) ≡ sum (values d) + length bs
unfolding count_into
sum-count_into d [] = omega arith
sum-count_into d (b ∷ bs) =
    omega (arith, sum-count_into (insert b (get_or b d 0 + 1) d) bs, sum-insert_one b d)

insert_pos :
    (b v : ℕ) (d : Dict ℕ)
    → 0 < v
    → All (λ c. 0 < c) (values d)
    → All (λ c. 0 < c) (values (insert b v d))
unfolding insert
insert_pos b v [] p h = (p, tt)
insert_pos b v ((j, w) ∷ d) p h = elim (Bool-cases (j == b)) [
  | inl e ↦ rw e (p, h.1)
  | inr e ↦ rw e (h.0, insert_pos b v d p h.1)
]

-- Every count is positive.
pub count_into_pos :
    (d : Dict ℕ) (bs : List ℕ)
    → All (λ c. 0 < c) (values d)
    → All (λ c. 0 < c) (values (count_into d bs))
unfolding count_into
count_into_pos d [] h = h
count_into_pos d (b ∷ bs) h =
    count_into_pos (insert b (get_or b d 0 + 1) d) bs
      (insert_pos b (get_or b d 0 + 1) d (omega arith) h)

-- The count of a byte is the number of its occurrences.
pub lookup-count_into :
    (a : ℕ) (d : Dict ℕ) (bs : List ℕ)
    → get_or a (count_into d bs) 0 ≡ get_or a d 0 + count_if (λ b. b == a) bs
unfolding count_into get_or
lookup-count_into a d [] = omega arith
lookup-count_into a d (b ∷ bs) =
    let v = get_or b d 0 + 1 in
    ground (arith, lookup-count_into a (insert b v d) bs, lookup-insert b a v d)
