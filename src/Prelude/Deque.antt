-- ===== src/Prelude/Deque.antt =====
-- collections.deque(maxlen=n), the oldest element first: an append beyond the bound drops from the
-- left, and a deque of bound 0 stays empty.
use Prim.Native.Nat.{ℕ, ◌-◌, ◌≤◌, min}
use mathlib.Core.Path.{◌≡◌, ap}
use mathlib.Core.List.{List, [], ◌∷◌, ◌++◌}
use native.Mathlib.Omega.{arith}
use can_sentinental.Prelude.Lists.{length, drop, length-append, length-drop, drop-append, drop-drop}

module _ {ℓ} {A : Type ℓ} where
  unfoldable pub append : ℕ → A → List A → List A
  append maxlen x xs = let ys = xs ++ x ∷ [] in drop (length ys - maxlen) ys

  -- The last n elements.
  abbrev pub last_n : ℕ → List A → List A
  last_n n xs = drop (length xs - n) xs

  pub length-last_n : (n : ℕ) (xs : List A) → length (last_n n xs) ≡ min n (length xs)
  length-last_n n xs = omega (arith, length-drop (length xs - n) xs)

  -- A deque fed with a history holds its last elements.
  pub append-last_n :
      (n : ℕ) (x : A) (h : List A) → append n x (last_n n h) ≡ last_n n (h ++ x ∷ [])
  unfolding append
  append-last_n n x h =
      let k = length h - n in
      rw (← drop-append k h (x ∷ []) (omega arith), drop-drop)
        (ap (λ j. drop j (h ++ x ∷ []))
          (omega (arith, length-drop k (h ++ x ∷ []), length-append h (x ∷ []))))

  pub length-append-le : (n : ℕ) (x : A) (xs : List A) → length (append n x xs) ≤ n
  unfolding append
  length-append-le n x xs = omega (arith, length-drop (length (xs ++ x ∷ []) - n) (xs ++ x ∷ []))
