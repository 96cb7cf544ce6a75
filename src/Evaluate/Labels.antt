-- ===== src/Evaluate/Labels.antt =====
-- src/ml/evaluate.py: sums over the labels, each of which stands for its class once.
use can_sentinental.Prelude.{
  ℕ, some, ◌+◌, ◌≤◌, ◌≡◌, refl, sym, ap, ◌∙◌, Bool, true, false, List, [], ◌∷◌, map, count_if,
  if◌then◌else◌, arith, Bool-cases, inl, inr,
}
use can_sentinental.Prelude.Int.{ℤ}
use can_sentinental.Prelude.Text.{codes}
use can_sentinental.Prelude.Label.{Label, label_eq, label_eq-eq, label_eq_refl}
use can_sentinental.Model.{truth, count_both, is_minus_one}
use can_sentinental.Evaluate.{
  is_member, label_set, insert_label, in_order, has_text, is_text, class_size, caught,
}

abbrev pub is_normal : Label → Bool
is_normal label = label_eq label (some (codes "NORMAL"))

-- The sum over the attacks among the labels.
unfoldable pub sum_attacks : (Label → ℕ) → List Label → ℕ
sum_attacks f [] = 0
sum_attacks f (l ∷ ls) = (if is_normal l then 0 else f l) + sum_attacks f ls

sum_attacks-add :
    (f g h : Label → ℕ) (ls : List Label)
    → ((l : Label) → f l ≡ g l + h l)
    → sum_attacks f ls ≡ sum_attacks g ls + sum_attacks h ls
unfolding sum_attacks
sum_attacks-add f g h [] e = omega arith
sum_attacks-add f g h (l ∷ ls) e = ground (arith, e l, sum_attacks-add f g h ls e)

sum_attacks_none :
    (f : Label → ℕ) (ls : List Label) → ((l : Label) → f l ≡ 0) → sum_attacks f ls ≡ 0
unfolding sum_attacks
sum_attacks_none f [] e = refl
sum_attacks_none f (l ∷ ls) e = ground (arith, e l, sum_attacks_none f ls e)

-- One frame's share of the sum: what it counts for, where the labels have its own once.
sum_attacks_single :
    (y : Label) (w : ℕ) (ls : List Label)
    → (count_if (label_eq y) ls ≡ 0 → sum_attacks (λ l. if label_eq y l then w else 0) ls ≡ 0)
      × (count_if (label_eq y) ls ≡ 1
          → sum_attacks (λ l. if label_eq y l then w else 0) ls ≡ (if is_normal y then 0 else w))
unfolding sum_attacks
sum_attacks_single y w [] = (λ h. refl, λ h. absurd (omega (arith, h)))
sum_attacks_single y w (l ∷ ls) =
    let rest = sum_attacks_single y w ls in
    elim (Bool-cases (label_eq y l)) [
      | inl e ↦
          let same : is_normal l ≡ is_normal y = ap is_normal (sym (label_eq-eq y l e)) in
          (λ h. ground (arith, e), λ h. ground (arith, e, same, rest.0))
      | inr e ↦ (λ h. ground (arith, e, rest.0), λ h. ground (arith, e, rest.1))
    ]

sum_attacks-insert_label :
    (f : Label → ℕ) (l : Label) (ls : List Label)
    → sum_attacks f (insert_label l ls) ≡ sum_attacks f (l ∷ ls)
unfolding sum_attacks insert_label
sum_attacks-insert_label f l [] = refl
sum_attacks-insert_label f l (m ∷ ms) = ground (arith, sum_attacks-insert_label f l ms)

sum_attacks-in_order :
    (f : Label → ℕ) (ls : List Label) → sum_attacks f (in_order ls) ≡ sum_attacks f ls
unfolding sum_attacks in_order
sum_attacks-in_order f [] = refl
sum_attacks-in_order f (l ∷ ls) =
    omega (arith, sum_attacks-insert_label f l (in_order ls), sum_attacks-in_order f ls)

count_if-is_member :
    (y : Label) (ls : List Label) → is_member y ls ≡ false → count_if (label_eq y) ls ≡ 0
count_if-is_member y [] h = refl
count_if-is_member y (l ∷ ls) h = ground (arith, count_if-is_member y ls)

pub is_member-label_set :
    (y : Label) (ys : List Label) → is_member y (label_set ys) ≡ is_member y ys
unfolding label_set
is_member-label_set y [] = refl
is_member-label_set y (z ∷ ys) =
    let rest = is_member-label_set y ys in
    elim (Bool-cases (label_eq y z)) [
      | inl e ↦
          let same : is_member z (label_set ys) ≡ is_member y (label_set ys) =
            ap (λ t. is_member t (label_set ys)) (sym (label_eq-eq y z e)) in
          ground (arith, e, same, rest)
      | inr e ↦ ground (arith, e, rest)
    ]

-- The set of labels has each of them once.
count_if-label_set :
    (y : Label) (ys : List Label)
    → count_if (label_eq y) (label_set ys) ≡ (if is_member y ys then 1 else 0)
unfolding label_set
count_if-label_set y [] = refl
count_if-label_set y (z ∷ ys) =
    let rest = count_if-label_set y ys in
    elim (Bool-cases (label_eq y z)) [
      | inl e ↦
          let same : is_member z (label_set ys) ≡ is_member y (label_set ys) =
            ap (λ t. is_member t (label_set ys)) (sym (label_eq-eq y z e)) in
          ground (arith, e, same, rest, is_member-label_set y ys)
      | inr e ↦ ground (arith, e, rest)
    ]

-- The labels that stand for their classes: each label of the frames once.
abbrev pub HasOnce : List Label → List Label → Type 0
HasOnce ls [] = Unit
HasOnce ls (y ∷ ys) = (count_if (label_eq y) ls ≡ 1) × HasOnce ls ys

pub sum_attacks-class_size :
    (ls ys : List Label)
    → HasOnce ls ys
    → sum_attacks (λ l. class_size l ys) ls ≡ count_if (λ y. if is_normal y then false else true) ys
sum_attacks-class_size ls [] h = sum_attacks_none (λ l. 0) ls (λ l. refl)
sum_attacks-class_size ls (y ∷ ys) (once, h) =
    let rest = sum_attacks-class_size ls ys h in
    let single = (sum_attacks_single y 1 ls).1 once in
    let both =
      sum_attacks-add (λ l. class_size l (y ∷ ys)) (λ l. if label_eq y l then 1 else 0)
        (λ l. class_size l ys) ls (λ l. ground arith) in
    ground (arith, rest, single, both)

pub sum_attacks-caught :
    (ls ys : List Label) (ps : List ℤ)
    → HasOnce ls ys
    → sum_attacks (λ l. caught l ys ps) ls ≡ count_both is_minus_one is_minus_one (map truth ys) ps
sum_attacks-caught ls [] ps h = sum_attacks_none (λ l. 0) ls (λ l. refl)
sum_attacks-caught ls (y ∷ ys) [] h = sum_attacks_none (λ l. 0) ls (λ l. refl)
sum_attacks-caught ls (y ∷ ys) (p ∷ ps) (once, h) =
    let w : ℕ = if is_minus_one p then 1 else 0 in
    let rest = sum_attacks-caught ls ys ps h in
    let single = (sum_attacks_single y w ls).1 once in
    let both =
      sum_attacks-add (λ l. caught l (y ∷ ys) (p ∷ ps)) (λ l. if label_eq y l then w else 0)
        (λ l. caught l ys ps) ls (λ l. ground arith) in
    ground (arith, rest, single, both)

count_if-insert_label :
    (p : Label → Bool) (l : Label) (ls : List Label)
    → count_if p (insert_label l ls) ≡ count_if p (l ∷ ls)
unfolding insert_label
count_if-insert_label p l [] = refl
count_if-insert_label p l (m ∷ ms) = ground (arith, count_if-insert_label p l ms)

count_if-in_order : (p : Label → Bool) (ls : List Label) → count_if p (in_order ls) ≡ count_if p ls
unfolding in_order
count_if-in_order p [] = refl
count_if-in_order p (l ∷ ls) =
    ground (arith, count_if-insert_label p l (in_order ls), count_if-in_order p ls)

-- Every label is a member.
abbrev pub AreMembers : List Label → List Label → Type 0
AreMembers all [] = Unit
AreMembers all (y ∷ ys) = (is_member y all ≡ true) × AreMembers all ys

AreMembers-cons : (z : Label) (all ys : List Label) → AreMembers all ys → AreMembers (z ∷ all) ys
AreMembers-cons z all [] h = tt
AreMembers-cons z all (y ∷ ys) (h, hs) = (ground (arith, h), AreMembers-cons z all ys hs)

pub AreMembers-refl : (ys : List Label) → AreMembers ys ys
AreMembers-refl [] = tt
AreMembers-refl (y ∷ ys) =
    (ground (arith, label_eq_refl y), AreMembers-cons y ys ys (AreMembers-refl ys))

pub AreMembers-HasOnce :
    (all ys : List Label) → AreMembers all ys → HasOnce (in_order (label_set all)) ys
AreMembers-HasOnce all [] h = tt
AreMembers-HasOnce all (y ∷ ys) (h, hs) = (
  ground (arith, count_if-in_order (label_eq y) (label_set all), count_if-label_set y all, h),
  AreMembers-HasOnce all ys hs,
)

pub caught-class_size :
    (l : Label) (ys : List Label) (ps : List ℤ) → caught l ys ps ≤ class_size l ys
caught-class_size l [] ps = omega arith
caught-class_size l (y ∷ ys) [] = omega arith
caught-class_size l (y ∷ ys) (p ∷ ps) = ground (arith, caught-class_size l ys ps)

is_member-has_text :
    (t : Label) (ls : List Label) → is_text t ≡ true → is_member t ls ≡ true → has_text ls ≡ true
is_member-has_text t [] h m = absurd (ground arith)
is_member-has_text t (l ∷ ls) h m = elim (Bool-cases (label_eq t l)) [
  | inl e ↦
      let same : is_text l ≡ true = ap is_text (sym (label_eq-eq t l e)) ∙ h in ground (arith, same)
  | inr e ↦ ground (arith, e, m, is_member-has_text t ls h)
]

pub has_text-label_set : (ys : List Label) → has_text (label_set ys) ≡ has_text ys
unfolding label_set
has_text-label_set [] = refl
has_text-label_set (y ∷ ys) =
    let rest = has_text-label_set ys in
    elim (Bool-cases (is_member y (label_set ys))) [
      | inl e ↦ elim (Bool-cases (is_text y)) [
        | inl t ↦ ground (arith, e, t, rest, is_member-has_text y (label_set ys) t e)
        | inr t ↦ ground (arith, e, t, rest)
      ]
      | inr e ↦ ground (arith, e, rest)
    ]
