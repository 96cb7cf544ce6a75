-- ===== src/Prelude/Label.antt =====
-- A cell of a CSV row that may be missing, as Python's None: the labels of a dataset are such cells.
use mathlib.Core.Path.{◌≡◌, refl, ap}
use mathlib.Core.Bool.{Bool, true, false}
use mathlib.Core.Option.{Option, none, some}
use native.Mathlib.Omega.{arith}
use can_sentinental.Prelude.Text.{Text, text_eq, text_eq-eq, text_eq_refl}

abbrev pub Label : Type 0
Label = Option Text

-- a == b
abbrev pub label_eq : Label → Label → Bool
label_eq none none = true
label_eq none (some t) = false
label_eq (some s) none = false
label_eq (some s) (some t) = text_eq s t

pub label_eq-eq : (a b : Label) → label_eq a b ≡ true → a ≡ b
label_eq-eq none none h = refl
label_eq-eq none (some t) h = absurd (ground arith)
label_eq-eq (some s) none h = absurd (ground arith)
label_eq-eq (some s) (some t) h = ap some (text_eq-eq s t h)

pub label_eq_refl : (a : Label) → label_eq a a ≡ true
label_eq_refl none = refl
label_eq_refl (some t) = text_eq_refl t
