-- ===== src/Evaluate/Tests.antt =====
-- The report on a small dataset.
use can_sentinental.Prelude.{ℕ, ◌≡◌, refl, type_error, List, [], ◌∷◌, some, ok, raise}
use can_sentinental.Prelude.Int.{ℤ, pos}
use can_sentinental.Prelude.Text.{Text, codes, decimal, zero_padded}
use can_sentinental.Prelude.Label.{Label}
use can_sentinental.Prelude.Numeral.{read_nat}
use can_sentinental.Floats.Fixed.{micro}
use can_sentinental.Parser.{text, num}
use can_sentinental.Csv.{extract_features_from_csv}
use can_sentinental.Logger.{Line, header, written}
use can_sentinental.Model.{predict, Sklearn, CanIsolationForestModel}
use can_sentinental.Evaluate.Printing.{vector_line}
use can_sentinental.Evaluate.{evaluate_dataset, sort_labels, label_set}
use can_sentinental.Model.Samples.{np, forest_of, first_feature, below}

abbrev sk : Sklearn ℤ (Unit {0}) (Unit {0})
sk = forest_of first_feature

-- Identifiers below 0x100 are flagged.
abbrev model : CanIsolationForestModel ℤ (Unit {0}) (Unit {0})
model = below (pos 256000000)

labels_sorted :
    sort_labels (
      label_set (
        some (codes "NORMAL")
        ∷ some (codes "DOS")
        ∷ some (codes "NORMAL")
        ∷ some (codes "DO")
        ∷ []))
    ≡ ok (some (codes "DO") ∷ some (codes "DOS") ∷ some (codes "NORMAL") ∷ [])
unfolding sort_labels label_set
labels_sorted = refl

abbrev line : ℕ → Text → Line
line can_id label = written (
    ("can_id", num can_id)
    ∷ ("dlc", num 0)
    ∷ ("timestamp", text (codes "1.500000"))
    ∷ ("label", text label)
    ∷ [])

abbrev file : List Line
file =
    header ("can_id" ∷ "dlc" ∷ "timestamp" ∷ "label" ∷ [])
    ∷ line 0 (codes "ATTACK_FLOOD")
    ∷ line 272 (codes "NORMAL")
    ∷ line 512 (codes "ATTACK_FUZZING")
    ∷ []

abbrev labels : List Label
labels = some (codes "ATTACK_FLOOD") ∷ some (codes "NORMAL") ∷ some (codes "ATTACK_FUZZING") ∷ []

-- A row that is cut before its label, after a row with one.
cut_short :
    evaluate_dataset np first_feature sk
      (codes "now")
      (codes "a.csv")
      (some (
        header ("can_id" ∷ "dlc" ∷ "timestamp" ∷ "label" ∷ [])
        ∷ line 0 (codes "ATTACK_FLOOD")
        ∷ written
            (("can_id", num 272) ∷ ("dlc", num 0) ∷ ("timestamp", text (codes "1.500000")) ∷ [])
        ∷ []))
      model
    ≡ raise type_error
unfolding evaluate_dataset extract_features_from_csv predict decimal read_nat
cut_short = refl

vector_line_test :
    vector_line (codes "ATTACK_FLOOD") (record {
      total_frames = 3;
      detected_anomalies = 2;
      detection_rate_pct = pos 66670000;
      mean_anomaly_score = pos 125000;
    })
    ≡ codes "  - ATTACK_FLOOD         : 66.670000% (2/3) [Mean Score: 0.125000]"
unfolding vector_line decimal zero_padded
vector_line_test = refl
