-- ===== src/Evaluate/Dataset.antt =====
-- src/ml/evaluate.py: the report on a labelled dataset, from its file on.
use can_sentinental.Prelude.{Bool, ◌&&◌, List, none}
use can_sentinental.Prelude.Text.{Text}
use can_sentinental.Prelude.Label.{Label}
use can_sentinental.Evaluate.{is_member, has_text}

-- Some frames have a label and some have none.
abbrev pub is_mixed : List Label → Bool
is_mixed labels = is_member none labels && has_text labels
