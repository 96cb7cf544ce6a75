-- ===== src/Csv.antt =====
-- src/ml/features.py: `extract_features_from_csv`, on the lines of a file, such as those of the logger.
-- The csv module writes and reads a line's cells as texts, quoted as they need.
pub mod Streaming
mod Tests
use can_sentinental.Prelude.{
  ℕ, List, [], ◌∷◌, map, Option, none, some, is_empty, if◌then◌else◌, Result, ok, raise, ◌>>=◌,
  key_error, value_error, type_error, file_not_found_error,
}
use can_sentinental.Prelude.Text.{Text, codes, text_eq, decimal}
use can_sentinental.Prelude.Label.{Label}
use can_sentinental.Prelude.Numeral.{read_nat, from_hex}
use can_sentinental.Struct.{Bytes}
use can_sentinental.Floats.{FloatOps}
use can_sentinental.Parser.{Cell, text, num, Row}
use can_sentinental.Logger.{Line, header, written}
use can_sentinental.Features.{
  NumpyStats, StreamingFeatureExtractor, new_extractor, extract_features, as_array,
}
use can_sentinental.Model.{Matrix}

-- A row as the reader gives it; a cell that the line lacks is None.
abbrev pub TextRow : Type 0
TextRow = List (Text × Label)

-- str(v)
abbrev pub cell_text : Cell → Text
cell_text (text t) = t
cell_text (num n) = decimal n

abbrev pub line_cells : Line → List Text
line_cells (header names) = map codes names
line_cells (written row) = map (λ cell. cell_text cell.1) row

-- A line's cells under the field names; a cell too many has no name, and one too few is None.
abbrev pub named : List Text → List Text → TextRow
named [] cells = []
named (name ∷ names) [] = (name, none) ∷ named names []
named (name ∷ names) (cell ∷ cells) = (name, some cell) ∷ named names cells

-- The rows under the field names; a blank line is skipped.
abbrev pub rows_under : List Text → List (List Text) → List TextRow
rows_under names [] = []
rows_under names ([] ∷ lines) = rows_under names lines
rows_under names ((cell ∷ cells) ∷ lines) = named names (cell ∷ cells) ∷ rows_under names lines

-- csv.DictReader: the first line names the fields.
abbrev pub dict_reader : List Line → List TextRow
dict_reader [] = []
dict_reader (first ∷ lines) = rows_under (line_cells first) (map line_cells lines)

-- row.get(key): the key may be missing, and so may its cell.
abbrev pub get : Text → TextRow → Option Label
get key [] = none
get key ((name, cell) ∷ row) = if text_eq name key then some cell else get key row

-- row[key]
abbrev pub item : Text → TextRow → Result Label
item key row = elim (get key row) [ none ↦ raise key_error | some cell ↦ ok cell ]

-- row.get(key, default)
abbrev pub get_default : Text → Text → TextRow → Label
get_default key default row = elim (get key row) [ none ↦ some default | some cell ↦ cell ]

-- int(cell)
unfoldable pub read_int : Label → Result ℕ
read_int none = raise type_error
read_int (some t) = read_nat t

unfoldable pub payload_of : Label → Result Bytes
unfolding from_hex
payload_of none = ok []
payload_of (some hex_str) = if is_empty hex_str then ok [] else from_hex hex_str

module _ {F : Type 0} ⦃fl : FloatOps F⦄ where
  -- float(cell)
  unfoldable pub read_float : Label → Result F
  read_float none = raise type_error
  read_float (some t) = elim (fl.of_text t) [ none ↦ raise value_error | some x ↦ ok x ]

  -- What the body of the loop takes from a row: the arguments of `extract_features`, and the label.
  unfoldable pub read_row : TextRow → Result (ℕ × ℕ × F × Label × Bytes)
  unfolding read_int payload_of read_float
  read_row row = do
    id_text ← item (codes "can_id") row
    can_id ← read_int id_text
    dlc_text ← item (codes "dlc") row
    dlc ← read_int dlc_text
    ts_text ← item (codes "timestamp") row
    ts ← read_float ts_text
    raw_bytes ← payload_of (get_default (codes "payload_hex") [] row)
    ok (can_id, dlc, ts, get_default (codes "label") (codes "NORMAL") row, raw_bytes)

module _ {F : Type 0} ⦃fl : FloatOps F⦄ (np : NumpyStats F) where
  -- for row in reader, with the extractor so far
  unfoldable pub extract_rows :
      List TextRow → StreamingFeatureExtractor F → Result (Matrix F × List Label)
  unfolding read_row
  extract_rows [] e = ok ([], [])
  extract_rows (row ∷ rows) e = do
    (can_id, dlc, ts, label, raw_bytes) ← read_row row
    let (features, e') = extract_features np can_id dlc raw_bytes ts e
    (x, y) ← extract_rows rows e'
    ok (as_array features ∷ x, label ∷ y)

  -- `none` is a path at which there is no file.
  unfoldable pub extract_features_from_csv : Option (List Line) → Result (Matrix F × List Label)
  unfolding extract_rows
  extract_features_from_csv none = raise file_not_found_error
  extract_features_from_csv (some file) = extract_rows (dict_reader file) (new_extractor 50)
