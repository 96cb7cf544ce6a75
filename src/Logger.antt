-- ===== src/Logger.antt =====
-- src/logger/csv_logger.py: `CSVTelemetryLogger`. The file is the list of its lines, the header and
-- the rows; a closed handle is kept as such. The lock makes each method one step.
pub mod Rows
pub mod Baseline
mod Tests
use Prim.Native.String.{String}
use package.text.Mathlib.Text.{◌==◌ as str_eq}
use can_sentinental.Prelude.{
  ℕ, ◌+◌, Bool, true, false, not, List, [], ◌∷◌, ◌++◌, length, leb, is_empty, map, ◌||◌,
  if◌then◌else◌, Result, ok, raise,
}
use can_sentinental.Prelude.Text.{Text, codes}
use can_sentinental.Floats.{FloatOps}
use can_sentinental.Frame.{CanFrame}
use can_sentinental.Parser.{
  Row, Cell, text, CanTelemetryParser, ParsedTelemetry, new_parser, parse_frame, to_flat_dict,
}

abbrev pub csv_fieldnames : List String
csv_fieldnames =
    "timestamp" ∷ "can_id" ∷ "can_id_hex" ∷ "ecu_name" ∷ "dlc" ∷ "payload_hex" ∷ "delta_t"
    ∷ "global_delta_t" ∷ "entropy" ∷ "byte_0" ∷ "byte_1" ∷ "byte_2" ∷ "byte_3" ∷ "byte_4" ∷ "byte_5"
    ∷ "byte_6" ∷ "byte_7" ∷ "decoded_summary" ∷ "label" ∷ []

pub data Line : Type 0 where
  header : List String → Line
  written : Row → Line

-- d[k] = v on a dictionary with texts as keys
abbrev pub assign : String → Cell → Row → Row
assign k v [] = (k, v) ∷ []
assign k v ((j, w) ∷ row) = if str_eq j k then (k, v) ∷ row else (j, w) ∷ assign k v row

pub record CsvTelemetryLogger (F : Type 0) : Type 0 where
  pub buffer_size : ℕ
  pub parser : CanTelemetryParser F
  pub buffer : List Row
  -- Whether `_file_handle` is not None, and what the file holds.
  pub is_open : Bool
  pub file : List Line
  pub total_logged : ℕ

module _ {F : Type 0} where
  -- `__init__` with `_init_file`, on what the file holds already.
  unfoldable pub new_logger : ℕ → List Line → CsvTelemetryLogger F
  new_logger buffer_size file = record {
    buffer_size = buffer_size;
    parser = new_parser;
    buffer = [];
    is_open = true;
    file = if is_empty file then header csv_fieldnames ∷ [] else file;
    total_logged = 0;
  }

  unfoldable pub flush : CsvTelemetryLogger F → CsvTelemetryLogger F
  flush l =
      if not l.is_open || is_empty l.buffer
      then l
      else record l { file = l.file ++ map written l.buffer; buffer = [] }

  unfoldable pub close : CsvTelemetryLogger F → CsvTelemetryLogger F
  unfolding flush
  close l = record (flush l) { is_open = false }

  -- A body under `with`: `__enter__` returns the logger, and `__exit__` closes it, after a raise
  -- too, which it lets pass.
  unfoldable pub with_logger :
      {A : Type 0}
      → (CsvTelemetryLogger F → Result A × CsvTelemetryLogger F)
      → CsvTelemetryLogger F
      → Result A × CsvTelemetryLogger F
  unfolding close
  with_logger body l = let (r, l') = body l in (r, close l')

  -- The part of `log_frame` under the lock.
  unfoldable pub append_row : Row → CsvTelemetryLogger F → CsvTelemetryLogger F
  append_row row l =
      let l' : CsvTelemetryLogger F = record l {
        buffer = l.buffer ++ row ∷ [];
        total_logged = l.total_logged + 1;
      } in
      if leb l.buffer_size (length l'.buffer) then flush l' else l'

module _ {F : Type 0} ⦃fl : FloatOps F⦄ where
  -- The row of a parsed frame, with its label.
  unfoldable pub labelled : Text → ParsedTelemetry F → Row
  labelled label parsed = assign "label" (text label) (to_flat_dict parsed)

  -- From the parser's result on.
  unfoldable pub log_parsed :
      Text
      → Result (ParsedTelemetry F)
      → CsvTelemetryLogger F
      → Result (ParsedTelemetry F) × CsvTelemetryLogger F
  unfolding append_row labelled
  log_parsed label (raise e) l = (raise e, l)
  log_parsed label (ok parsed) l = (ok parsed, append_row (labelled label parsed) l)

  unfoldable pub log_frame :
      CanFrame F → Text → CsvTelemetryLogger F → Result (ParsedTelemetry F) × CsvTelemetryLogger F
  unfolding log_parsed
  log_frame f label l =
      let (parsed, parser) = parse_frame f l.parser in
      log_parsed label parsed (record l { parser = parser })

  -- for frame in frames: logger.log_frame(frame, label=label)
  unfoldable pub log_all :
      List (CanFrame F) → Text → CsvTelemetryLogger F → Result (Unit {0}) × CsvTelemetryLogger F
  log_all [] label l = (ok tt, l)
  log_all (f ∷ fs) label l =
      let (r, l') = log_frame f label l in
      let rest = log_all fs label l' in elim r [ ok _ ↦ rest | raise e ↦ (raise e, l') ]

  -- `generate_baseline_dataset` on the frames of the simulation: the number logged, and the logger,
  -- which a raise leaves unclosed.
  unfoldable pub write_baseline : List (CanFrame F) → List Line → Result ℕ × CsvTelemetryLogger F
  unfolding new_logger log_all
  write_baseline frames file =
      let (r, l) = log_all frames (codes "NORMAL") (new_logger 500 file) in
      elim r [ ok _ ↦ (ok (close l).total_logged, close l) | raise e ↦ (raise e, l) ]
