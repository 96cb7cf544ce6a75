-- ===== src/Logger/Rows.antt =====
-- src/logger/csv_logger.py: the file and the buffer together hold every row that was logged.
use mathlib.Core.List.{append_assoc, append-nil}
use can_sentinental.Prelude.{
  ◌+◌, ◌<◌, ◌≡◌, refl, sym, ap, ◌∙◌, true, false, List, [], ◌∷◌, ◌++◌, length, leb, is_empty, map,
  Error, Result, ok, raise, arith, Bool-cases, inl, inr,
}
use can_sentinental.Prelude.Text.{Text}
use can_sentinental.Floats.{FloatOps}
use can_sentinental.Frame.{CanFrame}
use can_sentinental.Parser.{
  Row, CanTelemetryParser, ParsedTelemetry, parse_frame, observe, telemetry,
}
use can_sentinental.Parser.Histories.{parse_frame-cases}
use can_sentinental.Logger.{
  Line, written, CsvTelemetryLogger, flush, close, append_row, labelled, log_parsed, log_frame,
  log_all, with_logger,
}

map-append : {A B : Type 0} (f : A → B) (xs ys : List A) → map f (xs ++ ys) ≡ map f xs ++ map f ys
map-append f [] ys = refl
map-append f (x ∷ xs) ys = ap (λ zs. f x ∷ zs) (map-append f xs ys)

-- What the file will hold once the buffer is written.
abbrev pub contents : {F : Type 0} → CsvTelemetryLogger F → List Line
contents l = l.file ++ map written l.buffer

-- The buffer of an open logger has room for another row.
pub record IsReady {F : Type 0} (l : CsvTelemetryLogger F) : Type 0 where
  pub open_handle : l.is_open ≡ true
  pub room : 0 < l.buffer_size → length l.buffer < l.buffer_size

is_empty-append : {A : Type 0} (xs : List A) (x : A) → is_empty (xs ++ x ∷ []) ≡ false
is_empty-append [] x = refl
is_empty-append (y ∷ xs) x = refl

is_empty-nil : {A : Type 0} (xs : List A) → is_empty xs ≡ true → xs ≡ []
is_empty-nil [] h = refl
is_empty-nil (x ∷ xs) h = absurd (ground arith)

lines-append :
    (file : List Line) (buffer : List Row) (row : Row)
    → file ++ map written (buffer ++ row ∷ []) ≡ (file ++ map written buffer) ++ written row ∷ []
lines-append file buffer row =
    ap (λ ls. file ++ ls) (map-append written buffer (row ∷ []))
    ∙ sym (append_assoc file (map written buffer) (written row ∷ []))

module _ {F : Type 0} where
  flush-contents :
      (l : CsvTelemetryLogger F)
      → l.is_open ≡ true
      → ((flush l).file ≡ contents l) × ((flush l).buffer ≡ [])
  unfolding flush
  flush-contents l o = elim (Bool-cases (is_empty l.buffer)) [
    | inl e ↦
        let none_left = is_empty-nil l.buffer e in
        rw (o, e) (sym (ap (λ b. l.file ++ map written b) none_left ∙ append-nil l.file), none_left)
    | inr e ↦ rw (o, e) (refl, refl)
  ]

  append_row-contents :
      (row : Row) (l : CsvTelemetryLogger F)
      → IsReady l
      → IsReady (append_row row l)
        × (contents (append_row row l) ≡ contents l ++ written row ∷ [])
        × ((append_row row l).total_logged ≡ l.total_logged + 1)
        × ((append_row row l).parser ≡ l.parser)
        × ((append_row row l).buffer_size ≡ l.buffer_size)
  unfolding append_row flush
  append_row-contents row l r =
      elim (Bool-cases (leb l.buffer_size (length (l.buffer ++ row ∷ [])))) [
        | inl e ↦
            rw (e, r.open_handle, is_empty-append)
              (
                record { open_handle = refl; room = λ p. p },
                append-nil _ ∙ lines-append l.file l.buffer row,
                refl,
                refl,
                refl,
              )
        | inr e ↦ rw e (
          record { open_handle = r.open_handle; room = λ p. ground arith },
          lines-append l.file l.buffer row,
          refl,
          refl,
          refl,
        )
      ]

module _ {F : Type 0} ⦃fl : FloatOps F⦄ (label : Text) where
  -- The rows of frames, until one of them makes the parser raise.
  unfoldable pub rows_of : List (CanFrame F) → CanTelemetryParser F → List Row
  rows_of [] p = []
  rows_of (f ∷ fs) p =
      let rest = rows_of fs (parse_frame f p).1 in
      elim (parse_frame f p).0 [ ok t ↦ labelled label t ∷ rest | raise e ↦ [] ]

  pub log_frame-parsed :
      (f : CanFrame F) (l : CsvTelemetryLogger F) (r : Result (ParsedTelemetry F))
      {p : CanTelemetryParser F}
      → parse_frame f l.parser ≡ (r, p)
      → log_frame f label l ≡ log_parsed label r (record l { parser = p })
  log_frame-parsed f l r e =
      unfold log_frame in
      ap
        (λ (q : Result (ParsedTelemetry F) × CanTelemetryParser F).
          log_parsed label q.0 (record l { parser = q.1 }))
        e

  pub log_all-ok :
      (f : CanFrame F) (fs : List (CanFrame F)) (l : CsvTelemetryLogger F) {t : ParsedTelemetry F}
      {p : CanTelemetryParser F}
      → parse_frame f l.parser ≡ (ok t, p)
      → log_all (f ∷ fs) label l
        ≡ log_all fs label (append_row (labelled label t) (record l { parser = p }))
  unfolding log_all log_parsed
  log_all-ok f fs l {t} h =
      ap
        (λ (q : Result (ParsedTelemetry F) × CsvTelemetryLogger F).
          elim q.0 as (λ _. Result (Unit {0}) × CsvTelemetryLogger F) [
            | ok _ ↦ log_all fs label q.1
            | raise e ↦ (raise e, q.1)
          ])
        (log_frame-parsed f l (ok t) h)

  pub log_all-raise :
      (f : CanFrame F) (fs : List (CanFrame F)) (l : CsvTelemetryLogger F) {e : Error}
      {p : CanTelemetryParser F}
      → parse_frame f l.parser ≡ (raise e, p)
      → log_all (f ∷ fs) label l ≡ (raise e, record l { parser = p })
  unfolding log_all log_parsed
  log_all-raise f fs l {e} h =
      ap
        (λ (q : Result (ParsedTelemetry F) × CsvTelemetryLogger F).
          elim q.0 as (λ _. Result (Unit {0}) × CsvTelemetryLogger F) [
            | ok _ ↦ log_all fs label q.1
            | raise err ↦ (raise err, q.1)
          ])
        (log_frame-parsed f l (raise e) h)

  pub rows_of-ok :
      (f : CanFrame F) (fs : List (CanFrame F)) (p : CanTelemetryParser F) {t : ParsedTelemetry F}
      {p' : CanTelemetryParser F}
      → parse_frame f p ≡ (ok t, p')
      → rows_of (f ∷ fs) p ≡ labelled label t ∷ rows_of fs p'
  unfolding rows_of
  rows_of-ok f fs p {t} h =
      ap
        (λ (q : Result (ParsedTelemetry F) × CanTelemetryParser F). elim q.0 as (λ _. List Row) [
          | ok t ↦ labelled label t ∷ rows_of fs q.1
          | raise e ↦ []
        ])
        h

  rows_of-raise :
      (f : CanFrame F) (fs : List (CanFrame F)) (p : CanTelemetryParser F) {e : Error}
      {p' : CanTelemetryParser F}
      → parse_frame f p ≡ (raise e, p')
      → rows_of (f ∷ fs) p ≡ []
  unfolding rows_of
  rows_of-raise f fs p h =
      ap
        (λ (q : Result (ParsedTelemetry F) × CanTelemetryParser F). elim q.0 as (λ _. List Row) [
          | ok t ↦ labelled label t ∷ rows_of fs q.1
          | raise e ↦ []
        ])
        h

  close-contents :
      (l : CsvTelemetryLogger F)
      → l.is_open ≡ true
      → ((close l).file ≡ contents l) × ((close l).buffer ≡ []) × ((close l).is_open ≡ false)
  unfolding close
  close-contents l o = ((flush-contents l o).0, (flush-contents l o).1, refl)

  log_all-nil : (l : CsvTelemetryLogger F) → log_all [] label l ≡ (ok tt, l)
  unfolding log_all
  log_all-nil l = refl

  pub rows_of-nil : (p : CanTelemetryParser F) → rows_of [] p ≡ []
  unfolding rows_of
  rows_of-nil p = refl

  log_all-contents :
      (fs : List (CanFrame F)) (l : CsvTelemetryLogger F)
      → IsReady l
      → IsReady (log_all fs label l).1
        × (contents (log_all fs label l).1 ≡ contents l ++ map written (rows_of fs l.parser))
        × ((log_all fs label l).1.total_logged ≡ l.total_logged + length (rows_of fs l.parser))
  log_all-contents [] l r =
      rw (log_all-nil, rows_of-nil) (r, sym (append-nil (contents l)), omega arith)
  log_all-contents (f ∷ fs) l r = elim (parse_frame-cases f l.parser) [
    | inl (signals, e) ↦
        let p = observe f l.parser in
        let row = labelled label (telemetry f l.parser signals) in
        let seen = record l { parser = p } in
        let (ready, held, counted, parser, _) =
          append_row-contents row seen (record { open_handle = r.open_handle; room = r.room }) in
        let (ready', held', counted') = log_all-contents fs (append_row row seen) ready in
        let rows' : rows_of fs (append_row row seen).parser ≡ rows_of fs p =
          ap (rows_of fs) parser in
        rw (log_all-ok f fs l e, rows_of-ok f fs l.parser e)
          (
            ready',
            held'
                ∙ (ap (λ q. contents (append_row row seen) ++ map written q) rows'
                    ∙ (ap (λ c. c ++ map written (rows_of fs p)) held
                        ∙ append_assoc (contents l) (written row ∷ [])
                            (map written (rows_of fs p)))),
            omega (arith, counted, counted', ap length rows'),
          )
    | inr (err, e) ↦
        rw (log_all-raise f fs l e, rows_of-raise f fs l.parser e)
          (
            record { open_handle = r.open_handle; room = r.room },
            sym (append-nil (contents l)),
            omega arith,
          )
  ]

  -- Logging frames one after the other appends exactly the rows of the frames that were parsed, up
  -- to the first that raises, to the file and the buffer together, in order and with the label; the
  -- counter counts these rows, the buffer stays below its size where that is not zero, and closing
  -- then leaves all of them in the file.
  pub log_all-rows :
      (fs : List (CanFrame F)) (l : CsvTelemetryLogger F)
      → IsReady l
      → let after = (log_all fs label l).1 in
        let rows = rows_of fs l.parser in
        IsReady after
        × (contents after ≡ contents l ++ map written rows)
        × (after.total_logged ≡ l.total_logged + length rows)
        × ((close after).file ≡ contents l ++ map written rows)
        × ((close after).buffer ≡ [])
  log_all-rows fs l r =
      let (ready, held, counted) = log_all-contents fs l r in
      let (file, buffer, _) = close-contents (log_all fs label l).1 ready.open_handle in
      (ready, held, counted, file ∙ held, buffer)

  -- Under `with`, the rows of the frames before one that raises are in the file.
  with_logger-rows :
      (fs : List (CanFrame F)) (l : CsvTelemetryLogger F)
      → IsReady l
      → ((with_logger (log_all fs label) l).1.file
          ≡ contents l ++ map written (rows_of fs l.parser))
        × ((with_logger (log_all fs label) l).0 ≡ (log_all fs label l).0)
  unfolding with_logger
  with_logger-rows fs l r = let (_, _, _, file, _) = log_all-rows fs l r in (file, refl)
