-- ===== src/Trace.antt =====
-- runtime/src/trace.rs: the CSV file of a trace. A writer keeps the text of its header and of the rows it
-- took, which stand in its buffer or in its file. The buffered file and the printing of floating-point
-- numbers are parameters.
pub mod Header
mod Tests
use agent_sim.Base.{
  ℕ, zero, suc, ◌+◌, ◌/◌, ◌%◌, Bool, true, false, not, ◌||◌, List, [], ◌∷◌, ◌++◌, ltb, ◌==◌,
  if◌then◌else◌, ℤ, pos, negsuc, Result, ok, err, Text, codes, contains_char,
}
use agent_sim.Sim.Types.{SignalValue, bool_value, u32_value, i32_value, f32_value, f64_value}

pub record CsvTraceWriter : Type 0 where
  pub path : Text
  pub content : Text
  pub row_count : ℕ

pub data TraceError : Type 0 where
  create_failed header_failed row_failed flush_failed : Text → TraceError

-- The digits of a number in front of a text; a number needs no more digits than its size.
abbrev pub decimal_onto : ℕ → ℕ → Text → Text
decimal_onto zero n acc = (b'0' + n % 10) ∷ acc
decimal_onto (suc fuel) n acc =
    if ltb n 10 then (b'0' + n) ∷ acc else decimal_onto fuel (n / 10) ((b'0' + n % 10) ∷ acc)

unfoldable pub decimal : ℕ → Text
decimal n = decimal_onto n n []

abbrev pub decimal_int : ℤ → Text
decimal_int (pos n) = decimal n
decimal_int (negsuc n) = b'-' ∷ decimal (suc n)

-- `value.replace('"', "\"\"")`.
unfoldable pub double_quotes : Text → Text
double_quotes [] = []
double_quotes (c ∷ s) = if c == b'"' then b'"' ∷ b'"' ∷ double_quotes s else c ∷ double_quotes s

unfoldable pub is_special : Text → Bool
is_special value =
    contains_char b',' value
    || contains_char b'"' value
    || contains_char b'\n' value
    || contains_char b'\r' value

unfoldable pub escape_csv_cell : Text → Text
escape_csv_cell value = if is_special value then b'"' ∷ double_quotes value ++ b'"' ∷ [] else value

-- The loop over the headers, and the newline behind them.
unfoldable pub header_cells : List Text → Text
header_cells [] = b'\n' ∷ []
header_cells (h ∷ hs) = b',' ∷ escape_csv_cell h ++ header_cells hs

unfoldable pub header_text : List Text → Text
header_text headers = codes "tick,time_us" ++ header_cells headers

module _ (print_float : SignalValue → Text) where
  abbrev pub value_text : SignalValue → Text
  value_text (bool_value b) = if b then codes "true" else codes "false"
  value_text (u32_value n) = decimal n
  value_text (i32_value z) = decimal_int z
  value_text (f32_value x) = print_float (f32_value x)
  value_text (f64_value x) = print_float (f64_value x)

  abbrev pub row_cells : List SignalValue → Text
  row_cells [] = b'\n' ∷ []
  row_cells (v ∷ vs) = b',' ∷ value_text v ++ row_cells vs

  abbrev pub row_text : ℕ → ℕ → List SignalValue → Text
  row_text tick time_us values = decimal tick ++ b',' ∷ decimal time_us ++ row_cells values

-- Whether the buffered file at a path takes all text up to here. It may take a row into its buffer and
-- refuse a later one, or the flush, for what the file did not take; what it keeps of a text that it
-- refused is not modelled. For the header this includes the flush behind it.
module _ (writes : Text → Text → Bool) where
  unfoldable pub create : Text → List Text → Result CsvTraceWriter TraceError
  create path headers =
      if not (writes path [])
      then err (create_failed path)
      else if not (writes path (header_text headers))
      then err (header_failed path)
      else ok (record { path = path; content = header_text headers; row_count = 0 })

  unfoldable pub write_row :
      (SignalValue → Text)
      → ℕ
      → ℕ
      → List SignalValue
      → CsvTraceWriter
      → Result CsvTraceWriter TraceError
  write_row print_float tick time_us values w =
      let row = row_text print_float tick time_us values in
      if not (writes w.path (w.content ++ row))
      then err (row_failed w.path)
      else ok (record { path = w.path; content = w.content ++ row; row_count = suc w.row_count })

-- The parameter says whether the file takes what is left in the buffer.
unfoldable pub flush : (Text → Text → Bool) → CsvTraceWriter → Result (Unit {0}) TraceError
flush flushes w = if not (flushes w.path w.content) then err (flush_failed w.path) else ok tt
