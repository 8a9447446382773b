-- ===== src/Trace/Tests.antt =====
-- A trace to run the definitions on, and the reading of its headers.
use agent_sim.Base.{◌≡◌, refl, true, List, [], ◌∷◌, ◌++◌, negsuc, ok, ◌>>=◌, Text, codes}
use agent_sim.Sim.Types.{SignalValue, bool_value, u32_value, i32_value}
use agent_sim.Trace.{
  decimal, is_special, double_quotes, escape_csv_cell, header_cells, header_text, create, write_row,
}
use agent_sim.Trace.Header.{read, start, read-header_text}

abbrev headers : List Text
headers = codes "signal,one" ∷ codes "signal\"two" ∷ codes "signal-three" ∷ []

header_runs :
    header_text headers ≡ codes "tick,time_us,\"signal,one\",\"signal\"\"two\",signal-three\n"
unfolding header_text header_cells escape_csv_cell is_special double_quotes
header_runs = refl

abbrev first_row : List SignalValue
first_row = bool_value true ∷ u32_value 1005 ∷ i32_value (negsuc 9) ∷ []

row_runs :
    (create (λ _ _. true) (codes "t.csv") [] >>= write_row (λ _ _. true) (λ _. []) 7 42 first_row)
    ≡ ok (record {
      path = codes "t.csv";
      content = codes "tick,time_us\n7,42,true,1005,-10\n";
      row_count = 1;
    })
unfolding create write_row header_text header_cells decimal
row_runs = refl

read-header_text_example :
    read start (header_text headers ++ codes "7,42\n") ≡ codes "tick" ∷ codes "time_us" ∷ headers
read-header_text_example = read-header_text headers (codes "7,42\n")
