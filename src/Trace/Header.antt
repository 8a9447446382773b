-- ===== src/Trace/Header.antt =====
-- A reader of comma-separated records, which gives back the headers of a trace.
use agent_sim.Base.{
  ℕ, ◌≡◌, refl, ap, inl, inr, true, false, List, [], ◌∷◌, ◌++◌, append_assoc, arith, ◌==◌,
  Bool-cases, Text, codes,
}
use agent_sim.Trace.{double_quotes, is_special, escape_csv_cell, header_cells, header_text}

-- Where in a cell the reader is; `seen` is behind a quote inside quotes.
pub data Reading : Type 0 where
  start plain quoted seen : Reading

abbrev pub grow : ℕ → List Text → List Text
grow c [] = (c ∷ []) ∷ []
grow c (cell ∷ cells) = (c ∷ cell) ∷ cells

-- The cells of the first record.
unfoldable pub read : Reading → Text → List Text
read at [] = [] ∷ []
read quoted (c ∷ s) = elim (c == b'"') [ true ↦ read seen s | false ↦ grow c (read quoted s) ]
read plain (c ∷ s) = elim (c == b',') [
  | true ↦ [] ∷ read start s
  | false ↦ elim (c == b'\n') [ true ↦ [] ∷ [] | false ↦ grow c (read plain s) ]
]
read seen (c ∷ s) = elim (c == b'"') [
  | true ↦ grow b'"' (read quoted s)
  | false ↦ elim (c == b',') [
    | true ↦ [] ∷ read start s
    | false ↦ elim (c == b'\n') [ true ↦ [] ∷ [] | false ↦ grow c (read plain s) ]
  ]
]
read start (c ∷ s) = elim (c == b'"') [
  | true ↦ read quoted s
  | false ↦ elim (c == b',') [
    | true ↦ [] ∷ read start s
    | false ↦ elim (c == b'\n') [ true ↦ [] ∷ [] | false ↦ grow c (read plain s) ]
  ]
]

-- A text that no state but `quoted` reads into its cell.
record Ends (t : Text) (cells : List Text) : Type 0 where
  at_start : read start t ≡ [] ∷ cells
  at_plain : read plain t ≡ [] ∷ cells
  at_seen : read seen t ≡ [] ∷ cells

read-plain :
    (s t : Text) (cells : List Text)
    → is_special s ≡ false
    → Ends t cells
    → read plain (s ++ t) ≡ s ∷ cells
unfolding read is_special
read-plain [] t cells h e = e.at_plain
read-plain (c ∷ s) t cells h e =
    let rest = read-plain s t cells (ground arith) e in
    let comma : (c == b',') ≡ false = ground arith in
    let newline : (c == b'\n') ≡ false = ground arith in ground (arith, rest)

read-start :
    (s t : Text) (cells : List Text)
    → is_special s ≡ false
    → Ends t cells
    → read start (s ++ t) ≡ s ∷ cells
unfolding read is_special
read-start [] t cells h e = e.at_start
read-start (c ∷ s) t cells h e =
    let rest = read-plain s t cells (ground arith) e in
    let quote : (c == b'"') ≡ false = ground arith in
    let comma : (c == b',') ≡ false = ground arith in
    let newline : (c == b'\n') ≡ false = ground arith in ground (arith, rest)

read-quoted :
    (s t : Text) (cells : List Text)
    → Ends t cells
    → read quoted (double_quotes s ++ b'"' ∷ t) ≡ s ∷ cells
unfolding read double_quotes
read-quoted [] t cells e = e.at_seen
read-quoted (c ∷ s) t cells e =
    let rest = read-quoted s t cells e in
    elim (Bool-cases (c == b'"')) [
      | inl quote ↦ ground (arith, rest)
      | inr other ↦ ground (arith, rest)
    ]

read-escape_csv_cell :
    (s t : Text) (cells : List Text)
    → Ends t cells
    → read start (escape_csv_cell s ++ t) ≡ s ∷ cells
unfolding escape_csv_cell read
read-escape_csv_cell s t cells e = elim (Bool-cases (is_special s)) [
  | inl special ↦
      let move : (double_quotes s ++ b'"' ∷ []) ++ t ≡ double_quotes s ++ b'"' ∷ t =
        append_assoc (double_quotes s) (b'"' ∷ []) t in
      rw (special, move) (read-quoted s t cells e)
  | inr simple ↦ rw simple (read-start s t cells simple e)
]

header_cells-Ends : (hs : List Text) (rows : Text) → Ends (header_cells hs ++ rows) hs
unfolding header_cells read
header_cells-Ends [] rows = record { at_start = refl; at_plain = refl; at_seen = refl }
header_cells-Ends (h ∷ hs) rows =
    let rest : read start ((escape_csv_cell h ++ header_cells hs) ++ rows) ≡ h ∷ hs =
      rw (append_assoc (escape_csv_cell h) (header_cells hs) rows)
        (read-escape_csv_cell h (header_cells hs ++ rows) hs (header_cells-Ends hs rows)) in
    record { at_start = ap (◌∷◌ []) rest; at_plain = ap (◌∷◌ []) rest; at_seen = ap (◌∷◌ []) rest }

-- Whatever characters the headers have and whatever rows follow, the first record of the file is the
-- two fixed cells and the headers.
pub read-header_text :
    (headers : List Text) (rows : Text)
    → read start (header_text headers ++ rows) ≡ codes "tick" ∷ codes "time_us" ∷ headers
unfolding header_text read
read-header_text headers rows = let e = (header_cells-Ends headers rows).at_plain in rw e refl
