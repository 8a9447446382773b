-- ===== src/Flash/IntelHex/Safe.antt =====
-- When the two text parsers panic. They cut a `str` at byte offsets: on ASCII input every offset
-- starts a character, elsewhere the cut may fall inside one.
use agent_sim.Base.{
  ℕ, ◌+◌, ◌*◌, ◌%◌, ◌≤◌, ◌<◌, ◌≡◌, refl, ◌∙◌, ◌≢◌, inl, inr, true, false, not, ◌||◌, List, [], ◌∷◌,
  arith, IsAscii, utf8_ascii, All-trim, All-lines, ltb, ◌==◌, Bool-cases, length, take, All, Result,
  ok, err, ◌>>=◌, ◌>>◌, reject, map_err, Result-cases, Text, utf8, str_len, trim, is_empty, lines,
}
use agent_sim.Flash.Hex.{at_boundary, decode_pairs, decode_hex_bytes}
use agent_sim.Flash.IntelHex.{
  HexState, Next, proceed, leave, be16, hex_failure, set_upper, write_record, run_record,
  check_record, parse_line, parse_lines, parse_intel_hex,
}
use agent_sim.Flash.Memory.{FlashMemory, write, ensure_address_range}
use agent_sim.Flash.Types.{
  HexError, odd_length, bad_pair, split_char, LineError, bad_hex_length, segment_length,
  linear_length, FlashParseError, invalid_intel_hex, panicked,
}

at_boundary_ascii : (s : List ℕ) → All IsAscii s → at_boundary s ≡ true
at_boundary_ascii [] h = refl
at_boundary_ascii (c ∷ s) h = ground arith

abbrev pub Half : ℕ → Result (List ℕ) HexError → Type 0
Half n (ok bytes) = length bytes * 2 ≡ n
Half n (err e) = e ≢ split_char

-- An even number of ASCII characters is never cut in two, and decodes to half as many bytes.
pub decode_pairs_ascii :
    (s : List ℕ) → All IsAscii s → length s % 2 ≡ 0 → Half (length s) (decode_pairs s)
unfolding decode_pairs
decode_pairs_ascii [] h e = refl
decode_pairs_ascii (a ∷ []) h e = absurd (omega arith)
decode_pairs_ascii (a ∷ b ∷ s) h e =
    let rest = decode_pairs_ascii s h.1.1 (omega arith) in
    rw (at_boundary_ascii s h.1.1) (ground (arith, rest))

abbrev pub NoPanic : {A : Type 0} → Result A FlashParseError → Type 0
NoPanic r = r ≢ err panicked

pub write-NoPanic : (base : ℕ) (vs : List ℕ) (m : FlashMemory) → NoPanic (write base vs m)
unfolding write ensure_address_range
write-NoPanic base [] m = ground arith
write-NoPanic base (v ∷ vs) m = ground arith

write_record-NoPanic :
    (address : ℕ) (vs : List ℕ) (st : HexState) → NoPanic (write_record address vs st)
unfolding write_record
write_record-NoPanic address vs st =
    ground (arith, write-NoPanic (st.upper_addr + address) vs st.memory)

set_upper-NoPanic :
    (n scale : ℕ) (e : LineError) (vs : List ℕ) (st : HexState)
    → NoPanic (set_upper (invalid_intel_hex n e) scale vs st)
unfolding set_upper
set_upper-NoPanic n scale e [] st = λ h. cc
set_upper-NoPanic n scale e (a ∷ []) st = λ h. cc
set_upper-NoPanic n scale e (a ∷ b ∷ []) st = λ h. cc
set_upper-NoPanic n scale e (a ∷ b ∷ c ∷ vs) st = λ h. cc

run_record-NoPanic :
    (n kind address : ℕ) (vs : List ℕ) (st : HexState) → NoPanic (run_record n kind address vs st)
unfolding run_record
run_record-NoPanic n kind address vs st = ground (
  arith,
  write_record-NoPanic address vs st,
  set_upper-NoPanic n 16 segment_length vs st,
  set_upper-NoPanic n 65536 linear_length vs st,
)

-- No index of a record of five bytes or more is out of range.
check_record-NoPanic :
    (n : ℕ) (bytes : List ℕ) (st : HexState) → 5 ≤ length bytes → NoPanic (check_record n bytes st)
unfolding check_record
check_record-NoPanic n [] st h = absurd (omega arith)
check_record-NoPanic n (a ∷ []) st h = absurd (omega arith)
check_record-NoPanic n (a ∷ b ∷ []) st h = absurd (omega arith)
check_record-NoPanic n (a ∷ b ∷ c ∷ []) st h = absurd (omega arith)
check_record-NoPanic n (count ∷ hi ∷ lo ∷ kind ∷ rest) st h =
    ground (arith, run_record-NoPanic n kind (be16 hi lo) (take count rest) st)

decode_hex_bytes_ascii :
    (s : List ℕ) → All IsAscii s → length s % 2 ≡ 0 → Half (length s) (decode_hex_bytes s)
unfolding decode_hex_bytes
decode_hex_bytes_ascii s h e =
    let even : (length s % 2 == 0) ≡ true = ground arith in rw even (decode_pairs_ascii s h e)

hex_failure-ne : (n : ℕ) (e : HexError) → e ≢ split_char → hex_failure n e ≢ panicked
hex_failure-ne n odd_length h = λ k. cc
hex_failure-ne n (bad_pair a b) h = λ k. cc
hex_failure-ne n split_char h = absurd (h refl)

decoded-NoPanic :
    (n len : ℕ) (res : Result (List ℕ) HexError) (st : HexState)
    → Half len res
    → 10 ≤ len
    → NoPanic (map_err (hex_failure n) res >>= λ bytes. check_record n bytes st)
decoded-NoPanic n len (ok bytes) st h k = check_record-NoPanic n bytes st (omega arith)
decoded-NoPanic n len (err e) st h k = λ p. hex_failure-ne n e h (ground arith)

payload-NoPanic :
    (n : ℕ) (payload : Text) (st : HexState)
    → All IsAscii payload
    → NoPanic (
        reject
          (ltb (str_len payload) 10 || not (str_len payload % 2 == 0))
          (invalid_intel_hex n bad_hex_length)
        >> (map_err (hex_failure n) (decode_hex_bytes (utf8 payload)) >>= λ bytes.
            check_record n bytes st))
payload-NoPanic n payload st h =
    rw (utf8_ascii payload h)
      (elim (Bool-cases (ltb (length payload) 10 || not (length payload % 2 == 0))) [
        | inl bad ↦ rw bad (λ p. cc)
        | inr good ↦ rw good (
            decoded-NoPanic n (length payload) (decode_hex_bytes payload) st
              (decode_hex_bytes_ascii payload h (ground arith)) (ground arith))
      ])

parse_line-NoPanic :
    (n : ℕ) (line : Text) (st : HexState) → All IsAscii line → NoPanic (parse_line n line st)
unfolding parse_line
parse_line-NoPanic n [] st h = λ p. cc
parse_line-NoPanic n (c ∷ payload) st h = elim (Bool-cases (b':' == c)) [
  | inl colon ↦ rw colon (payload-NoPanic n payload st h.1)
  | inr other ↦ rw other (λ p. cc)
]

next-NoPanic :
    (k : HexState → Result FlashMemory FlashParseError) (res : Result Next FlashParseError)
    → NoPanic res
    → ((next : HexState) → NoPanic (k next))
    → NoPanic
        (elim res [ ok (proceed next) ↦ k next | ok (leave last) ↦ ok last.memory | err e ↦ err e ])
next-NoPanic k (ok (proceed next)) h ih = ih next
next-NoPanic k (ok (leave last)) h ih = λ p. cc
next-NoPanic k (err e) h ih = λ p. h (ground arith)

parse_lines-NoPanic :
    (ls : List Text) (n : ℕ) (st : HexState) → All (All IsAscii) ls → NoPanic (parse_lines n ls st)
unfolding parse_lines
parse_lines-NoPanic [] n st h = λ p. cc
parse_lines-NoPanic (line ∷ ls) n st h =
    let here = parse_line-NoPanic n (trim line) st (All-trim IsAscii line h.0) in
    let later : (next : HexState) → NoPanic (parse_lines (n + 1) ls next) =
      λ next. parse_lines-NoPanic ls (n + 1) next h.1 in
    elim (Bool-cases (is_empty (trim line))) [
      | inl blank ↦ rw (blank, parse_lines) (later st)
      | inr full ↦
          rw (full, parse_lines)
            (next-NoPanic (parse_lines (n + 1) ls) (parse_line n (trim line) st) here later)
    ]

-- `parse_intel_hex` never panics on ASCII input, however malformed.
pub parse_intel_hex_ascii :
    (content : Text) → All IsAscii content → parse_intel_hex content ≢ err panicked
unfolding parse_intel_hex
parse_intel_hex_ascii content h =
    let here =
      parse_lines-NoPanic (lines content) 1 (record { upper_addr = 0; memory = [] })
        (All-lines IsAscii content h) in
    elim (Result-cases (parse_lines 1 (lines content) (record { upper_addr = 0; memory = [] }))) [
      | inl (m, e) ↦ rw e (λ p. cc)
      | inr (x, e) ↦ rw e (λ p. here (e ∙ ground arith))
    ]

decode_pairs-split :
    (a c : ℕ) (rest : Text)
    → a < 0x80
    → 0x80 ≤ c
    → c < 0x800
    → decode_pairs (utf8 (a ∷ c ∷ rest)) ≡ err split_char
unfolding decode_pairs utf8
decode_pairs-split a c rest ha lo hi = ground arith

-- A record of an even number of bytes, ten or more, makes the parser panic if its first character
-- behind the colon is ASCII and its second one takes two bytes: the cut after the first two bytes
-- falls inside that character.
pub parse_line-panics :
    (n a c : ℕ) (rest : Text) (st : HexState)
    → a < 0x80
    → 0x80 ≤ c
    → c < 0x800
    → 10 ≤ str_len (a ∷ c ∷ rest)
    → str_len (a ∷ c ∷ rest) % 2 ≡ 0
    → parse_line n (b':' ∷ a ∷ c ∷ rest) st ≡ err panicked
unfolding parse_line decode_hex_bytes
parse_line-panics n a c rest st ha lo hi ten even =
    let long : (ltb (str_len (a ∷ c ∷ rest)) 10 || not (str_len (a ∷ c ∷ rest) % 2 == 0)) ≡ false =
      ground arith in
    let even' : (str_len (a ∷ c ∷ rest) % 2 == 0) ≡ true = ground arith in
    rw (long, even', decode_pairs-split a c rest ha lo hi)
