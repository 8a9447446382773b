-- ===== src/Flash/IntelHex/RoundTrip.antt =====
-- An Intel HEX file printed from its records is read back as those records.
use agent_sim.Base.{
  ℕ, ◌+◌, ◌-◌, ◌*◌, ◌/◌, ◌%◌, ◌^◌, ◌≤◌, ◌<◌, ◌≡◌, refl, ap, ◌∙◌, inl, inr, true, false, not, ◌||◌,
  List, [], ◌∷◌, ◌++◌, arith, IsPlain, utf8_ascii, plain-IsAscii, trim_plain, lines_plain, ltb,
  ◌==◌, if◌then◌else◌, Bool-cases, length, All, length-append, take-append_length, All-append,
  Result, ok, err, ◌>>=◌, Text, trim, lines,
}
use agent_sim.Flash.IntelHex.{
  HexState, Next, proceed, leave, byte_sum, be16, write_record, run_record, check_record,
  parse_line, parse_lines, parse_intel_hex,
}
use agent_sim.Flash.Memory.{FlashMemory, ensure_address_range, write_bytes, write, into_regions}
use agent_sim.Flash.Print.{
  IsByte, print_bytes, print_bytes-IsPlain, length-print_bytes, decode_hex_bytes-print, total,
  total-concat, byte_sum-total,
}
use agent_sim.Flash.Types.{FlashParseError, address_overflow}

-- The records of the format: data at an offset, end of file, extended segment and linear address,
-- and the start address records, of types 3 and 5.
pub data Record : Type 0 where
  block_at : ℕ → List ℕ → Record
  end_of_file : Record
  segment linear : ℕ → Record
  start_segment start_linear : List ℕ → Record

abbrev offset_of : Record → ℕ
offset_of (block_at offset values) = offset
offset_of _ = 0

abbrev type_of : Record → ℕ
type_of (block_at _ _) = 0
type_of end_of_file = 1
type_of (segment _) = 2
type_of (linear _) = 4
type_of (start_segment _) = 3
type_of (start_linear _) = 5

abbrev payload_of : Record → List ℕ
payload_of (block_at offset values) = values
payload_of end_of_file = []
payload_of (segment s) = s / 256 ∷ s % 256 ∷ []
payload_of (linear s) = s / 256 ∷ s % 256 ∷ []
payload_of (start_segment values) = values
payload_of (start_linear values) = values

-- The fields fit: 16-bit addresses, at most 255 data bytes.
abbrev pub IsEncodable : Record → Type 0
IsEncodable (block_at offset values) = (offset < 65536) × (length values < 256) × All IsByte values
IsEncodable end_of_file = Unit
IsEncodable (segment s) = s < 65536
IsEncodable (linear s) = s < 65536
IsEncodable (start_segment values) = (length values < 256) × All IsByte values
IsEncodable (start_linear values) = (length values < 256) × All IsByte values

abbrev fields : Record → List ℕ
fields r = length (payload_of r) ∷ offset_of r / 256 ∷ offset_of r % 256 ∷ type_of r ∷ payload_of r

-- The byte that brings the sum of the record to 0.
abbrev checksum : List ℕ → ℕ
checksum bytes = (256 - total bytes % 256) % 256

abbrev encoded : Record → List ℕ
encoded r = fields r ++ checksum (fields r) ∷ []

abbrev render_line : Record → Text
render_line r = b':' ∷ print_bytes (encoded r)

abbrev pub render : List Record → Text
render [] = []
render (r ∷ rs) = render_line r ++ b'\n' ∷ render rs

-- What the records say, by the base of the last address record and the bytes stored so far: data go to
-- the base plus their offset, the later bytes over the earlier ones, unless they leave the 32 bits;
-- nothing counts after the end-of-file record.
abbrev pub execute : List Record → ℕ → FlashMemory → Result FlashMemory FlashParseError
execute [] base memory = ok memory
execute (block_at offset values ∷ rs) base memory =
    let rest = execute rs base (write_bytes (base + offset) values memory) in
    if ltb (2 ^ 32 - 1) (base + offset)
    then err (address_overflow base offset)
    else if ltb (2 ^ 32) (base + offset + length values)
    then err (address_overflow (base + offset) (length values))
    else rest
execute (end_of_file ∷ rs) base memory = ok memory
execute (segment s ∷ rs) base memory = execute rs (s * 16) memory
execute (linear s ∷ rs) base memory = execute rs (s * 65536) memory
execute (start_segment values ∷ rs) base memory = execute rs base memory
execute (start_linear values ∷ rs) base memory = execute rs base memory

payload-facts :
    (r : Record)
    → IsEncodable r
    → (length (payload_of r) < 256)
      × (offset_of r < 65536)
      × (type_of r < 256)
      × All IsByte (payload_of r)
payload-facts (block_at offset values) h = (h.1, h.0, omega arith, h.2)
payload-facts end_of_file h = (omega arith, omega arith, omega arith, tt)
payload-facts (segment s) h = (omega arith, omega arith, omega arith, omega arith)
payload-facts (linear s) h = (omega arith, omega arith, omega arith, omega arith)
payload-facts (start_segment values) h = (h.0, omega arith, omega arith, h.1)
payload-facts (start_linear values) h = (h.0, omega arith, omega arith, h.1)

encoded-bytes : (r : Record) → IsEncodable r → All IsByte (encoded r)
encoded-bytes r h =
    let (len, off, kind, values) = payload-facts r h in
    All-append IsByte (fields r) (checksum (fields r) ∷ [])
      (len, (omega arith, (omega arith, (kind, values)))) (omega arith, tt)

encoded-sum : (r : Record) → byte_sum 0 (encoded r) ≡ 0
encoded-sum r =
    byte_sum-total 0 (encoded r) ∙ omega (arith, total-concat (fields r) (checksum (fields r)))

-- The effect of one record.
abbrev effect : Record → HexState → Result Next FlashParseError
effect (block_at offset values) st = write_record offset values st
effect end_of_file st = ok (leave st)
effect (segment s) st = ok (proceed (record st { upper_addr = s * 16 }))
effect (linear s) st = ok (proceed (record st { upper_addr = s * 65536 }))
effect (start_segment values) st = ok (proceed st)
effect (start_linear values) st = ok (proceed st)

run_record-effect :
    (n : ℕ) (r : Record) (st : HexState)
    → run_record n (type_of r) (be16 (offset_of r / 256) (offset_of r % 256)) (payload_of r) st
      ≡ effect r st
unfolding run_record
run_record-effect n (block_at offset values) st =
    let e : offset / 256 * 256 + offset % 256 ≡ offset = omega arith in rw e
run_record-effect n end_of_file st = refl
run_record-effect n (segment s) st = let e : s / 256 * 256 + s % 256 ≡ s = omega arith in rw e
run_record-effect n (linear s) st = let e : s / 256 * 256 + s % 256 ≡ s = omega arith in rw e
run_record-effect n (start_segment values) st = refl
run_record-effect n (start_linear values) st = refl

check_record-encoded :
    (n : ℕ) (r : Record) (st : HexState) → check_record n (encoded r) st ≡ effect r st
unfolding check_record
check_record-encoded n r st =
    let len = length-append (payload_of r) (checksum (fields r) ∷ []) in
    let fits : (length (payload_of r ++ checksum (fields r) ∷ []) + 4 == length (payload_of r) + 5)
        ≡ true =
      ground arith in
    rw (fits, encoded-sum r, take-append_length (payload_of r) (checksum (fields r) ∷ []))
      (run_record-effect n r st)

length-encoded : (r : Record) → length (encoded r) ≡ length (payload_of r) + 5
length-encoded r = omega (arith, length-append (payload_of r) (checksum (fields r) ∷ []))

-- A line of printed bytes is checked as those bytes.
parse_line-print :
    (n : ℕ) (bs : List ℕ) (st : HexState)
    → All IsByte bs
    → 5 ≤ length bs
    → parse_line n (b':' ∷ print_bytes bs) st ≡ check_record n bs st
unfolding parse_line
parse_line-print n bs st h five =
    let ascii = utf8_ascii (print_bytes bs) (plain-IsAscii _ (print_bytes-IsPlain bs h)) in
    let len = length-print_bytes bs in
    let long : (ltb (length (print_bytes bs)) 10 || not (length (print_bytes bs) % 2 == 0))
        ≡ false =
      ground arith in
    rw (ascii, long, decode_hex_bytes-print bs h)

parse_line-render :
    (n : ℕ) (r : Record) (st : HexState)
    → IsEncodable r
    → parse_line n (render_line r) st ≡ effect r st
parse_line-render n r st h =
    parse_line-print n (encoded r) st (encoded-bytes r h) (omega (arith, length-encoded r))
    ∙ check_record-encoded n r st

render_line-IsPlain : (r : Record) → IsEncodable r → All IsPlain (render_line r)
render_line-IsPlain r h = ((omega arith), print_bytes-IsPlain (encoded r) (encoded-bytes r h))

-- One line of the loop.
abbrev continue_with :
    (HexState → Result FlashMemory FlashParseError)
    → Result Next FlashParseError
    → Result FlashMemory FlashParseError
continue_with k (ok (proceed next)) = k next
continue_with k (ok (leave last)) = ok last.memory
continue_with k (err e) = err e

continue_with-elim :
    (k : HexState → Result FlashMemory FlashParseError) (res : Result Next FlashParseError)
    → (elim res [ ok (proceed next) ↦ k next | ok (leave last) ↦ ok last.memory | err e ↦ err e ])
      ≡ continue_with k res
continue_with-elim k (ok (proceed next)) = refl
continue_with-elim k (ok (leave last)) = refl
continue_with-elim k (err e) = refl

parse_lines-plain :
    (n c : ℕ) (s : Text) (rest : List Text) (st : HexState)
    → All IsPlain (c ∷ s)
    → parse_lines n ((c ∷ s) ∷ rest) st
      ≡ continue_with (parse_lines (n + 1) rest) (parse_line n (c ∷ s) st)
unfolding parse_lines
parse_lines-plain n c s rest st h =
    rw (trim_plain (c ∷ s) h, parse_lines)
      (continue_with-elim (parse_lines (n + 1) rest) (parse_line n (trim (c ∷ s)) st)
        ∙ ap (λ t. continue_with (parse_lines (n + 1) rest) (parse_line n t st))
            (trim_plain (c ∷ s) h))

parse_lines-render :
    (r : Record) (n : ℕ) (rest : List Text) (st : HexState)
    → IsEncodable r
    → parse_lines n (render_line r ∷ rest) st
      ≡ continue_with (parse_lines (n + 1) rest) (effect r st)
parse_lines-render r n rest st h =
    parse_lines-plain n b':' (print_bytes (encoded r)) rest st (render_line-IsPlain r h)
    ∙ ap (continue_with (parse_lines (n + 1) rest)) (parse_line-render n r st h)

write-if :
    (base : ℕ) (values : List ℕ) (memory : FlashMemory)
    → base < 2 ^ 32
    → write base values memory ≡ (
        if ltb (2 ^ 32) (base + length values)
        then err (address_overflow base (length values))
        else ok (write_bytes base values memory))
unfolding write ensure_address_range
write-if base values memory small = elim (Bool-cases (length values == 0)) [
  | inl none_there ↦
      let fits : ltb (2 ^ 32) (base + length values) ≡ false = ground arith in
      rw (none_there, fits) refl
  | inr some_there ↦ elim (Bool-cases (ltb (2 ^ 32) (base + length values))) [
    | inl long ↦
        let over : ltb (2 ^ 32 - 1) (base + length values - 1) ≡ true = ground arith in
        rw (some_there, over, long) refl
    | inr fits ↦
        let under : ltb (2 ^ 32 - 1) (base + length values - 1) ≡ false = ground arith in
        rw (some_there, under, fits) refl
  ]
]

-- A data record stores its bytes or fails, as `execute` has it.
continue_with-block :
    (offset : ℕ) (values : List ℕ) (rs : List Record)
    (k : HexState → Result FlashMemory FlashParseError) (st : HexState)
    → ((next : HexState) → k next ≡ execute rs next.upper_addr next.memory)
    → continue_with k (write_record offset values st)
      ≡ execute (block_at offset values ∷ rs) st.upper_addr st.memory
unfolding write_record
continue_with-block offset values rs k st h =
    elim (Bool-cases (ltb (2 ^ 32 - 1) (st.upper_addr + offset))) [
      | inl far ↦ rw far refl
      | inr near ↦
          let stored = write-if (st.upper_addr + offset) values st.memory (ground arith) in
          elim (Bool-cases (ltb (2 ^ 32) (st.upper_addr + offset + length values))) [
            | inl long ↦ rw (near, stored, long) refl
            | inr fits ↦ rw (near, stored, fits) (h _)
          ]
    ]

continue_with-execute :
    (r : Record) (rs : List Record) (k : HexState → Result FlashMemory FlashParseError)
    (st : HexState)
    → ((next : HexState) → k next ≡ execute rs next.upper_addr next.memory)
    → continue_with k (effect r st) ≡ execute (r ∷ rs) st.upper_addr st.memory
continue_with-execute (block_at offset values) rs k st h =
    continue_with-block offset values rs k st h
continue_with-execute end_of_file rs k st h = refl
continue_with-execute (segment s) rs k st h = h _
continue_with-execute (linear s) rs k st h = h _
continue_with-execute (start_segment values) rs k st h = h st
continue_with-execute (start_linear values) rs k st h = h st

parse_lines-execute :
    (rs : List Record) (n : ℕ) (st : HexState)
    → All IsEncodable rs
    → parse_lines n (lines (render rs)) st ≡ execute rs st.upper_addr st.memory
parse_lines-execute [] n st h = unfold parse_lines lines in refl
parse_lines-execute (r ∷ rs) n st h =
    ap (λ ls. parse_lines n ls st)
      (lines_plain (render_line r) (render rs) (render_line-IsPlain r h.0))
    ∙ parse_lines-render r n (lines (render rs)) st h.0
    ∙ continue_with-execute r rs (parse_lines (n + 1) (lines (render rs))) st
        λ next. parse_lines-execute rs (n + 1) next h.1

-- A file printed from encodable records, with their byte counts and checksums, is read as what the
-- records say: the regions of their data, each block at the base of the last address record plus its
-- offset, or the error of the first block that leaves the 32-bit addresses.
pub parse_intel_hex-render :
    (rs : List Record)
    → All IsEncodable rs
    → parse_intel_hex (render rs) ≡ (execute rs 0 [] >>= λ memory. ok (into_regions memory))
unfolding parse_intel_hex
parse_intel_hex-render rs h =
    rw (parse_lines-execute rs 1 (record { upper_addr = 0; memory = [] }) h)
