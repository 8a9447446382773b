-- ===== src/Flash/Hex.antt =====
-- runtime/src/load/mod.rs, `decode_hex_bytes`, over the UTF-8 bytes of its argument.
use agent_sim.Base.{
  ℕ, ◌%◌, Bool, true, ◌||◌, not, List, [], ◌∷◌, ltb, leb, ◌==◌, if◌then◌else◌, length, Result, ok,
  err, ◌>>=◌, ◌>>◌, reject, from_str_radix, ok_or,
}
use agent_sim.Flash.Types.{HexError, odd_length, bad_pair, split_char}

-- `str::is_char_boundary` at the start of these bytes: no continuation byte stands there.
abbrev pub at_boundary : List ℕ → Bool
at_boundary [] = true
at_boundary (b ∷ _) = ltb b 0x80 || leb 0xC0 b

-- The loop over the pairs. A text of odd length never gets here.
unfoldable pub decode_pairs : List ℕ → Result (List ℕ) HexError
unfolding from_str_radix
decode_pairs [] = ok []
decode_pairs (a ∷ []) = err split_char
decode_pairs (a ∷ b ∷ rest) = do
  reject (not (at_boundary rest)) split_char
  value ← ok_or (from_str_radix 16 256 (a ∷ b ∷ [])) (bad_pair a b)
  values ← decode_pairs rest
  ok (value ∷ values)

unfoldable pub decode_hex_bytes : List ℕ → Result (List ℕ) HexError
unfolding decode_pairs
decode_hex_bytes raw = if not (length raw % 2 == 0) then err odd_length else decode_pairs raw
