-- ===== src/Dbc/Overlay.antt =====
-- runtime/src/can/dbc.rs: `DbcBusOverlay`. The messages and signals are what the crate can_dbc makes
-- of a DBC file; its `Message` and `Signal` are given by the fields that the program reads.
use agent_sim.Base.{
  ℕ, ◌≤◌, ◌<◌, ◌≡◌, refl, sym, ◌∙◌, ◌≢◌, inl, inr, Bool, true, false, not, ◌||◌, none, some, List,
  [], ◌∷◌, arith, ltb, ◌==◌, if◌then◌else◌, ltb-eq_false, Bool-cases, Result, ok, ◌>>=◌, ◌>>◌,
  reject, >>=-eq-ok, ok_injective, reject-eq_ok, Text, text_eq, text_eq_iff, is_empty,
}
use agent_sim.Base.Map.{get, insert, get-insert_self, get-insert_ne, text_order}
use agent_sim.Dbc.Types.{
  DbcError, message_size_invalid, message_too_large, multiplexed, signal_size_invalid, ByteOrder,
  ValueType, DbcSignalDef,
}
use agent_sim.Dbc.Codec.{frame_key}

pub data MessageId : Type 0 where
  standard extended_id : ℕ → MessageId

-- `is_plain` is `multiplexer_indicator == MultiplexIndicator::Plain`.
pub record SourceSignal (F64 : Type 0) : Type 0 where
  pub signal_name : Text
  pub is_plain : Bool
  pub first_bit : ℕ
  pub bit_size : ℕ
  pub order : ByteOrder
  pub kind : ValueType
  pub slope : F64
  pub shift : F64
  pub least : F64
  pub most : F64
  pub unit_text : Text

pub record SourceMessage (F64 : Type 0) : Type 0 where
  pub message_name : Text
  pub id : MessageId
  pub byte_size : ℕ
  pub signals : List (SourceSignal F64)

abbrev pub id_parts : MessageId → ℕ × Bool
id_parts (standard id) = (id, false)
id_parts (extended_id id) = (id, true)

module _ {F64 : Type 0} where
  abbrev pub signal_def : ℕ → Bool → ℕ → SourceSignal F64 → DbcSignalDef F64
  signal_def arb_id extended message_size s = record {
    name = s.signal_name;
    frame_key = frame_key arb_id extended;
    arb_id = arb_id;
    extended = extended;
    message_size = message_size;
    start_bit = s.first_bit;
    size = s.bit_size;
    byte_order = s.order;
    value_type = s.kind;
    factor = s.slope;
    offset = s.shift;
    lowest = s.least;
    highest = s.most;
    unit = if is_empty s.unit_text then none else some s.unit_text;
  }

  -- The loop over the signals of a message.
  unfoldable pub load_signals :
      Text
      → ℕ
      → Bool
      → ℕ
      → List (SourceSignal F64)
      → List (Text × DbcSignalDef F64)
      → Result (List (Text × DbcSignalDef F64)) DbcError
  load_signals message arb_id extended message_size [] signals_by_name = ok signals_by_name
  load_signals message arb_id extended message_size (s ∷ ss) signals_by_name = do
    reject (not s.is_plain) (multiplexed message s.signal_name)
    reject (s.bit_size == 0 || ltb 64 s.bit_size)
        (signal_size_invalid message s.signal_name s.bit_size)
    load_signals message arb_id extended message_size ss
        (insert s.signal_name (signal_def arb_id extended message_size s) signals_by_name)

  -- The loop over the messages.
  unfoldable pub load_messages :
      List (SourceMessage F64)
      → List (Text × DbcSignalDef F64)
      → Result (List (Text × DbcSignalDef F64)) DbcError
  load_messages [] signals_by_name = ok signals_by_name
  load_messages (m ∷ ms) signals_by_name = do
    reject (ltb 255 m.byte_size) (message_size_invalid m.message_name m.byte_size)
    reject (ltb 64 m.byte_size) (message_too_large m.message_name m.byte_size)
    after ←
        load_signals m.message_name (id_parts m.id).0 (id_parts m.id).1 m.byte_size m.signals
          signals_by_name
    load_messages ms after

  -- `DbcBusOverlay::load`, after the file is read and parsed.
  unfoldable pub load_overlay :
      List (SourceMessage F64) → Result (List (Text × DbcSignalDef F64)) DbcError
  load_overlay messages = load_messages messages []

  -- What the other functions rely on in a signal of an overlay.
  pub record IsUsable (name : Text) (signal : DbcSignalDef F64) : Type 0 where
    pub own_name : signal.name ≡ name
    pub some_bits : 0 < signal.size
    pub at_most_64 : signal.size ≤ 64
    pub fits_frame : signal.message_size ≤ 64
    pub own_key : signal.frame_key ≡ frame_key signal.arb_id signal.extended

  abbrev pub AllUsable : List (Text × DbcSignalDef F64) → Type 0
  AllUsable signals_by_name =
      (name : Text) (signal : DbcSignalDef F64)
      → get name signals_by_name ≡ some signal
      → IsUsable name signal

  insert-AllUsable :
      (name : Text) (signal : DbcSignalDef F64) (m : List (Text × DbcSignalDef F64))
      → IsUsable name signal
      → AllUsable m
      → AllUsable (insert name signal m)
  insert-AllUsable name signal m u all other found e = elim (Bool-cases (text_eq name other)) [
    | inl same ↦
        let k : name ≡ other = (text_eq_iff name other).0 same in
        let v : found ≡ signal =
          (let first : get other (insert name signal m) ≡ some signal =
              rw⁻¹ k (get-insert_self name signal m) in
            cc) in
        rw v (rw⁻¹ k u)
    | inr apart ↦
        let d : name ≢ other = λ k. (let t = (text_eq_iff name other).1 k in cc) in
        all other found (sym (get-insert_ne name other signal m d) ∙ e)
  ]

  load_signals-AllUsable :
      (message : Text) (arb_id : ℕ) (extended : Bool) (message_size : ℕ)
      (ss : List (SourceSignal F64)) (m : List (Text × DbcSignalDef F64))
      {out : List (Text × DbcSignalDef F64)}
      → message_size ≤ 64
      → AllUsable m
      → load_signals message arb_id extended message_size ss m ≡ ok out
      → AllUsable out
  unfolding load_signals
  load_signals-AllUsable message arb_id extended message_size [] m fits all e =
      let same = ok_injective e in rw⁻¹ same all
  load_signals-AllUsable message arb_id extended message_size (s ∷ ss) m fits all e =
      let rest : load_signals message arb_id extended message_size ss
            (insert s.signal_name (signal_def arb_id extended message_size s) m)
          ≡ ok _ =
        ground arith in
      let bits : (0 < s.bit_size) × (s.bit_size ≤ 64) = ground arith in
      load_signals-AllUsable message arb_id extended message_size ss
        (insert s.signal_name (signal_def arb_id extended message_size s) m) fits
        (insert-AllUsable s.signal_name (signal_def arb_id extended message_size s) m
          (record {
            own_name = refl;
            some_bits = bits.0;
            at_most_64 = bits.1;
            fits_frame = fits;
            own_key = refl;
          })
          all)
        rest

  load_messages-AllUsable :
      (ms : List (SourceMessage F64)) (m : List (Text × DbcSignalDef F64))
      {out : List (Text × DbcSignalDef F64)}
      → AllUsable m
      → load_messages ms m ≡ ok out
      → AllUsable out
  unfolding load_messages
  load_messages-AllUsable [] m all e = rw⁻¹ (ok_injective e) all
  load_messages-AllUsable (msg ∷ ms) m all e =
      let (_, e1) =
        reject-eq_ok (ltb 255 msg.byte_size) (message_size_invalid msg.message_name msg.byte_size) _
          e in
      let (small, e2) =
        reject-eq_ok (ltb 64 msg.byte_size) (message_too_large msg.message_name msg.byte_size) _
          e1 in
      let (after, loaded, rest) =
        >>=-eq-ok
          (load_signals msg.message_name (id_parts msg.id).0 (id_parts msg.id).1 msg.byte_size
            msg.signals m)
          _ e2 in
      load_messages-AllUsable ms after
        (load_signals-AllUsable msg.message_name (id_parts msg.id).0 (id_parts msg.id).1
          msg.byte_size msg.signals m (ltb-eq_false _ _ small) all loaded)
        rest

  -- Every signal that an overlay has under a name bears that name, has 1 to 64 bits, belongs to a
  -- message of at most 64 bytes and has the frame key of its identifier.
  pub load_overlay-AllUsable :
      (messages : List (SourceMessage F64)) {overlay : List (Text × DbcSignalDef F64)}
      → load_overlay messages ≡ ok overlay
      → AllUsable overlay
  unfolding load_overlay
  load_overlay-AllUsable messages e =
      load_messages-AllUsable messages [] (λ name found bad. absurd (cc)) e
