-- ===== src/Adapters/Sse/Decoder.antt =====
-- `SseDecoder` of src/adapters/sse.rs. An operation that fails returns the decoder that it leaves.
use agent_response_gateway.Base.{
  ℕ, ◌+◌, Bool, true, false, not, ◌||◌, ◌&&◌, Option, none, some, List, [], ◌∷◌, ◌++◌, Text, ltb,
  leb, ◌==◌, nat_eq, text_eq, bytes, length, is_empty, Result, ok, err, if◌then◌else◌,
}
use agent_response_gateway.Base.Utf8.{is_utf8}
use agent_response_gateway.Ir.{IrError, invalid_field, invalid_event_order, size_limit}

pub record SseEvent : Type 0 where
  pub event : Text
  pub data_text : Text

pub record SseDecoder : Type 0 where
  pub line : Text
  pub data_text : Text
  pub event : Text
  pub has_data : Bool
  pub first_line : Bool
  pub after_cr : Bool
  pub limit : ℕ

abbrev pub empty_decoder : ℕ → SseDecoder
empty_decoder limit = record {
  line = [];
  data_text = [];
  event = [];
  has_data = false;
  first_line = true;
  after_cr = false;
  limit = limit;
}

-- `SseDecoder::new`
unfoldable pub new : ℕ → Result IrError SseDecoder
new limit = if limit == 0 then err size_limit else ok (empty_decoder limit)

abbrev pub line_feed : ℕ
line_feed = 10

abbrev pub carriage_return : ℕ
carriage_return = 13

abbrev pub is_line_end : ℕ → Bool
is_line_end byte = byte == line_feed || byte == carriage_return

-- A line without the byte order mark of UTF-8.
abbrev pub strip_mark : Text → Text
strip_mark (a ∷ b ∷ c ∷ line) =
    if a == 0xef && (b == 0xbb && c == 0xbf) then line else a ∷ b ∷ c ∷ line
strip_mark line = line

-- `line.split_once(':').unwrap_or((line, ""))`
unfoldable pub split_field : Text → Text × Text
split_field [] = ([], [])
split_field (b ∷ line) =
    let (field, value) = split_field line in if b == b':' then ([], line) else (b ∷ field, value)

-- `value.strip_prefix(' ').unwrap_or(value)`
abbrev pub strip_space : Text → Text
strip_space [] = []
strip_space (b ∷ value) = if b == 0x20 then value else b ∷ value

-- `String::pop` on data whose last character is the line feed after a data line.
abbrev pub pop : Text → Text
pop [] = []
pop (b ∷ []) = []
pop (b ∷ c ∷ text) = b ∷ pop (c ∷ text)

abbrev pub starts_with_colon : Text → Bool
starts_with_colon [] = false
starts_with_colon (b ∷ _) = b == b':'

-- A result, and the decoder it leaves.
abbrev pub Outcome : Type 0
Outcome = Result IrError (Option SseEvent) × SseDecoder

-- The end of an event, at an empty line.
unfoldable pub dispatch : SseDecoder → Outcome
dispatch d = if not d.has_data then (ok none, record d { event = [] }) else (
  ok (
      some (record {
        event = if is_empty d.event then bytes "message" else d.event;
        data_text = pop d.data_text;
      })),
  record d { has_data = false; data_text = []; event = [] },
)

-- `match field`
unfoldable pub set_field : SseDecoder → Text → Text → Outcome
set_field d field value =
    if field == bytes "event"
    then (ok none, record d { event = value })
    else if field == bytes "data"
    then if ltb d.limit (length d.data_text + length value + 1 + length d.event)
      then (err size_limit, d)
      else (
        ok none,
        record d { data_text = d.data_text ++ value ++ line_feed ∷ []; has_data = true },
      )
    else (ok none, d)

-- `end_line` on the line without its mark.
unfoldable pub take_line : SseDecoder → Text → Outcome
take_line d line =
    if not (is_utf8 line)
    then (err (invalid_field "sse_utf8"), d)
    else if is_empty line
    then dispatch d
    else if starts_with_colon line
    then (ok none, d)
    else set_field d (split_field line).0 (strip_space (split_field line).1)

unfoldable pub end_line : SseDecoder → Outcome
end_line d =
    take_line (record d { line = []; first_line = false })
      (if d.first_line then strip_mark d.line else d.line)

-- `line.len() + data.len() + event.len()`, which no memory brings to the bound of `usize`.
abbrev pub held : SseDecoder → ℕ
held d = length d.line + length d.data_text + length d.event

-- One turn of the loop in `next_event`, past the line feed of a CRLF.
unfoldable pub take_byte : SseDecoder → ℕ → Outcome
take_byte d byte =
    if is_line_end byte
    then end_line (record d { after_cr = byte == carriage_return })
    else if leb d.limit (held d)
    then (err size_limit, d)
    else (ok none, record d { line = d.line ++ byte ∷ [] })

-- One turn of the loop in `next_event`.
unfoldable pub step : SseDecoder → ℕ → Outcome
step d byte =
    if d.after_cr && byte == line_feed
    then (ok none, record d { after_cr = false })
    else take_byte (record d { after_cr = false }) byte

-- The result, what is left of the input, and the decoder.
unfoldable pub next_event :
    SseDecoder → List ℕ → Result IrError (Option SseEvent) × List ℕ × SseDecoder
next_event d [] = (ok none, [], d)
next_event d (byte ∷ input) =
    let (result, d') = step d byte in
    elim result [
      | ok none ↦ next_event d' input
      | ok (some event) ↦ (ok (some event), input, d')
      | err e ↦ (err e, input, d')
    ]

unfoldable pub finish : SseDecoder → Result IrError (Unit {0})
finish d =
    if d.has_data || (not (is_empty d.line) || not (is_empty d.event))
    then err invalid_event_order
    else ok tt
