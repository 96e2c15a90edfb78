-- ===== src/Adapters/Sse/Bounds.antt =====
-- The size of what a decoder of src/adapters/sse.rs holds.
use agent_response_gateway.Base.{
  ℕ, ◌+◌, ◌≤◌, ◌<◌, ◌≡◌, refl, arith, Bool, true, false, ◌&&◌, Option, some, List, [], ◌∷◌, ◌++◌,
  ltb, leb, ◌==◌, nat_eq, text_eq, Text, bytes, inl, inr, Bool-cases, ◌⊎◌, length, length-append,
  is_empty, All, Result, ok, err, if◌then◌else◌,
}
use agent_response_gateway.Base.Utf8.{is_utf8}
use agent_response_gateway.Ir.{IrError}
use agent_response_gateway.Adapters.Sse.Decoder.{
  SseDecoder, SseEvent, Outcome, new, empty_decoder, held, line_feed, carriage_return, is_line_end,
  strip_mark, strip_space, split_field, starts_with_colon, pop, dispatch, set_field, take_line,
  end_line, take_byte, step,
}
use agent_response_gateway.Adapters.Sse.Stream.{decode, Answer-cases}

-- The data of an event that is not finished ends in the line feed that `pop` takes off.
abbrev pub Ends : Bool → Text → Type 0
Ends false text = text ≡ []
Ends true text = (lines : Text) × (text ≡ lines ++ line_feed ∷ [])

pub record IsValid (d : SseDecoder) : Type 0 where
  pub bounded : held d ≤ d.limit
  pub ends : Ends d.has_data d.data_text

-- An event's name and data are within the limit together, or its name is "message" and its data is.
abbrev pub IsBounded : ℕ → SseEvent → Type 0
IsBounded limit event =
    (length event.data_text + length event.event ≤ limit)
    ⊎ ((event.event ≡ bytes "message") × (length event.data_text ≤ limit))

abbrev AnswerIsBounded : ℕ → Result IrError (Option SseEvent) → Type 0
AnswerIsBounded limit (ok (some event)) = IsBounded limit event
AnswerIsBounded limit _ = Unit

-- What a step leaves.
record Good (limit : ℕ) (o : Outcome) : Type 0 where
  valid : IsValid o.1
  same : o.1.limit ≡ limit
  answer : AnswerIsBounded limit o.0

strip_mark-length : (line : Text) → length (strip_mark line) ≤ length line
strip_mark-length (a ∷ b ∷ c ∷ line) = ground arith
strip_mark-length [] = omega arith
strip_mark-length (a ∷ []) = omega arith
strip_mark-length (a ∷ b ∷ []) = omega arith

strip_space-length : (value : Text) → length (strip_space value) ≤ length value
strip_space-length [] = omega arith
strip_space-length (b ∷ value) = ground arith

split_field-length : (line : Text) → length (split_field line).1 ≤ length line
unfolding split_field
split_field-length [] = omega arith
split_field-length (b ∷ line) = ground (arith, split_field-length line)

pop-length : (text : Text) → length (pop text) ≤ length text
pop-length [] = omega arith
pop-length (b ∷ []) = omega arith
pop-length (b ∷ c ∷ text) = omega (arith, pop-length (c ∷ text))

pub added-length : (a b : Text) → length (a ++ b ++ line_feed ∷ []) ≡ length a + length b + 1
added-length a b = omega (arith, length-append (a ++ b) (line_feed ∷ []), length-append a b)

below : {a b : ℕ} → leb a b ≡ false → b < a
below h = ground arith

not_above : {a b : ℕ} → ltb a b ≡ false → b ≤ a
not_above h = ground arith

named-IsBounded :
    (limit : ℕ) (name data_text : Text)
    → length data_text + length name ≤ limit
    → IsBounded limit
        (record { event = if is_empty name then bytes "message" else name; data_text = data_text })
named-IsBounded limit [] data_text h = inr (refl, omega arith)
named-IsBounded limit (b ∷ name) data_text h = inl h

dispatch-Good : (d : SseDecoder) → IsValid d → Good d.limit (dispatch d)
unfolding dispatch
dispatch-Good d v =
    let bounded = v.bounded in
    elim (Bool-cases d.has_data) [
      | inl more ↦ rw more (record {
        valid = record { bounded = omega arith; ends = refl };
        same = refl;
        answer =
            named-IsBounded d.limit d.event (pop d.data_text)
              (omega (arith, pop-length d.data_text));
      })
      | inr nothing ↦ rw nothing (record {
        valid = record { bounded = omega arith; ends = rw nothing at v.ends };
        same = refl;
        answer = tt;
      })
    ]

set_field-Good :
    (d : SseDecoder) (field value : Text)
    → length d.line ≡ 0
    → IsValid d
    → length d.data_text + length value ≤ d.limit
    → Good d.limit (set_field d field value)
unfolding set_field
set_field-Good d field value e v h = elim (Bool-cases (field == bytes "event")) [
  | inl event ↦
      rw event (record {
        valid = record { bounded = omega arith; ends = v.ends };
        same = refl;
        answer = tt;
      })
  | inr other ↦ rw other (elim (Bool-cases (field == bytes "data")) [
    | inr unknown ↦ rw unknown (record { valid = v; same = refl; answer = tt })
    | inl line ↦
        rw line
          (elim (Bool-cases
            (ltb d.limit (length d.data_text + length value + 1 + length d.event))) [
              | inl full ↦ rw full (record { valid = v; same = refl; answer = tt })
              | inr room ↦ rw room (record {
                valid = record {
                  bounded = omega (arith, added-length d.data_text value, not_above room);
                  ends = (d.data_text ++ value, refl);
                };
                same = refl;
                answer = tt;
              })
            ])
  ])
]

take_line-Good :
    (d : SseDecoder) (line : Text)
    → length d.line ≡ 0
    → IsValid d
    → length line + length d.data_text + length d.event ≤ d.limit
    → Good d.limit (take_line d line)
unfolding take_line
take_line-Good d line e v h = elim (Bool-cases (is_utf8 line)) [
  | inr bad ↦ rw bad (record { valid = v; same = refl; answer = tt })
  | inl good ↦ rw good (elim (Bool-cases (is_empty line)) [
    | inl end ↦ rw end (dispatch-Good d v)
    | inr more ↦ rw more (elim (Bool-cases (starts_with_colon line)) [
      | inl comment ↦ rw comment (record { valid = v; same = refl; answer = tt })
      | inr field ↦ rw field (
          set_field-Good d (split_field line).0 (strip_space (split_field line).1) e v
            (omega (arith, strip_space-length (split_field line).1, split_field-length line)))
    ])
  ])
]

unmarked-length :
    (first : Bool) (line : Text) → length (if first then strip_mark line else line) ≤ length line
unmarked-length true line = strip_mark-length line
unmarked-length false line = omega arith

end_line-Good : (d : SseDecoder) → IsValid d → Good d.limit (end_line d)
unfolding end_line
end_line-Good d v =
    let bounded = v.bounded in
    take_line-Good (record d { line = []; first_line = false })
      (if d.first_line then strip_mark d.line else d.line) refl
      (record { bounded = omega arith; ends = v.ends })
      (omega (arith, unmarked-length d.first_line d.line))

take_byte-Good : (d : SseDecoder) (byte : ℕ) → IsValid d → Good d.limit (take_byte d byte)
unfolding take_byte
take_byte-Good d byte v = elim (Bool-cases (is_line_end byte)) [
  | inl end ↦ rw end (
      end_line-Good (record d { after_cr = byte == carriage_return })
        (record { bounded = v.bounded; ends = v.ends }))
  | inr inside ↦ rw inside (elim (Bool-cases (leb d.limit (held d))) [
    | inl full ↦ rw full (record { valid = v; same = refl; answer = tt })
    | inr room ↦ rw room (record {
      valid = record {
        bounded = omega (arith, length-append d.line (byte ∷ []), below room);
        ends = v.ends;
      };
      same = refl;
      answer = tt;
    })
  ])
]

step-Good : (d : SseDecoder) (byte : ℕ) → IsValid d → Good d.limit (step d byte)
unfolding step
step-Good d byte v = elim (Bool-cases (d.after_cr && byte == line_feed)) [
  | inl skipped ↦
      rw skipped
        (record { valid = record { bounded = v.bounded; ends = v.ends }; same = refl; answer = tt })
  | inr taken ↦ rw taken (
      take_byte-Good (record d { after_cr = false }) byte
        (record { bounded = v.bounded; ends = v.ends }))
]

-- After any bytes, and after an error as well, what the decoder holds is within its limit.
pub step-IsValid : (d : SseDecoder) (byte : ℕ) → IsValid d → IsValid (step d byte).1
step-IsValid d byte v = (step-Good d byte v).valid

-- The decoder that waits for more bytes.
abbrev pub WaitsValid : ℕ → Result IrError SseDecoder → Type 0
WaitsValid limit (ok d) = IsValid d × (d.limit ≡ limit)
WaitsValid limit (err e) = Unit

decode_from-IsValid :
    (limit : ℕ) (d : SseDecoder) (input : List ℕ)
    → IsValid d
    → d.limit ≡ limit
    → All (IsBounded limit) (decode d input).0 × WaitsValid limit (decode d input).1
unfolding decode
decode_from-IsValid limit d [] v e = (tt, (v, e))
decode_from-IsValid limit d (byte ∷ input) v e =
    let good : Good limit (step d byte) = rw (← e) (step-Good d byte v) in
    let rest = decode_from-IsValid limit (step d byte).1 input good.valid good.same in
    let answer = good.answer in
    elim (Answer-cases (step d byte).0) [
      | inl r ↦ rw (decode, r) rest
      | inr (inl (event, r)) ↦ rw (decode, r) ((rw r at answer, rest.0), rest.1)
      | inr (inr (error, r)) ↦ rw (decode, r) (tt, tt)
    ]

-- Whatever bytes a new decoder is given, the name and the data of each event are within its limit together, or the name is "message" and the data is within the limit; what the decoder holds while it waits for more is within the limit too, and data that waits ends in a line feed.
pub decode-IsValid :
    (limit : ℕ) (d : SseDecoder) (input : List ℕ)
    → new limit ≡ ok d
    → All (IsBounded limit) (decode d input).0 × WaitsValid limit (decode d input).1
unfolding new
decode-IsValid limit d input h =
    let e : empty_decoder limit ≡ d = ground arith in
    rw (← e) (
      decode_from-IsValid limit (empty_decoder limit) input
        (record { bounded = omega arith; ends = refl }) refl)
