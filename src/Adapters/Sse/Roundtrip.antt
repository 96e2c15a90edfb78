-- ===== src/Adapters/Sse/Roundtrip.antt =====
-- Frames, and the decoder of src/adapters/sse.rs on them.
use mathlib.Core.List.{append_assoc, append-nil}
use agent_response_gateway.Base.{
  ℕ, ◌+◌, ◌≤◌, ◌≡◌, refl, sym, ap, ◌∙◌, arith, Bool, true, false, not, ◌&&◌, none, some, List, [],
  ◌∷◌, ◌++◌, nat_eq, text_eq, Text, bytes, length, length-append, all, is_empty, All, ok,
  ℕ_discrete,
}
use agent_response_gateway.Base.Utf8.{utf8_after}
use agent_response_gateway.Adapters.Sse.Decoder.{
  SseDecoder, SseEvent, line_feed, is_line_end, take_line, dispatch, end_line, pop,
}
use agent_response_gateway.Adapters.Sse.Stream.{decode, decode-append, and_then}
use agent_response_gateway.Adapters.Sse.Bounds.{added-length}
use agent_response_gateway.Adapters.Sse.Lines.{taken, marked, and_false}
use agent_response_gateway.Adapters.Sse.Frames.{
  IsLine, data_lines, frame, joined_lines, ended_lines, at, between, push-line, end-line, name-line,
  data-line,
}

-- A line and its line feed, of a field that the decoder knows.
whole-line :
    (first : Bool) (limit : ℕ) (line data_text event : Text) (has_data : Bool) (d : SseDecoder)
    (rest : Text)
    → all (λ b. not (is_line_end b)) line ≡ true
    → length line + length data_text + length event ≤ limit
    → marked false (end_line (at first limit line data_text event has_data)) ≡ (ok none, d)
    → decode (at first limit [] data_text event has_data) (line ++ line_feed ∷ rest) ≡ decode d rest
whole-line first limit line data_text event has_data d rest h n e =
    push-line first limit [] line data_text event has_data (line_feed ∷ rest) h (omega arith)
    ∙ end-line first limit line data_text event has_data rest
    ∙ ap (taken rest) e

prefixed :
    (text : Text)
    → all (λ b. not (is_line_end b)) text ≡ true
    → all (λ b. not (is_line_end b)) (bytes "event: " ++ text) ≡ true
unfolding ℕ_discrete
prefixed text h = h

prefixed_data :
    (text : Text)
    → all (λ b. not (is_line_end b)) text ≡ true
    → all (λ b. not (is_line_end b)) (bytes "data: " ++ text) ≡ true
unfolding ℕ_discrete
prefixed_data text h = h

abbrev seen : Bool → List Text → Bool
seen has_data [] = has_data
seen has_data (_ ∷ _) = true

seen-true : (lines : List Text) → seen true lines ≡ true
seen-true [] = refl
seen-true (_ ∷ _) = refl

data_lines-length :
    (line : Text) (lines : List Text)
    → length (data_lines (line ∷ lines)) ≡ 7 + length line + length (data_lines lines)
data_lines-length line lines = omega (arith, length-append line (line_feed ∷ data_lines lines))

regroup :
    (data_text line : Text) (lines : List Text)
    → (data_text ++ line ++ line_feed ∷ [] ++ ended_lines lines)
      ≡ data_text ++ (line ++ line_feed ∷ ended_lines lines)
regroup data_text line lines =
    append_assoc (data_text ++ line) (line_feed ∷ []) (ended_lines lines)
    ∙ append_assoc data_text line (line_feed ∷ ended_lines lines)

frame-length :
    (name : Text) (lines : List Text)
    → length (frame name lines) ≡ 9 + length name + length (data_lines lines)
frame-length name lines = omega (
  arith,
  length-append name (line_feed ∷ (data_lines lines ++ line_feed ∷ [])),
  length-append (data_lines lines) (line_feed ∷ []),
)

read-data :
    (limit : ℕ) (data_text name : Text) (has_data : Bool) (lines : List Text) (rest : Text)
    → All IsLine lines
    → length data_text + length (data_lines lines) + length name ≤ limit
    → decode (at false limit [] data_text name has_data) (data_lines lines ++ rest)
      ≡ decode (at false limit [] (data_text ++ ended_lines lines) name (seen has_data lines)) rest
read-data limit data_text name has_data [] rest h n = rw (append-nil data_text) refl
read-data limit data_text name has_data (line ∷ lines) rest h n =
    let size = data_lines-length line lines in
    ap (decode (at false limit [] data_text name has_data))
      (append_assoc (bytes "data: " ++ line) (line_feed ∷ data_lines lines) rest)
    ∙ whole-line false limit (bytes "data: " ++ line) data_text name has_data
        (at false limit [] (data_text ++ line ++ line_feed ∷ []) name true)
        (data_lines lines ++ rest) (prefixed_data line h.0.one_line) (omega arith)
        (ap (marked false) (data-line limit line data_text name has_data h.0.is_text (omega arith)))
    ∙ read-data limit (data_text ++ line ++ line_feed ∷ []) name true lines rest h.1
        (omega (arith, added-length data_text line))
    ∙ (λ i.
        decode (at false limit [] (regroup data_text line lines i) name (seen-true lines i)) rest)

pop-snoc : (text : Text) → pop (text ++ line_feed ∷ []) ≡ text
pop-snoc [] = refl
pop-snoc (b ∷ []) = refl
pop-snoc (b ∷ c ∷ text) = λ i. b ∷ pop-snoc (c ∷ text) i

ended-joined :
    (line : Text) (lines : List Text)
    → ended_lines (line ∷ lines) ≡ joined_lines (line ∷ lines) ++ line_feed ∷ []
ended-joined line [] = refl
ended-joined line (next ∷ lines) =
    (λ i. line ++ line_feed ∷ ended-joined next lines i)
    ∙ sym (append_assoc line (line_feed ∷ joined_lines (next ∷ lines)) (line_feed ∷ []))

pop-ended :
    (line : Text) (lines : List Text)
    → pop (ended_lines (line ∷ lines)) ≡ joined_lines (line ∷ lines)
pop-ended line lines = ap pop (ended-joined line lines) ∙ pop-snoc (joined_lines (line ∷ lines))

-- The empty line after the data.
blank-line :
    (limit b : ℕ) (data_text name : Text)
    → end_line (at false limit [] data_text (b ∷ name) true)
      ≡ (ok (some (record { event = b ∷ name; data_text = pop data_text })), between false limit)
unfolding end_line take_line dispatch utf8_after ℕ_discrete
blank-line limit b data_text name = refl

-- The frame of a named event, in a stream that is between two events, gives the event, its data
-- joined by line feeds, and leaves the decoder between two events. The name is not empty and there
-- is a line of data at least; the texts are UTF-8 without line ends, and the limit has room for them.
pub frame-event :
    (first : Bool) (limit b : ℕ) (name line : Text) (lines : List Text)
    → IsLine (b ∷ name)
    → All IsLine (line ∷ lines)
    → length (frame (b ∷ name) (line ∷ lines)) ≤ limit
    → decode (between first limit) (frame (b ∷ name) (line ∷ lines)) ≡ (
      record { event = b ∷ name; data_text = joined_lines (line ∷ lines) } ∷ [],
      ok (between false limit),
    )
unfolding decode
frame-event first limit b name line lines n d room =
    let size = frame-length (b ∷ name) (line ∷ lines) in
    whole-line first limit (bytes "event: " ++ b ∷ name) [] [] false
      (at false limit [] [] (b ∷ name) false) (data_lines (line ∷ lines) ++ line_feed ∷ [])
      (prefixed (b ∷ name) n.one_line) (omega arith)
      (ap (marked false) (name-line first limit (b ∷ name) [] [] false n.is_text))
    ∙ read-data limit [] (b ∷ name) false (line ∷ lines) (line_feed ∷ []) d (omega arith)
    ∙ end-line false limit [] (ended_lines (line ∷ lines)) (b ∷ name) true []
    ∙ ap (taken []) (ap (marked false) (blank-line limit b (ended_lines (line ∷ lines)) name))
    ∙ (λ i. (
      record { event = b ∷ name; data_text = pop-ended line lines i } ∷ [],
      ok (between false limit),
    ))

-- Events that are sent one after the other.
abbrev pub sent : List (Text × List Text) → Text
sent [] = []
sent ((name, lines) ∷ frames) = frame name lines ++ sent frames

abbrev pub received : List (Text × List Text) → List SseEvent
received [] = []
received ((name, lines) ∷ frames) =
    record { event = name; data_text = joined_lines lines } ∷ received frames

-- A name and lines that a frame can carry within a limit.
pub record IsSent (limit : ℕ) (f : Text × List Text) : Type 0 where
  pub named : is_empty f.0 ≡ false
  pub filled : is_empty f.1 ≡ false
  pub name_line : IsLine f.0
  pub lines : All IsLine f.1
  pub room : length (frame f.0 f.1) ≤ limit

frame-decode :
    (first : Bool) (limit : ℕ) (name : Text) (lines : List Text)
    → IsSent limit (name, lines)
    → decode (between first limit) (frame name lines)
      ≡ (record { event = name; data_text = joined_lines lines } ∷ [], ok (between false limit))
frame-decode first limit [] lines h = absurd (let e : true ≡ false = h.named in cc)
frame-decode first limit (b ∷ name) [] h = absurd (let e : true ≡ false = h.filled in cc)
frame-decode first limit (b ∷ name) (line ∷ lines) h =
    frame-event first limit b name line lines h.name_line h.lines h.room

-- Frames that are sent one after the other come back as their events, in order, and the decoder is
-- then between two events: each has a name and a line of data at least, its texts are UTF-8 without
-- line ends, and the limit has room for it.
pub sent-received :
    (first : Bool) (limit : ℕ) (frames : List (Text × List Text))
    → All (IsSent limit) frames
    → decode (between first limit) (sent frames)
      ≡ (received frames, ok (between (first && is_empty frames) limit))
unfolding decode
sent-received true limit [] h = refl
sent-received false limit [] h = refl
sent-received first limit ((name, lines) ∷ frames) h =
    decode-append (between first limit) (frame name lines) (sent frames)
    ∙ ap (and_then (λ d. decode d (sent frames))) (frame-decode first limit name lines h.0)
    ∙ (λ i. (
      record { event = name; data_text = joined_lines lines }
          ∷ (sent-received false limit frames h.1 i).0,
      (sent-received false limit frames h.1 i).1,
    ))
    ∙ (λ i. (
      record { event = name; data_text = joined_lines lines } ∷ received frames,
      ok (between (sym (and_false first) i) limit),
    ))
