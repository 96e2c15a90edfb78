-- ===== src/Adapters/Sse/Frames.antt =====
-- The frames of an event, and the decoder of src/adapters/sse.rs on each of their lines.
use mathlib.Core.List.{append_assoc, append-nil}
use agent_response_gateway.Base.{
  ℕ, ◌+◌, ◌≤◌, ◌<◌, ◌≡◌, refl, ap, ◌∙◌, arith, Bool, true, false, not, none, List, [], ◌∷◌, ◌++◌,
  ltb, leb, nat_eq, text_eq, Text, Text-discrete, bytes, length, length-append, all, ok, ℕ_discrete,
}
use agent_response_gateway.Base.Utf8.{is_utf8, utf8_after}
use agent_response_gateway.Adapters.Sse.Decoder.{
  SseDecoder, line_feed, is_line_end, take_byte, take_line, set_field, split_field, end_line, step,
}
use agent_response_gateway.Adapters.Sse.Stream.{decode}
use agent_response_gateway.Adapters.Sse.Lines.{taken, decode-taken, step-feed, marked}

-- A text that can stand in one line.
pub record IsLine (text : Text) : Type 0 where
  pub one_line : all (λ b. not (is_line_end b)) text ≡ true
  pub is_text : is_utf8 text ≡ true

abbrev pub data_lines : List Text → Text
data_lines [] = []
data_lines (line ∷ lines) = bytes "data: " ++ line ++ line_feed ∷ data_lines lines

-- An event as it is sent: its name, its data line by line, and an empty line.
abbrev pub frame : Text → List Text → Text
frame name lines = bytes "event: " ++ name ++ line_feed ∷ (data_lines lines ++ line_feed ∷ [])

abbrev pub joined_lines : List Text → Text
joined_lines [] = []
joined_lines (line ∷ []) = line
joined_lines (line ∷ next ∷ lines) = line ++ line_feed ∷ joined_lines (next ∷ lines)

abbrev pub ended_lines : List Text → Text
ended_lines [] = []
ended_lines (line ∷ lines) = line ++ line_feed ∷ ended_lines lines

-- A decoder that has not just seen a carriage return.
abbrev pub at : Bool → ℕ → Text → Text → Text → Bool → SseDecoder
at first limit line data_text event has_data = record {
  line = line;
  data_text = data_text;
  event = event;
  has_data = has_data;
  first_line = first;
  after_cr = false;
  limit = limit;
}

-- Between two events.
abbrev pub between : Bool → ℕ → SseDecoder
between first limit = at first limit [] [] [] false

not_below : {a b : ℕ} → a < b → leb b a ≡ false
not_below h = ground arith

not_over : {a b : ℕ} → a ≤ b → ltb b a ≡ false
not_over h = ground arith

push-step :
    (first : Bool) (limit b : ℕ) (line data_text event : Text) (has_data : Bool)
    → is_line_end b ≡ false
    → length line + length data_text + length event < limit
    → step (at first limit line data_text event has_data) b
      ≡ (ok none, at first limit (line ++ b ∷ []) data_text event has_data)
unfolding step take_byte
push-step first limit b line data_text event has_data inside room = rw (inside, not_below room) refl

-- The first byte, and the rest, of a line without a line end.
first_inside :
    (b : ℕ) (text : Text)
    → all (λ b. not (is_line_end b)) (b ∷ text) ≡ true
    → (is_line_end b ≡ false) × (all (λ b. not (is_line_end b)) text ≡ true)
first_inside b text h = ground arith

pub push-line :
    (first : Bool) (limit : ℕ) (line text data_text event : Text) (has_data : Bool) (rest : Text)
    → all (λ b. not (is_line_end b)) text ≡ true
    → length line + length text + length data_text + length event ≤ limit
    → decode (at first limit line data_text event has_data) (text ++ rest)
      ≡ decode (at first limit (line ++ text) data_text event has_data) rest
push-line first limit line [] data_text event has_data rest h n = rw (append-nil line) refl
push-line first limit line (b ∷ text) data_text event has_data rest h n =
    let (inside, rest_inside) = first_inside b text h in
    decode-taken (at first limit line data_text event has_data) b (text ++ rest)
    ∙ ap (taken (text ++ rest))
        (push-step first limit b line data_text event has_data inside (omega arith))
    ∙ push-line first limit (line ++ b ∷ []) text data_text event has_data rest rest_inside
        (omega (arith, length-append line (b ∷ [])))
    ∙ ap (λ l. decode (at first limit l data_text event has_data) rest)
        (append_assoc line (b ∷ []) text)

-- A line feed at the end of a line.
pub end-line :
    (first : Bool) (limit : ℕ) (line data_text event : Text) (has_data : Bool) (rest : Text)
    → decode (at first limit line data_text event has_data) (line_feed ∷ rest)
      ≡ taken rest (marked false (end_line (at first limit line data_text event has_data)))
end-line first limit line data_text event has_data rest =
    decode-taken (at first limit line data_text event has_data) line_feed rest
    ∙ ap (taken rest) (step-feed (at first limit line data_text event has_data) refl)

-- The line of an event's name.
pub name-line :
    (first : Bool) (limit : ℕ) (name data_text event : Text) (has_data : Bool)
    → is_utf8 name ≡ true
    → end_line (at first limit (bytes "event: " ++ name) data_text event has_data)
      ≡ (ok none, at false limit [] data_text name has_data)
unfolding end_line take_line set_field split_field utf8_after Text-discrete ℕ_discrete
name-line true limit name data_text event has_data h = rw h refl
name-line false limit name data_text event has_data h = rw h refl

pub data-line :
    (limit : ℕ) (line data_text event : Text) (has_data : Bool)
    → is_utf8 line ≡ true
    → length data_text + length line + 1 + length event ≤ limit
    → end_line (at false limit (bytes "data: " ++ line) data_text event has_data)
      ≡ (ok none, at false limit [] (data_text ++ line ++ line_feed ∷ []) event true)
unfolding end_line take_line set_field split_field utf8_after Text-discrete ℕ_discrete
data-line limit line data_text event has_data h n = rw (h, not_over n) refl
