-- ===== src/Adapters/Sse/Tests.antt =====
-- A short stream, and the theorems of Adapters.Sse at it.
use agent_response_gateway.Base.{
  ◌≡◌, refl, arith, true, false, List, [], ◌∷◌, Text, bytes, All, ok, nat_eq, ℕ_discrete,
  Text-discrete, is_empty, ◌&&◌,
}
use agent_response_gateway.Base.Utf8.{utf8_after}
use agent_response_gateway.Adapters.Sse.Decoder.{
  SseEvent, new, empty_decoder, line_feed, carriage_return, dispatch, set_field, take_line,
  end_line, take_byte, step, split_field,
}
use agent_response_gateway.Adapters.Sse.Stream.{decode, drain_chunks, drain_chunks-joined, joined}
use agent_response_gateway.Adapters.Sse.Bounds.{IsBounded, WaitsValid, decode-IsValid}
use agent_response_gateway.Adapters.Sse.Lines.{line_ends}
use agent_response_gateway.Adapters.Sse.Frames.{IsLine, frame, between}
use agent_response_gateway.Adapters.Sse.Roundtrip.{IsSent, sent, received, sent-received}

abbrev ping : Text × List Text
ping = (bytes "ping", bytes "a" ∷ bytes "b c" ∷ [])

abbrev stream : Text
stream = frame (bytes "ping") (bytes "a" ∷ bytes "b c" ∷ [])

abbrev ping_event : SseEvent
ping_event = record { event = bytes "ping"; data_text = 97 ∷ 10 ∷ 98 ∷ 32 ∷ 99 ∷ [] }

-- The stream runs to its event.
stream_runs : decode (empty_decoder 64) stream ≡ (ping_event ∷ [], ok (between false 64))
unfolding decode step take_byte end_line take_line dispatch set_field split_field utf8_after
    ℕ_discrete Text-discrete
stream_runs = refl

ping-IsLine : IsLine (bytes "ping")
unfolding utf8_after ℕ_discrete
ping-IsLine = record { one_line = refl; is_text = refl }

a-IsLine : IsLine (bytes "a")
unfolding utf8_after ℕ_discrete
a-IsLine = record { one_line = refl; is_text = refl }

b-IsLine : IsLine (bytes "b c")
unfolding utf8_after ℕ_discrete
b-IsLine = record { one_line = refl; is_text = refl }

ping-IsSent : IsSent 64 ping
ping-IsSent = record {
  named = refl;
  filled = refl;
  name_line = ping-IsLine;
  lines = (a-IsLine, (b-IsLine, tt));
  room = omega arith;
}

sent-received_example :
    decode (between true 64) (sent (ping ∷ ping ∷ []))
    ≡ (received (ping ∷ ping ∷ []), ok (between (true && is_empty (ping ∷ ping ∷ [])) 64))
sent-received_example = sent-received true 64 (ping ∷ ping ∷ []) (ping-IsSent, (ping-IsSent, tt))

drain_chunks-joined_example :
    drain_chunks (empty_decoder 64) ((101 ∷ []) ∷ (118 ∷ 101 ∷ []) ∷ stream ∷ [])
    ≡ decode (empty_decoder 64) (joined ((101 ∷ []) ∷ (118 ∷ 101 ∷ []) ∷ stream ∷ []))
drain_chunks-joined_example =
    drain_chunks-joined (empty_decoder 64) ((101 ∷ []) ∷ (118 ∷ 101 ∷ []) ∷ stream ∷ [])

decode-IsValid_example :
    All (IsBounded 64) (decode (empty_decoder 64) stream).0
    × WaitsValid 64 (decode (empty_decoder 64) stream).1
unfolding new ℕ_discrete
decode-IsValid_example = decode-IsValid 64 (empty_decoder 64) stream refl

line_ends_example :
    (decode (between true 64) (carriage_return ∷ line_feed ∷ 100 ∷ stream)
      ≡ decode (between true 64) (line_feed ∷ 100 ∷ stream))
    × (decode (between true 64) (carriage_return ∷ 100 ∷ stream)
        ≡ decode (between true 64) (line_feed ∷ 100 ∷ stream))
unfolding ℕ_discrete
line_ends_example = line_ends (between true 64) 100 stream refl refl
