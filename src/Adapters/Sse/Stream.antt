-- ===== src/Adapters/Sse/Stream.antt =====
-- What a stream of bytes becomes by src/adapters/sse.rs, however it is cut into chunks.
use agent_response_gateway.Base.{
  ℕ, zero, suc, ◌+◌, ◌<◌, ◌≡◌, refl, sym, ◌∙◌, arith, ◌⊎◌, inl, inr, Option, none, some, List, [],
  ◌∷◌, ◌++◌, length, Result, ok, err,
}
use agent_response_gateway.Ir.{IrError}
use agent_response_gateway.Adapters.Sse.Decoder.{SseDecoder, SseEvent, step, next_event}

-- The events of a stream, and how it ends: an error, or the decoder that waits for more.
abbrev pub Decoded : Type 0
Decoded = List SseEvent × Result IrError SseDecoder

abbrev pub events_of : Option SseEvent → List SseEvent
events_of none = []
events_of (some event) = event ∷ []

-- The events of the bytes one by one, up to the first error.
unfoldable pub decode : SseDecoder → List ℕ → Decoded
decode d [] = ([], ok d)
decode d (byte ∷ input) =
    let (result, d') = step d byte in
    elim result [
      | ok event ↦ (events_of event ++ (decode d' input).0, (decode d' input).1)
      | err e ↦ ([], err e)
    ]

-- A caller that asks for events until the input is used up, at most `n` times.
unfoldable pub drain : ℕ → SseDecoder → List ℕ → Decoded
drain zero d input = ([], ok d)
drain (suc n) d input =
    let (result, rest, d') = next_event d input in
    elim result [
      | ok none ↦ ([], ok d')
      | ok (some event) ↦ (event ∷ (drain n d' rest).0, (drain n d' rest).1)
      | err e ↦ ([], err e)
    ]

abbrev pub and_then : (SseDecoder → Decoded) → Decoded → Decoded
and_then f (events, ok d) = (events ++ (f d).0, (f d).1)
and_then f (events, err e) = (events, err e)

-- The same over chunks.
unfoldable pub drain_chunks : SseDecoder → List (List ℕ) → Decoded
unfolding drain
drain_chunks d [] = ([], ok d)
drain_chunks d (chunk ∷ chunks) =
    and_then (λ d'. drain_chunks d' chunks) (drain (length chunk + 1) d chunk)

abbrev pub joined : List (List ℕ) → List ℕ
joined [] = []
joined (chunk ∷ chunks) = chunk ++ joined chunks

-- A call of `next_event`, and the events of what it leaves.
abbrev resumed : Result IrError (Option SseEvent) × List ℕ × SseDecoder → Decoded
resumed (ok none, rest, d) = ([], ok d)
resumed (ok (some event), rest, d) = (event ∷ (decode d rest).0, (decode d rest).1)
resumed (err e, rest, d) = ([], err e)

-- A step goes on, gives an event, or fails.
pub Answer-cases :
    (r : Result IrError (Option SseEvent))
    → (r ≡ ok none) ⊎ (((event : SseEvent) × (r ≡ ok (some event))) ⊎ ((e : IrError) × (r ≡ err e)))
Answer-cases (ok none) = inl refl
Answer-cases (ok (some event)) = inr (inl (event, refl))
Answer-cases (err e) = inr (inr (e, refl))

next_event-decode :
    (d : SseDecoder) (input : List ℕ) → decode d input ≡ resumed (next_event d input)
unfolding decode next_event
next_event-decode d [] = refl
next_event-decode d (byte ∷ input) = elim (Answer-cases (step d byte).0) [
  | inl e ↦ rw (decode, next_event, e) (next_event-decode (step d byte).1 input)
  | inr (inl (event, e)) ↦ rw (decode, next_event, e) refl
  | inr (inr (error, e)) ↦ rw (decode, next_event, e) refl
]

-- The input that is left after an event is shorter.
abbrev Shorter : List ℕ → Result IrError (Option SseEvent) × List ℕ × SseDecoder → Type 0
Shorter input (ok (some event), rest, d) = length rest < length input
Shorter input _ = Unit

Shorter-cons :
    (byte : ℕ) (input : List ℕ) (r : Result IrError (Option SseEvent) × List ℕ × SseDecoder)
    → Shorter input r
    → Shorter (byte ∷ input) r
Shorter-cons byte input (ok none, rest, d) h = tt
Shorter-cons byte input (ok (some event), rest, d) h = omega arith
Shorter-cons byte input (err e, rest, d) h = tt

next_event-Shorter : (d : SseDecoder) (input : List ℕ) → Shorter input (next_event d input)
unfolding next_event
next_event-Shorter d [] = tt
next_event-Shorter d (byte ∷ input) = elim (Answer-cases (step d byte).0) [
  | inl e ↦
      rw (next_event, e)
        (Shorter-cons byte input (next_event (step d byte).1 input)
          (next_event-Shorter (step d byte).1 input))
  | inr (inl (event, e)) ↦ rw (next_event, e) (omega arith)
  | inr (inr (error, e)) ↦ rw (next_event, e) tt
]

-- What `drain` makes of a call of `next_event`.
abbrev drained : ℕ → Result IrError (Option SseEvent) × List ℕ × SseDecoder → Decoded
drained n (ok none, rest, d) = ([], ok d)
drained n (ok (some event), rest, d) = (event ∷ (drain n d rest).0, (drain n d rest).1)
drained n (err e, rest, d) = ([], err e)

drain-suc :
    (n : ℕ) (d : SseDecoder) (input : List ℕ)
    → drain (suc n) d input ≡ drained n (next_event d input)
unfolding drain
drain-suc n d input = elim (Answer-cases (next_event d input).0) [
  | inl r ↦ rw (drain, drained, r) refl
  | inr (inl (event, r)) ↦ rw (drain, drained, r) refl
  | inr (inr (error, r)) ↦ rw (drain, drained, r) refl
]

drained-resumed :
    (n : ℕ) (input : List ℕ) (r : Result IrError (Option SseEvent) × List ℕ × SseDecoder)
    → ((d : SseDecoder) (rest : List ℕ) → length rest < n → drain n d rest ≡ decode d rest)
    → length input < suc n
    → Shorter input r
    → drained n r ≡ resumed r
drained-resumed n input (ok none, rest, d) ih h s = refl
drained-resumed n input (ok (some event), rest, d) ih h s =
    λ i. (event ∷ (ih d rest (omega arith) i).0, (ih d rest (omega arith) i).1)
drained-resumed n input (err e, rest, d) ih h s = refl

-- A caller that asks for events often enough gets those of the bytes one by one.
pub drain-decode :
    (n : ℕ) (d : SseDecoder) (input : List ℕ) → length input < n → drain n d input ≡ decode d input
drain-decode zero d input h = absurd (omega arith)
drain-decode (suc n) d input h =
    drain-suc n d input
    ∙ drained-resumed n input (next_event d input) (drain-decode n) h (next_event-Shorter d input)
    ∙ sym (next_event-decode d input)

and_then-event :
    (f : SseDecoder → Decoded) (event : SseEvent) (a b : Decoded)
    → a ≡ and_then f b
    → (event ∷ a.0, a.1) ≡ and_then f (event ∷ b.0, b.1)
and_then-event f event a (events, ok d) h = λ i. (event ∷ (h i).0, (h i).1)
and_then-event f event a (events, err e) h = λ i. (event ∷ (h i).0, (h i).1)

-- The events of a longer stream are those of its start, and then those of its rest.
pub decode-append :
    (d : SseDecoder) (a b : List ℕ) → decode d (a ++ b) ≡ and_then (λ d'. decode d' b) (decode d a)
unfolding decode
decode-append d [] b = refl
decode-append d (byte ∷ a) b = elim (Answer-cases (step d byte).0) [
  | inl e ↦ rw (decode, e) (decode-append (step d byte).1 a b)
  | inr (inl (event, e)) ↦
      rw (decode, e)
        (and_then-event (λ d'. decode d' b) event _ _ (decode-append (step d byte).1 a b))
  | inr (inr (error, e)) ↦ rw (decode, e) refl
]

-- However a stream is cut into chunks, a caller that takes each chunk's events as they come gets the
-- same events in the same order, and the same end.
pub drain_chunks-joined :
    (d : SseDecoder) (chunks : List (List ℕ)) → drain_chunks d chunks ≡ decode d (joined chunks)
unfolding drain_chunks decode
drain_chunks-joined d [] = refl
drain_chunks-joined d (chunk ∷ chunks) =
    (λ i.
      and_then (λ d'. drain_chunks-joined d' chunks i)
        (drain-decode (length chunk + 1) d chunk (omega arith) i))
    ∙ sym (decode-append d chunk (joined chunks))
