-- ===== src/Adapters/Sse/Lines.antt =====
-- The line ends of src/adapters/sse.rs: a line feed, a carriage return, or both.
use agent_response_gateway.Base.{
  ℕ, ◌≡◌, refl, sym, ◌∙◌, arith, Bool, true, false, ◌&&◌, none, List, [], ◌∷◌, ◌++◌, ◌==◌, nat_eq,
  inl, inr, Result-split, ap, ok, err, if◌then◌else◌, ℕ_discrete,
}
use agent_response_gateway.Adapters.Sse.Decoder.{
  SseDecoder, Outcome, line_feed, carriage_return, take_byte, take_line, dispatch, set_field,
  end_line, step,
}
use agent_response_gateway.Adapters.Sse.Stream.{Decoded, decode, events_of}

-- A decoder that has seen a carriage return.
abbrev pub marked : Bool → Outcome → Outcome
marked b (r, d) = (r, record d { after_cr = b })

end_line-marked :
    (d : SseDecoder) (b : Bool) → end_line (record d { after_cr = b }) ≡ marked b (end_line d)
unfolding end_line take_line dispatch set_field
end_line-marked d b = ground arith

pub and_false : (b : Bool) → (b && false) ≡ false
and_false true = refl
and_false false = refl

and_true : (b : Bool) → b ≡ false → (b && true) ≡ false
and_true true h = h
and_true false h = refl

-- A carriage return ends a line as a line feed does, and is remembered.
step-return : (d : SseDecoder) → step d carriage_return ≡ marked true (end_line d)
unfolding step take_byte ℕ_discrete
step-return d = rw (and_false d.after_cr) (end_line-marked d true)

pub step-feed : (d : SseDecoder) → d.after_cr ≡ false → step d line_feed ≡ marked false (end_line d)
unfolding step take_byte ℕ_discrete
step-feed d h =
    (λ i.
      if and_true d.after_cr h i
      then (ok none, record d { after_cr = false })
      else take_byte (record d { after_cr = false }) line_feed)
    ∙ end_line-marked d false

-- A line feed after a carriage return is no line end of its own.
step-feed_after :
    (d : SseDecoder)
    → step (record d { after_cr = true }) line_feed ≡ (ok none, record d { after_cr = false })
unfolding step ℕ_discrete
step-feed_after d = refl

-- Any other byte is as after a line feed.
step-other :
    (d : SseDecoder) (byte : ℕ)
    → (byte == line_feed) ≡ false
    → step (record d { after_cr = true }) byte ≡ step (record d { after_cr = false }) byte
unfolding step
step-other d byte h = rw h refl

-- What a step makes of the rest of the input.
abbrev pub taken : List ℕ → Outcome → Decoded
taken input (ok event, d) = (events_of event ++ (decode d input).0, (decode d input).1)
taken input (err e, d) = ([], err e)

pub decode-taken :
    (d : SseDecoder) (byte : ℕ) (input : List ℕ)
    → decode d (byte ∷ input) ≡ taken input (step d byte)
unfolding decode
decode-taken d byte input = elim (Result-split (step d byte).0) [
  | inl (event, r) ↦ rw (decode, taken, r) refl
  | inr (error, r) ↦ rw (decode, taken, r) refl
]

-- After a carriage return a line feed adds nothing.
taken-feed :
    (input : List ℕ) (o : Outcome)
    → taken (line_feed ∷ input) (marked true o) ≡ taken input (marked false o)
taken-feed input (err e, d) = refl
taken-feed input (ok event, d) =
    let skipped : decode (record d { after_cr = true }) (line_feed ∷ input)
        ≡ decode (record d { after_cr = false }) input =
      decode-taken (record d { after_cr = true }) line_feed input
      ∙ ap (taken input) (step-feed_after d) in
    λ i. (events_of event ++ (skipped i).0, (skipped i).1)

taken-other :
    (byte : ℕ) (input : List ℕ) (o : Outcome)
    → (byte == line_feed) ≡ false
    → taken (byte ∷ input) (marked true o) ≡ taken (byte ∷ input) (marked false o)
taken-other byte input (err e, d) n = refl
taken-other byte input (ok event, d) n =
    let alike : decode (record d { after_cr = true }) (byte ∷ input)
        ≡ decode (record d { after_cr = false }) (byte ∷ input) =
      decode-taken (record d { after_cr = true }) byte input
      ∙ ap (taken input) (step-other d byte n)
      ∙ sym (decode-taken (record d { after_cr = false }) byte input) in
    λ i. (events_of event ++ (alike i).0, (alike i).1)

-- A line may end in a line feed, a carriage return, or both: with any of the three before the bytes
-- that follow (which do not start with a line feed of their own) the stream decodes to the same.
pub line_ends :
    (d : SseDecoder) (byte : ℕ) (input : List ℕ)
    → d.after_cr ≡ false
    → (byte == line_feed) ≡ false
    → (decode d (carriage_return ∷ line_feed ∷ byte ∷ input) ≡ decode d (line_feed ∷ byte ∷ input))
      × (decode d (carriage_return ∷ byte ∷ input) ≡ decode d (line_feed ∷ byte ∷ input))
line_ends d byte input h n =
    let after_return =
      λ (rest : List ℕ). decode-taken d carriage_return rest ∙ ap (taken rest) (step-return d) in
    let after_feed =
      λ (rest : List ℕ). decode-taken d line_feed rest ∙ ap (taken rest) (step-feed d h) in
    (
      after_return (line_feed ∷ byte ∷ input)
          ∙ taken-feed (byte ∷ input) (end_line d)
          ∙ sym (after_feed (byte ∷ input)),
      after_return (byte ∷ input)
          ∙ taken-other byte input (end_line d) n
          ∙ sym (after_feed (byte ∷ input)),
    )
