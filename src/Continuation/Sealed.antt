-- ===== src/Continuation/Sealed.antt =====
-- That a replay which `Protector` of src/continuation/mod.rs has sealed opens to itself.
use agent_response_gateway.Base.{
  ◌+◌, ◌*◌, ◌≡◌, ◌≤◌, ◌<◌, refl, sym, arith, true, false, ◌&&◌, some, [], ◌∷◌, ◌++◌, ltb, ◌==◌,
  ◌!=◌, nat_eq, text_eq, ℕ_discrete, !=_same, Text, bytes, is_hex, length, length-append, all, any,
  All, ok, >>=-eq-ok, ok-injective, passed, ap, ◌∙◌,
}
use agent_response_gateway.Base.Hex.{hex_of, length-hex_of, all-hex_of}
use agent_response_gateway.Base.Strings.{strip_prefix-append}
use agent_response_gateway.Ir.Continuity.{split_dot}
use agent_response_gateway.Continuation.Contract.{rejected, label, label_byte}
use agent_response_gateway.Continuation.Hexadecimal.{unhex-hex_of}
use agent_response_gateway.Continuation.Replays.{
  ReplayRecord, v1, v2, v3, schema_of, validate_record,
}
use agent_response_gateway.Continuation.Protector.{
  max_payload, Prefix, first, second, third, prefix_text, Protector, Codec, prefix_of, aad_of,
  found_prefix, sealed_fields, envelope_of, seal_record, read_plain, is_third, expected_schema,
  open_plain, open_record,
}

-- No byte is a full stop.
abbrev pub Undotted : Text → Type 0
Undotted text = any (λ b. b == b'.') text ≡ false

split_dot-field :
    (value rest : Text) → Undotted value → split_dot (value ++ b'.' ∷ rest) ≡ value ∷ split_dot rest
unfolding split_dot ℕ_discrete
split_dot-field [] rest h = refl
split_dot-field (b ∷ value) rest h =
    let tail = split_dot-field value rest (ground arith) in
    let other : (b == b'.') ≡ false = ground arith in rw (other, tail) refl

split_dot-last : (value : Text) → Undotted value → split_dot value ≡ value ∷ []
unfolding split_dot
split_dot-last [] h = refl
split_dot-last (b ∷ value) h =
    let tail = split_dot-last value (ground arith) in
    let other : (b == b'.') ≡ false = ground arith in rw (other, tail) refl

hex-Undotted : (value : Text) → all is_hex value ≡ true → Undotted value
hex-Undotted [] h = refl
hex-Undotted (b ∷ value) h = let rest = hex-Undotted value (ground arith) in ground (arith, rest)

bytes-Undotted : (value : Text) → all label_byte value ≡ true → Undotted value
bytes-Undotted [] h = refl
bytes-Undotted (b ∷ value) h =
    let rest = bytes-Undotted value (ground arith) in ground (arith, rest)

label-ok : (id : Text) → label id ≡ ok tt → (all label_byte id ≡ true) × (length id ≤ 128)
unfolding label
label-ok id h = (ground arith, ground arith)

found_prefix-append :
    (prefix : Prefix) (rest : Text) → found_prefix (prefix_text prefix ++ rest) ≡ ok prefix
unfolding ℕ_discrete
found_prefix-append first rest = refl
found_prefix-append second rest = refl
found_prefix-append third rest = refl

prefix_length : (prefix : Prefix) → length (prefix_text prefix) ≡ 20
prefix_length first = refl
prefix_length second = refl
prefix_length third = refl

expected_schema-prefix_of :
    (x : Codec) (key : Protector) (replay : ReplayRecord)
    → schema_of replay ≡ expected_schema x key (prefix_of replay)
expected_schema-prefix_of x key (v1 _) = refl
expected_schema-prefix_of x key (v2 _) = refl
expected_schema-prefix_of x key (v3 _) = refl

-- The fields of an envelope, when its parts are bytes.
sealed_fields-envelope :
    (id nonce sealed : Text)
    → Undotted id
    → length nonce ≡ 12
    → All (λ b. b < 256) nonce
    → All (λ b. b < 256) sealed
    → sealed_fields id
        (split_dot (id ++ (bytes "." ++ (hex_of nonce ++ (bytes "." ++ hex_of sealed)))))
      ≡ ok (nonce, sealed)
unfolding sealed_fields
sealed_fields-envelope id nonce sealed i n small smaller =
    let last =
      split_dot-last (hex_of sealed) (hex-Undotted (hex_of sealed) (all-hex_of sealed smaller)) in
    let middle =
      split_dot-field (hex_of nonce) (hex_of sealed)
        (hex-Undotted (hex_of nonce) (all-hex_of nonce small)) in
    let start = split_dot-field id (hex_of nonce ++ (bytes "." ++ hex_of sealed)) i in
    rw
      (
        start,
        middle,
        last,
        !=_same id id refl,
        unhex-hex_of nonce small,
        !=_same (length nonce) 12 n,
        unhex-hex_of sealed smaller,
      )
      refl

module _ (x : Codec) (key : Protector) where
  open_plain-ok :
      (replay : ReplayRecord)
      → read_plain x key (prefix_of replay) (x.record_json replay) ≡ ok replay
      → validate_record x.base64 replay ≡ ok tt
      → ltb max_payload (length (x.record_json replay)) ≡ false
      → open_plain x key (prefix_of replay) (x.record_json replay) ≡ ok replay
  unfolding open_plain
  open_plain-ok replay read valid small =
      let canonical : (is_third x key (prefix_of replay)
            && x.record_json replay != x.record_json replay)
          ≡ false =
        rw (!=_same (x.record_json replay) (x.record_json replay) refl) (ground arith) in
      rw
        (
          small,
          read,
          valid,
          !=_same (schema_of replay) (expected_schema x key (prefix_of replay))
              (expected_schema-prefix_of x key replay),
          canonical,
        )
        refl

  short_envelope :
      (prefix : Prefix) (nonce sealed plain : Text)
      → length key.id ≤ 128
      → length nonce ≡ 12
      → length sealed ≡ length plain + 16
      → length plain ≤ max_payload
      → ltb (2 * max_payload + 1024) (length (envelope_of x key prefix nonce sealed)) ≡ false
  short_envelope prefix nonce sealed plain i n added fits =
      let tail = bytes "." ++ hex_of sealed in
      let body = bytes "." ++ (hex_of nonce ++ tail) in
      let e1 = length-append (prefix_text prefix) (key.id ++ body) in
      let e2 = length-append key.id body in
      let e3 = length-append (hex_of nonce) tail in
      let p = prefix_length prefix in
      let h1 = length-hex_of nonce in
      let h2 = length-hex_of sealed in
      let total : length (envelope_of x key prefix nonce sealed) ≤ 2 * max_payload + 1024 =
        omega (arith, e1, e2, e3, p, h1, h2, n, added, fits, i) in
      ground arith

  open_envelope :
      (replay : ReplayRecord) (nonce sealed : Text)
      → label key.id ≡ ok tt
      → length nonce ≡ 12
      → All (λ b. b < 256) nonce
      → All (λ b. b < 256) sealed
      → length sealed ≡ length (x.record_json replay) + 16
      → key.open_sealed nonce (aad_of key (prefix_of replay)) sealed ≡ some (x.record_json replay)
      → open_plain x key (prefix_of replay) (x.record_json replay) ≡ ok replay
      → ltb max_payload (length (x.record_json replay)) ≡ false
      → open_record x key (envelope_of x key (prefix_of replay) nonce sealed) ≡ ok replay
  unfolding open_record
  open_envelope replay nonce sealed id n small smaller added o opened fits =
      let (labels, short) = label-ok key.id id in
      let few : length (x.record_json replay) ≤ max_payload = ground arith in
      let rest = key.id ++ (bytes "." ++ (hex_of nonce ++ (bytes "." ++ hex_of sealed))) in
      rw
        (
          found_prefix-append (prefix_of replay) rest,
          short_envelope (prefix_of replay) nonce sealed (x.record_json replay) short n added few,
          strip_prefix-append (prefix_text (prefix_of replay)) rest,
          sealed_fields-envelope key.id nonce sealed (bytes-Undotted key.id labels) n small smaller,
          o,
          opened,
        )
        refl

  -- An envelope that seal_record writes is opened to the same record. The conditions are that the key's identity is a label, as the constructor checks, that the cipher gives back what it has sealed and adds 16 bytes, that the nonce has 12, and that serde_json reads what it wrote.
  pub open_record-seal_record :
      (replay : ReplayRecord) (nonce sealed envelope : Text)
      → label key.id ≡ ok tt
      → length nonce ≡ 12
      → All (λ b. b < 256) nonce
      → All (λ b. b < 256) sealed
      → length sealed ≡ length (x.record_json replay) + 16
      → key.seal nonce (aad_of key (prefix_of replay)) (x.record_json replay) ≡ some sealed
      → key.open_sealed nonce (aad_of key (prefix_of replay)) sealed ≡ some (x.record_json replay)
      → read_plain x key (prefix_of replay) (x.record_json replay) ≡ ok replay
      → seal_record x key (some nonce) replay ≡ ok envelope
      → open_record x key envelope ≡ ok replay
  unfolding seal_record
  open_record-seal_record replay nonce sealed envelope id n small smaller added s o read h =
      let (_, valid, h1) = >>=-eq-ok (validate_record x.base64 replay) _ h in
      let (fits, h2) =
        passed (ltb max_payload (length (x.record_json replay))) (rejected "payload limit") _ h1 in
      let written : envelope_of x key (prefix_of replay) nonce sealed ≡ envelope =
        ok-injective (sym (rw s refl) ∙ h2) in
      ap (open_record x key) (sym written)
      ∙ open_envelope replay nonce sealed id n small smaller added o
          (open_plain-ok replay read valid fits) fits
