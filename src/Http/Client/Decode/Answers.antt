-- ===== src/Http/Client/Decode/Answers.antt =====
-- What a decoded success of http/client.py says of the response.
use outlabs_taskq.Prelude.{true, false, String, Option, none, some, string_eq, nat_eq, option_eq}
use outlabs_taskq.Dict.{get}
use outlabs_taskq.Http.Json.{Json, Fields}
use outlabs_taskq.Http.Client.{
  HttpCommandSpec, Response, ErrorEnvelope, CommandEnvelope, Library, success,
}
use outlabs_taskq.Http.Client.Decode.{
  decode_envelope, decode_body, decode_command, decode_error, decode_coded, decode_unversioned,
  is_tagged, error_of,
}
use outlabs_taskq.Prelude.{
  ◌≡◌, arith, Bool-cases, Option-cases, option_beq, option_beq_iff, inl, inr,
}

-- The response is one of the protocol, for the request that was sent, with the command's status.
pub record IsAnswer (spec : HttpCommandSpec) (sent outcome : String) (fields : Fields)
    (r : Response) : Type 0 where
  pub has_protocol : r.protocol_version ≡ some "1"
  pub is_echo : r.request_id ≡ some sent
  pub has_status : get outcome spec.outcomes ≡ some r.status
  pub has_tag : is_tagged spec fields r ≡ true

module _ (lib : Library) (spec : HttpCommandSpec) (sent outcome : String) (fields : Fields)
    (id : String) (r : Response) where
  decode_command-answer :
      (env : Option CommandEnvelope)
      → decode_command lib spec env sent r ≡ success outcome fields id
      → (id ≡ sent)
        × (r.request_id ≡ some sent)
        × (get outcome spec.outcomes ≡ some r.status)
        × (is_tagged spec fields r ≡ true)
  unfolding decode_command
  decode_command-answer none e = absurd cc
  decode_command-answer (some env) e = ground (
    arith,
    e,
    string_eq.is_exact env.request_id sent,
    option_beq_iff (some env.request_id) r.request_id,
    option_beq_iff (get env.outcome spec.outcomes) (some r.status),
  )

  decode_error-success :
      (env : Option ErrorEnvelope) → decode_error lib env sent r ≡ success outcome fields id → ⊥
  unfolding decode_error decode_coded
  decode_error-success none e = absurd cc
  decode_error-success (some env) e = ground (arith, e)

  decode_unversioned-success : decode_unversioned lib r ≡ success outcome fields id → ⊥
  unfolding decode_unversioned error_of
  decode_unversioned-success e = ground (arith, e)

  decode_body-answer :
      (raw : Json)
      → decode_body lib spec sent r raw ≡ success outcome fields id
      → (id ≡ sent)
        × (r.request_id ≡ some sent)
        × (get outcome spec.outcomes ≡ some r.status)
        × (is_tagged spec fields r ≡ true)
  unfolding decode_body
  decode_body-answer raw e = ground (
    arith,
    e,
    decode_error-success (lib.validate_error raw),
    decode_command-answer (lib.validate_command raw),
  )

  by_version :
      option_beq r.protocol_version (some "1") ≡ false
      → decode_envelope lib spec sent r ≡ success outcome fields id
      → decode_unversioned lib r ≡ success outcome fields id
  unfolding decode_envelope
  by_version apart e = ground (arith, apart, e)

  by_body :
      (raw : Json)
      → option_beq r.protocol_version (some "1") ≡ true
      → r.body ≡ some raw
      → decode_envelope lib spec sent r ≡ success outcome fields id
      → decode_body lib spec sent r raw ≡ success outcome fields id
  unfolding decode_envelope
  by_body raw versioned is_raw e = ground (arith, versioned, is_raw, e)

  pub decode_envelope-IsAnswer :
      decode_envelope lib spec sent r ≡ success outcome fields id
      → (id ≡ sent) × IsAnswer spec sent outcome fields r
  unfolding decode_envelope
  decode_envelope-IsAnswer e = elim (Bool-cases (option_beq r.protocol_version (some "1"))) [
    | inr apart ↦ absurd (decode_unversioned-success (by_version apart e))
    | inl versioned ↦ elim (Option-cases r.body) [
      | inl empty ↦ absurd (ground (arith, e, versioned, empty))
      | inr (raw, is_raw) ↦
          let (same_id, echo, status, tag) =
            decode_body-answer raw (by_body raw versioned is_raw e) in
          (
            same_id,
            record {
              has_protocol = (option_beq_iff r.protocol_version (some "1")).0 versioned;
              is_echo = echo;
              has_status = status;
              has_tag = tag;
            },
          )
    ]
  ]
