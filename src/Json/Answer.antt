-- ===== src/Json/Answer.antt =====
-- What a request is answered whose JSON body is asked for.
use erikslund_http_embedded.Prelude.{
  ℕ, ◌≤◌, ◌<◌, ◌≡◌, refl, ◌≢◌, ◌⊎◌, inl, inr, [], arith, ltb, Bool-cases, Bytes, codes, is_empty,
  length, Result, ok, err,
}
use erikslund_http_embedded.Json.MediaType.{
  DeclaresJson, declares_json_complete, declares_json_sound,
}
use erikslund_http_embedded.Json.{JsonError, declares_json, json_body_of, not_json, too_large}
use erikslund_http_embedded.Request.State.{Request, header}

-- Why a request has no JSON body: it does not say so or has no body, or its body is over the limit.
abbrev pub RefusesBody : Request → ℕ → JsonError → Type 0
RefusesBody request max_bytes not_json =
    (¬ DeclaresJson request)
    ⊎ (DeclaresJson request × (length request.body ≤ max_bytes) × (request.body ≡ []))
RefusesBody request max_bytes too_large = DeclaresJson request × (max_bytes < length request.body)
RefusesBody request max_bytes _ = ⊥

-- What the answer says of a request: its body is JSON by its type, not empty and within the limit, or the
-- error is the one of a reason that there is.
abbrev pub Explains : Request → ℕ → Result JsonError Bytes → Type 0
Explains request max_bytes (ok bytes) =
    (bytes ≡ request.body) × DeclaresJson request × (bytes ≢ []) × (length bytes ≤ max_bytes)
Explains request max_bytes (err error) = RefusesBody request max_bytes error

-- A body is handed out just when the request declares JSON and its body is neither empty nor over the
-- limit; otherwise the error has its reason. A request declares JSON when the media type of its first
-- Content-Type field, which stands before the parameters, is application/json or has the suffix +json,
-- whatever the case.
pub json_body_of-Explains :
    (request : Request) (max_bytes : ℕ)
    → Explains request max_bytes (json_body_of request max_bytes)
unfolding json_body_of
json_body_of-Explains request max_bytes =
    elim (Bool-cases (declares_json (header request (codes "Content-Type")))) [
      | inr e ↦ rw e (inl (λ d. ground (arith, declares_json_complete request d)))
      | inl e ↦
          let declared = declares_json_sound request e in
          elim (Bool-cases (ltb max_bytes (length request.body))) [
            | inl f ↦ rw (e, f) (declared, ground arith)
            | inr f ↦ elim (Bool-cases (is_empty request.body)) [
              | inl g ↦ rw (e, f, g) (inr (declared, ground arith, ground arith))
              | inr g ↦ rw (e, f, g) (refl, declared, (λ k. ground arith), ground arith)
            ]
          ]
    ]
