-- ===== src/Hooks/Signed.antt =====
-- What a caller without the secret can do to the state through the endpoint.
use ldb_backend_hack.Base.{
  String, ◌≡◌, refl, sym, ap, ◌∙◌, ◌==◌, string_eq, true, false, ◌||◌, Option, none, some, ◌⊎◌, inl,
  inr, Bool-cases, arith,
}
use mathlib.Core.Bool.{false≢true}
use ldb_backend_hack.Json.{Json}
use ldb_backend_hack.Model.{World}
use ldb_backend_hack.Action.{Exception, ok, raised, raise, lift, error_response}
use ldb_backend_hack.Action.Steps.{bind_ok, bind_raised, Result-cases, ok_injective}
use ldb_backend_hack.Orm.{Orm}
use ldb_backend_hack.Runtime.{Runtime}
use ldb_backend_hack.Webhooks.{receive}
use ldb_backend_hack.Hooks.{Gate, verify_nomba_signature, nomba_webhook}

-- `hmac.compare_digest` says yes to equal texts only.
abbrev pub IsSound : Gate → Type 0
IsSound gate = (a b : String) → gate.compare_digest a b ≡ ok true → a ≡ b

-- The signature is the digest of the body under a secret that is set.
abbrev pub IsSigned : Gate → String → Option String → Type 0
IsSigned gate raw_body signature =
    (signature ≡ some (gate.digest gate.secret raw_body)) × ((gate.secret == "") ≡ false)

module _ (gate : Gate) (sound : IsSound gate) where
  verified-IsSigned :
      (raw_body : String) (signature : Option String)
      → verify_nomba_signature gate raw_body signature ≡ ok true
      → IsSigned gate raw_body signature
  unfolding verify_nomba_signature
  verified-IsSigned raw_body none h = cc
  verified-IsSigned raw_body (some s) h = elim (Bool-cases (s == "" || gate.secret == "")) [
    | inl missing ↦ absurd (false≢true (ok_injective (rw missing at h)))
    | inr given ↦ (ap some (sym (sound _ s (rw given at h))), ground arith)
  ]

-- If `hmac.compare_digest` says yes to equal texts only, a call of the endpoint runs the webhook in
-- the body only if it is signed with a secret that is set; any other call raises an exception and
-- leaves the state as it is.
pub nomba_webhook-IsSigned :
    (gate : Gate) (sound : IsSound gate) (orm : Orm) (rt : Runtime) (raw_body : String)
    (signature : Option String) (w : World)
    → (IsSigned gate raw_body signature
        × (payload : Json) × (gate.loads raw_body ≡ ok payload)
        × (nomba_webhook gate orm rt raw_body signature w ≡ receive orm rt payload w))
      ⊎ ((e : Exception) × (nomba_webhook gate orm rt raw_body signature w ≡ (raised e, w)))
unfolding nomba_webhook raise lift
nomba_webhook-IsSigned gate sound orm rt raw_body signature w =
    elim (Result-cases (verify_nomba_signature gate raw_body signature)) [
      | inr (e, odd) ↦ inr (e, bind_raised _ _ (ap (λ r. (r, w)) odd))
      | inl (valid, checked) ↦ elim (Bool-cases valid) [
        | inr refused ↦ inr (
          error_response 401 "Invalid webhook signature" none,
          bind_ok _ _ (ap (λ r. (r, w)) checked) ∙ rw refused refl,
        )
        | inl passed ↦ elim (Result-cases (gate.loads raw_body)) [
          | inr (e, odd) ↦ inr (
            e,
            bind_ok _ _ (ap (λ r. (r, w)) checked)
                ∙ rw passed (bind_raised _ _ (ap (λ r. (r, w)) odd)),
          )
          | inl (payload, read) ↦ inl (
            verified-IsSigned gate sound raw_body signature (checked ∙ ap ok passed),
            payload,
            read,
            bind_ok _ _ (ap (λ r. (r, w)) checked)
                ∙ rw passed (bind_ok _ _ (ap (λ r. (r, w)) read)),
          )
        ]
      ]
    ]
