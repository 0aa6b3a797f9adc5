-- ===== src/Queue/Tenant/Trust.antt =====
-- owlclaw/triggers/queue/trigger.py: when a header may choose the tenant of a message.
use owlclaw.Base.{
  Bool, Bool-cases, List, Option, String, [], arith, eq_refl, false, inl, inr, is_empty, member,
  none, refl, some, strip, sym, true, ◌∷◌, ◌≡◌, ◌≢◌, ◌⊎◌,
}
use owlclaw.Base.Options.{same_value}
use owlclaw.Queue.Config.{QueueTriggerConfig}
use owlclaw.Queue.Models.{MessageEnvelope}
use owlclaw.Queue.Tenant.{
  Secrets, check_names, default_tenant, header_of, is_trusted_producer, is_valid_tenant_signature,
  matches_any, or_else, resolve_tenant_id, signature_secret_env_names, signed_or_default,
  signed_text,
}

-- A secret of the environment, under one of the names, whose digest of the text is the signature.
abbrev pub SignedBy : Secrets → String → String → List String → Type 0
SignedBy secrets signature text names =
    (name : String) × (member name names ≡ true)
    × (is_empty (strip (secrets.getenv name)) ≡ false)
    × (secrets.compare_digest signature (secrets.hmac_sha256 (strip (secrets.getenv name)) text)
        ≡ some true)

module _ (secrets : Secrets) (signature text : String) where
  later_name :
      (name : String) (names : List String)
      → SignedBy secrets signature text names
      → SignedBy secrets signature text (name ∷ names)
  unfolding member
  later_name name names (n, listed, solid, same) = (n, ground arith, solid, same)

  first_or_later :
      (name : String) (names : List String)
      → is_empty (strip (secrets.getenv name)) ≡ false
      → (o : Option Bool)
      → secrets.compare_digest signature (secrets.hmac_sha256 (strip (secrets.getenv name)) text)
        ≡ o
      → (matches_any secrets signature text names ≡ some true
          → SignedBy secrets signature text names)
      → or_else o (matches_any secrets signature text names) ≡ some true
      → SignedBy secrets signature text (name ∷ names)
  unfolding member
  first_or_later name names solid none same ih e = absurd (cc)
  first_or_later name names solid (some true) same ih e =
      (name, rw (eq_refl name) refl, solid, same)
  first_or_later name names solid (some false) same ih e = later_name name names (ih e)

  pub matches_any-SignedBy :
      (names : List String)
      → matches_any secrets signature text names ≡ some true
      → SignedBy secrets signature text names
  unfolding matches_any
  matches_any-SignedBy [] e = absurd (cc)
  matches_any-SignedBy (name ∷ names) e =
      elim (Bool-cases (is_empty (strip (secrets.getenv name)))) [
        | inl blank ↦ later_name name names (matches_any-SignedBy names (rw blank at e))
        | inr solid ↦
            first_or_later name names solid
              (secrets.compare_digest signature
                (secrets.hmac_sha256 (strip (secrets.getenv name)) text))
              refl (matches_any-SignedBy names) (rw solid at e)
      ]

module _ (secrets : Secrets) (c : QueueTriggerConfig) (envelope : MessageEnvelope) where
  abbrev pub MaySet : String → Type 0
  MaySet tenant =
      let producer_id = header_of envelope c.trusted_producer_header "x-producer-id" in
      (c.trust_tenant_header ≡ true)
      × (is_trusted_producer c producer_id ≡ true)
      × (header_of envelope c.tenant_header_name "x-tenant-id" ≡ tenant)
      × ((signature_secret_env_names c ≡ [])
          ⊎ SignedBy secrets (header_of envelope c.tenant_signature_header "x-tenant-signature")
              (signed_text envelope tenant producer_id) (signature_secret_env_names c))

  valid-Signed :
      (tenant producer_id : String) (names : List String)
      → let signature = header_of envelope c.tenant_signature_header "x-tenant-signature" in
        check_names secrets envelope signature tenant producer_id names ≡ some true
        → (names ≡ []) ⊎ SignedBy secrets signature (signed_text envelope tenant producer_id) names
  valid-Signed tenant producer_id [] e = inl refl
  valid-Signed tenant producer_id (name ∷ names) e =
      let signature = header_of envelope c.tenant_signature_header "x-tenant-signature" in
      elim (Bool-cases (is_empty signature)) [
        | inl blank ↦ let e' : some false ≡ some true = rw blank at e in absurd (cc)
        | inr solid ↦ inr (
            matches_any-SignedBy secrets signature (signed_text envelope tenant producer_id)
              (name ∷ names) (rw solid at e))
      ]

  chosen :
      (o : Option Bool) (header default tenant : String)
      → signed_or_default o header default ≡ some tenant
      → tenant ≢ default
      → (o ≡ some true) × (header ≡ tenant)
  chosen none header default tenant e h = absurd (cc)
  chosen (some true) header default tenant e h = (refl, same_value header tenant e)
  chosen (some false) header default tenant e h = absurd (h (sym (same_value default tenant e)))

  -- A message runs for a tenant other than the default one only where the configuration trusts the
  -- header, a listed producer sent it where producers are listed, the header names that tenant, and
  -- a secret of the environment signed the message, the tenant and the producer where secrets are
  -- configured.
  pub resolve_tenant_id-MaySet :
      (tenant : String)
      → resolve_tenant_id secrets c envelope ≡ some tenant
      → tenant ≢ default_tenant c
      → MaySet tenant
  unfolding resolve_tenant_id is_valid_tenant_signature
  resolve_tenant_id-MaySet tenant e h =
      let producer_id = header_of envelope c.trusted_producer_header "x-producer-id" in
      let header = header_of envelope c.tenant_header_name "x-tenant-id" in
      elim (Bool-cases c.trust_tenant_header) [
        | inr closed_to ↦
            absurd (h (sym (same_value (default_tenant c) tenant (rw closed_to at e))))
        | inl open_to ↦ elim (Bool-cases (is_trusted_producer c producer_id)) [
          | inr unlisted ↦
              absurd (h (sym (same_value (default_tenant c) tenant (rw (open_to, unlisted) at e))))
          | inl listed ↦ elim (Bool-cases (is_empty header)) [
            | inl blank ↦
                absurd (
                  h (sym (same_value (default_tenant c) tenant (rw (open_to, listed, blank) at e))))
            | inr solid ↦
                let parts =
                  chosen (is_valid_tenant_signature secrets c envelope header producer_id) header
                    (default_tenant c) tenant (rw (open_to, listed, solid) at e) h in
                (
                  open_to,
                  listed,
                  parts.1,
                  rw (← parts.1)
                      (valid-Signed header producer_id (signature_secret_env_names c) parts.0),
                )
          ]
        ]
      ]
