-- ===== src/Queue/Tenant.antt =====
-- owlclaw/triggers/queue/trigger.py: the tenant that a message runs for. The environment, HMAC and
-- the comparison of digests are arguments.
pub mod Trust
use owlclaw.Base.{
  Bool, List, Option, String, [], concat, false, if◌then◌else◌, is_empty, lower, member, none, not,
  some, string_eq, string_pair_eq, strip, true, ◌++◌, ◌||◌, ◌∷◌,
}
use owlclaw.Base.Dict.{get}
use owlclaw.Queue.Config.{QueueTriggerConfig}
use owlclaw.Queue.Models.{MessageEnvelope}

-- `os.getenv(name, "")` and `hmac`; `compare_digest` raises (`none`) on a text that is not ASCII.
pub record Secrets : Type 0 where
  pub getenv : String → String
  pub hmac_sha256 : String → String → String
  pub compare_digest : String → String → Option Bool

-- `s or default`
abbrev pub or_text : String → String → String
or_text s default = if is_empty s then default else s

abbrev or_empty : {A : Type 0} → Option (List A) → List A
or_empty none = []
or_empty (some xs) = xs

abbrev pub or_missing : Option String → String
or_missing none = ""
or_missing (some s) = s

abbrev first_name : Option String → List String
first_name none = []
first_name (some s) = if is_empty (strip s) then [] else strip s ∷ []

-- The loop over `tenant_signature_secret_envs`.
unfoldable pub collect_names : List String → List String → List String
collect_names out [] = out
collect_names out (item ∷ items) =
    let normalized = strip item in
    collect_names
      (if is_empty normalized || member normalized out then out else out ++ normalized ∷ []) items

-- `_signature_secret_env_names`
unfoldable pub signature_secret_env_names : QueueTriggerConfig → List String
unfolding collect_names
signature_secret_env_names c =
    collect_names (first_name c.tenant_signature_secret_env)
      (or_empty c.tenant_signature_secret_envs)

abbrev pub header_of : MessageEnvelope → String → String → String
header_of envelope name default =
    strip (or_missing (get envelope.headers (or_text (lower (strip name)) default)))

abbrev pub or_else : Option Bool → Option Bool → Option Bool
or_else none rest = none
or_else (some true) rest = some true
or_else (some false) rest = rest

-- The loop over the names of the secrets.
unfoldable pub matches_any : Secrets → String → String → List String → Option Bool
matches_any secrets signature payload [] = some false
matches_any secrets signature payload (name ∷ names) =
    let rest = matches_any secrets signature payload names in
    let secret = strip (secrets.getenv name) in
    if is_empty secret
    then rest
    else or_else (secrets.compare_digest signature (secrets.hmac_sha256 secret payload)) rest

abbrev pub signed_text : MessageEnvelope → String → String → String
signed_text envelope tenant_id producer_id =
    concat (envelope.message_id ∷ ":" ∷ tenant_id ∷ ":" ∷ producer_id ∷ [])

abbrev pub check_names :
    Secrets → MessageEnvelope → String → String → String → List String → Option Bool
check_names secrets envelope signature tenant_id producer_id [] = some true
check_names secrets envelope signature tenant_id producer_id (name ∷ names) =
    if is_empty signature
    then some false
    else matches_any secrets signature (signed_text envelope tenant_id producer_id) (name ∷ names)

-- `_is_valid_tenant_signature`; `none` is the exception of `compare_digest`.
unfoldable pub is_valid_tenant_signature :
    Secrets → QueueTriggerConfig → MessageEnvelope → String → String → Option Bool
unfolding matches_any signature_secret_env_names
is_valid_tenant_signature secrets c envelope tenant_id producer_id =
    check_names secrets envelope (header_of envelope c.tenant_signature_header "x-tenant-signature")
      tenant_id producer_id (signature_secret_env_names c)

abbrev pub default_tenant : QueueTriggerConfig → String
default_tenant c = or_text (strip c.default_tenant_id) "default"

abbrev pub signed_or_default : Option Bool → String → String → Option String
signed_or_default none tenant default = none
signed_or_default (some valid) tenant default = some (if valid then tenant else default)

abbrev pub is_trusted_producer : QueueTriggerConfig → String → Bool
is_trusted_producer c producer_id = is_listed (or_empty c.trusted_producers)
  where
    is_listed : List String → Bool
    is_listed [] = true
    is_listed (p ∷ ps) = member producer_id (p ∷ ps)

-- `_resolve_tenant_id`
unfoldable pub resolve_tenant_id : Secrets → QueueTriggerConfig → MessageEnvelope → Option String
unfolding is_valid_tenant_signature
resolve_tenant_id secrets c envelope =
    let producer_id = header_of envelope c.trusted_producer_header "x-producer-id" in
    let tenant = header_of envelope c.tenant_header_name "x-tenant-id" in
    if not c.trust_tenant_header
    then some (default_tenant c)
    else if not (is_trusted_producer c producer_id)
    then some (default_tenant c)
    else if is_empty tenant
    then some (default_tenant c)
    else signed_or_default (is_valid_tenant_signature secrets c envelope tenant producer_id) tenant
        (default_tenant c)
