-- ===== src/Assurance/Tenancy.antt =====
-- pkg/assurance/contract.go: the record that maps a project to its AgentTwin project, with its check.
-- The map of required fields is checked in the order of the source, which Go leaves open.
pub mod Accepted
use membrane_ai.Base.{
  Bool, true, false, ◌&&◌, not, Option, none, some, List, [], ◌∷◌, ◌++◌, Str, bytes, ◌==◌,
  trim_space, has_prefix, any, length, ltb, eqb, if◌then◌else◌,
}
use membrane_ai.Errs.{GoError, nil, is_err, validation_err}
use membrane_ai.Assurance.Allowlist.{NetLib, Allowlist, check_url}
use membrane_ai.Assurance.Contract.{Time, missing_field, after_fields}

abbrev pub mapping_schema_version : Str
mapping_schema_version = bytes "1.0.0"

pub record MappingRecord : Type 0 where
  pub schema_version : Str
  pub mapping_id : Str
  pub membrane_org_id : Str
  pub membrane_project_id : Str
  pub agent_twin_org_id : Str
  pub agent_twin_project_id : Str
  pub agent_twin_base_url : Str
  pub credential_ref : Str
  pub status : Str
  pub created_at : Time
  pub updated_at : Time
  pub actor : Str
  pub audit_ref : Str
  pub default_agent_id : Str

abbrev pub secret_prefixes : List Str
secret_prefixes =
    bytes "atk_"
    ∷ bytes "sk-"
    ∷ bytes "sk_"
    ∷ bytes "ghp_"
    ∷ bytes "akia"
    ∷ bytes "bearer "
    ∷ bytes "-----begin"
    ∷ []

-- `strings.ContainsAny(r, " /.:")`
abbrev pub has_separator : Str → Bool
has_separator r = any (λ c. any (eqb c) (bytes " /.:")) r

-- `looksLikeInlineSecret`
unfoldable pub looks_like_inline_secret : NetLib → Str → Bool
looks_like_inline_secret net ref =
    let r = trim_space ref in
    if r == []
    then false
    else if any (has_prefix (net.to_lower r)) secret_prefixes
    then true
    else if ltb 64 (length r) && not (has_separator r)
    then true
    else false

abbrev pub mapping_fields : MappingRecord → List (Str × Str)
mapping_fields m =
    (bytes "mapping_id", m.mapping_id)
    ∷ (bytes "membrane_org_id", m.membrane_org_id)
    ∷ (bytes "membrane_project_id", m.membrane_project_id)
    ∷ (bytes "agenttwin_org_id", m.agent_twin_org_id)
    ∷ (bytes "agenttwin_project_id", m.agent_twin_project_id)
    ∷ (bytes "agenttwin_base_url", m.agent_twin_base_url)
    ∷ (bytes "credential_ref", m.credential_ref)
    ∷ (bytes "status", m.status)
    ∷ (bytes "actor", m.actor)
    ∷ (bytes "audit_ref", m.audit_ref)
    ∷ []

abbrev op_mapping : Str
op_mapping = bytes "assurance.MappingRecordV1.Validate"

-- The two security invariants, at the end of `MappingRecordV1.Validate`.
unfoldable pub validate_secrets : NetLib → Option Allowlist → MappingRecord → GoError
validate_secrets net none m =
    validation_err op_mapping (bytes "a destination allowlist is required to validate a mapping")
      nil
validate_secrets net (some allow) m =
    let rejected = check_url net allow m.agent_twin_base_url in
    if is_err rejected
    then validation_err op_mapping (bytes "agenttwin_base_url rejected by allowlist") rejected
    else if looks_like_inline_secret net m.credential_ref
    then validation_err op_mapping
        (bytes "credential_ref must be a secret-manager key name, not an inline secret") nil
    else nil

-- `MappingRecordV1.Validate`; a nil allowlist is `none`.
unfoldable pub validate_mapping : NetLib → Option Allowlist → MappingRecord → GoError
validate_mapping net allow m =
    if not (m.schema_version == mapping_schema_version)
    then validation_err op_mapping (bytes "unexpected mapping schema_version: " ++ m.schema_version)
        nil
    else after_fields op_mapping (bytes "missing required mapping field: ")
        (missing_field (mapping_fields m)) (validate_secrets net allow m)
