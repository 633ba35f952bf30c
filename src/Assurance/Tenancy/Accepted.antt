-- ===== src/Assurance/Tenancy/Accepted.antt =====
-- What `MappingRecordV1.Validate` accepts.
use membrane_ai.Base.{◌≡◌, ◌↔◌, false, some, ==_iff, All, arith, trim_space}
use membrane_ai.Errs.{GoError, nil, is_err, ok}
use membrane_ai.Assurance.Allowlist.{Url, NetLib, Allowlist, check_url}
use membrane_ai.Assurance.Allowlist.Destinations.{IsAllowed, check_url_iff}
use membrane_ai.Assurance.Contract.Checks.{IsFilled, missing_field-none}
use membrane_ai.Assurance.Tenancy.{
  MappingRecord, mapping_schema_version, mapping_fields, looks_like_inline_secret, validate_secrets,
  validate_mapping,
}

-- A mapping of the current version with every required field, whose base URL goes to an allowed
-- destination and whose credential is not a secret in plain sight.
pub record IsMapping (net : NetLib) (a : Allowlist) (m : MappingRecord) : Type 0 where
  pub version : m.schema_version ≡ mapping_schema_version
  pub filled : All IsFilled (mapping_fields m)
  pub allowed :
      (u : Url) × (net.parse (trim_space m.agent_twin_base_url) ≡ ok u) × IsAllowed net a u
  pub no_secret : looks_like_inline_secret net m.credential_ref ≡ false

nil-is_err : (e : GoError) → (is_err e ≡ false) ↔ (e ≡ nil)
nil-is_err GoError.nil = ground arith
nil-is_err (GoError.typed kind op msg cause) = ground arith
nil-is_err (GoError.wrapped text cause) = ground arith
nil-is_err (GoError.joined e rest) = ground arith
nil-is_err (GoError.plain msg) = ground arith

validate_secrets_iff :
    (net : NetLib) (a : Allowlist) (m : MappingRecord)
    → (validate_secrets net (some a) m ≡ nil) ↔ (
        (check_url net a m.agent_twin_base_url ≡ nil)
        × (looks_like_inline_secret net m.credential_ref ≡ false))
unfolding validate_secrets
validate_secrets_iff net a m = ground (arith, nil-is_err (check_url net a m.agent_twin_base_url))

validate_mapping-secrets :
    (net : NetLib) (a : Allowlist) (m : MappingRecord)
    → (validate_mapping net (some a) m ≡ nil) ↔ (
        (m.schema_version ≡ mapping_schema_version)
        × All IsFilled (mapping_fields m)
        × (validate_secrets net (some a) m ≡ nil))
unfolding validate_mapping
validate_mapping-secrets net a m =
    ground
      (arith, missing_field-none (mapping_fields m), ==_iff m.schema_version mapping_schema_version)

-- A mapping is accepted under an allowlist exactly if it has the current version and every required
-- field, its base URL parses to an allowed destination, and its credential does not look like an
-- inline secret.
pub validate_mapping_iff :
    (net : NetLib) (a : Allowlist) (m : MappingRecord)
    → (validate_mapping net (some a) m ≡ nil) ↔ IsMapping net a m
validate_mapping_iff net a m =
    let (outer, outer') = validate_mapping-secrets net a m in
    let (inner, inner') = validate_secrets_iff net a m in
    let (dest, dest') = check_url_iff net a m.agent_twin_base_url in
    (
      λ h.
          let (v, f, s) = outer h in
          let (d, n) = inner s in
          record { version = v; filled = f; allowed = dest d; no_secret = n },
      λ p. outer' (p.version, p.filled, inner' (dest' p.allowed, p.no_secret)),
    )
