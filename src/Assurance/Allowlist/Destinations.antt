-- ===== src/Assurance/Allowlist/Destinations.antt =====
-- What `CheckURL` accepts.
use mathlib.Core.Path.{subst}
use membrane_ai.Base.{
  ◌≡◌, refl, ◌↔◌, ◌⊎◌, ◌≢◌, true, false, [], Str, bytes, ==_iff, trim_space, arith,
}
use membrane_ai.Errs.{Result, nil, ok, err}
use membrane_ai.Assurance.Allowlist.{
  Url, NetLib, Allowlist, is_loopback_host, is_listed, host_port, check_host, check_parsed,
  check_answer, check_url,
}

-- A destination that the operator has allowed.
pub record IsAllowed (net : NetLib) (a : Allowlist) (u : Url) : Type 0 where
  pub web : (net.to_lower u.scheme ≡ bytes "http") ⊎ (net.to_lower u.scheme ≡ bytes "https")
  pub no_user : u.has_user ≡ false
  pub hosted : net.to_lower u.hostname ≢ []
  pub loopback : is_loopback_host net (net.to_lower u.hostname) ≡ true → a.allow_loopback ≡ true
  pub remote :
      is_loopback_host net (net.to_lower u.hostname) ≡ false
      → (net.to_lower u.scheme ≡ bytes "https")
        × ((is_listed a (host_port (net.to_lower u.hostname) u.port) ≡ true)
            ⊎ (is_listed a (net.to_lower u.hostname) ≡ true))

module _ (net : NetLib) (a : Allowlist) (u : Url) where
  check_host_iff :
      (scheme host : Str)
      → (check_host net a u scheme host ≡ nil) ↔ (
          (is_loopback_host net host ≡ true → a.allow_loopback ≡ true)
          × (is_loopback_host net host ≡ false
              → (scheme ≡ bytes "https")
                × ((is_listed a (host_port host u.port) ≡ true) ⊎ (is_listed a host ≡ true))))
  unfolding check_host
  check_host_iff scheme host = ground (arith, ==_iff scheme (bytes "https"))

  check_parsed_iff : (check_parsed net a u ≡ nil) ↔ IsAllowed net a u
  unfolding check_parsed
  check_parsed_iff = ground (
    arith,
    ==_iff (net.to_lower u.scheme) (bytes "http"),
    ==_iff (net.to_lower u.scheme) (bytes "https"),
    ==_iff (net.to_lower u.hostname) [],
    check_host_iff (net.to_lower u.scheme) (net.to_lower u.hostname),
  )

check_answer_iff :
    (net : NetLib) (a : Allowlist) (r : Result Url)
    → (check_answer net a r ≡ nil) ↔ ((u : Url) × (r ≡ ok u) × IsAllowed net a u)
unfolding check_answer
check_answer_iff net a (ok u) = (
  (λ h. (u, refl, (check_parsed_iff net a u).0 h)),
  (λ (u', same, allowed).
      (check_parsed_iff net a u).1 (subst (λ v. IsAllowed net a v) (cc same) allowed)),
)
check_answer_iff net a (err e) = ((λ h. absurd (cc h)), (λ (u', same, allowed). absurd (cc same)))

-- `CheckURL` accepts a text exactly if it parses, trimmed, to a destination with the scheme http or
-- https, without credentials and with a host that is either a loopback one, where these are
-- allowed, or else one on the list, alone or with its port, over https.
pub check_url_iff :
    (net : NetLib) (a : Allowlist) (raw : Str)
    → (check_url net a raw ≡ nil)
      ↔ ((u : Url) × (net.parse (trim_space raw) ≡ ok u) × IsAllowed net a u)
unfolding check_url
check_url_iff net a raw = check_answer_iff net a (net.parse (trim_space raw))
