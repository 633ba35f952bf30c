-- ===== src/Assurance/Allowlist.antt =====
-- pkg/assurance/allowlist.go: the destinations that the assurance client may call. What packages
-- net/url, net and strings answer is a parameter.
pub mod Destinations
use membrane_ai.Base.{
  Bool, true, false, ◌&&◌, not, Option, none, some, List, [], ◌∷◌, ◌++◌, Str, bytes, ◌==◌,
  trim_space, if◌then◌else◌,
}
use membrane_ai.Base.Maps.{lookup, insert}
use membrane_ai.Errs.{GoError, nil, validation_err, Result, ok, err}

-- What the code reads of a `url.URL`; `has_user` is `u.User != nil`.
pub record Url : Type 0 where
  pub scheme : Str
  pub has_user : Bool
  pub hostname : Str
  pub port : Str

-- `url.Parse`, `strings.ToLower`, and `ip.IsLoopback` of what `net.ParseIP` finds, if it finds one.
pub record NetLib : Type 0 where
  pub parse : Str → Result Url
  pub to_lower : Str → Str
  pub ip_is_loopback : Str → Option Bool

pub record Allowlist : Type 0 where
  pub hosts : List (Str × Unit {0})
  pub allow_loopback : Bool

-- The loop of `NewAllowlist`.
unfoldable pub add_hosts : NetLib → List Str → List (Str × Unit {0}) → List (Str × Unit {0})
add_hosts net [] set = set
add_hosts net (h ∷ rest) set =
    let host = net.to_lower (trim_space h) in
    add_hosts net rest (if not (host == []) then insert host tt set else set)

unfoldable pub new_allowlist : NetLib → Bool → List Str → Allowlist
unfolding add_hosts
new_allowlist net allow_loopback hosts = record {
  hosts = add_hosts net hosts [];
  allow_loopback = allow_loopback;
}

abbrev or_false : Option Bool → Bool
or_false none = false
or_false (some b) = b

unfoldable pub is_loopback_host : NetLib → Str → Bool
is_loopback_host net host =
    if host == bytes "localhost" then true else or_false (net.ip_is_loopback host)

unfoldable pub is_listed : Allowlist → Str → Bool
is_listed a host = elim (lookup host a.hosts) [ none ↦ false | some _ ↦ true ]

abbrev op_check : Str
op_check = bytes "assurance.Allowlist.CheckURL"

abbrev pub host_port : Str → Str → Str
host_port host port = if not (port == []) then host ++ bytes ":" ++ port else host

-- The part of `CheckURL` that follows the check of the host's presence.
unfoldable pub check_host : NetLib → Allowlist → Url → Str → Str → GoError
check_host net a u scheme host =
    if is_loopback_host net host
    then if a.allow_loopback
      then nil
      else validation_err op_check
          (bytes "loopback destination is not allowed in this configuration") nil
    else if not (scheme == bytes "https")
    then validation_err op_check (bytes "non-loopback destination must use https") nil
    else if is_listed a (host_port host u.port)
    then nil
    else if is_listed a host
    then nil
    else validation_err op_check (bytes "destination host is not in the allowlist: " ++ host) nil

-- The part that follows the parsing.
unfoldable pub check_parsed : NetLib → Allowlist → Url → GoError
check_parsed net a u =
    let scheme = net.to_lower u.scheme in
    let host = net.to_lower u.hostname in
    if not (scheme == bytes "http") && not (scheme == bytes "https")
    then validation_err op_check
        (bytes "destination scheme must be http or https, got " ++ u.scheme) nil
    else if u.has_user
    then validation_err op_check (bytes "destination must not embed credentials") nil
    else if host == []
    then validation_err op_check (bytes "destination has no host") nil
    else check_host net a u scheme host

-- `CheckURL` on what the parser answers.
unfoldable pub check_answer : NetLib → Allowlist → Result Url → GoError
check_answer net a (err e) = validation_err op_check (bytes "destination is not a valid URL") e
check_answer net a (ok u) = check_parsed net a u

-- `Allowlist.CheckURL`
unfoldable pub check_url : NetLib → Allowlist → Str → GoError
check_url net a raw = check_answer net a (net.parse (trim_space raw))
