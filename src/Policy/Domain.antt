-- ===== src/Policy/Domain.antt =====
-- `normalizedDomain`, `domainMatches` and `mostSpecificDomainRule` of
-- packages/policy-schema/src/evaluator.ts.
pub mod Labels
pub mod Specific
use you_tube_gradian_devin.Common.{
  starts_with, ℕ, ◌+◌, ◌==◌, Text, text, text_eq, truthy, Bool, true, false, ◌&&◌, ◌||◌, not,
  Option, none, some, List, [], ◌∷◌, ◌++◌, map, leb, if◌then◌else◌, length,
}
use you_tube_gradian_devin.Policy.Bundle.{DomainRule, Match, exact, subdomains}
use you_tube_gradian_devin.Policy.Platform.{Platform}

-- `value.includes(part)`
unfoldable pub includes : Text → Text → Bool
unfolding starts_with
includes part [] = starts_with part []
includes part (c ∷ value) = starts_with part (c ∷ value) || includes part value

-- `value.endsWith(suffix)`
unfoldable pub ends_with : Text → Text → Bool
ends_with suffix [] = text_eq suffix []
ends_with suffix (c ∷ value) = text_eq suffix (c ∷ value) || ends_with suffix value

-- The lower case of a code unit of a host name, which is ASCII.
abbrev lower_unit : ℕ → ℕ
lower_unit c = if leb b'A' c && leb c b'Z' then c + 32 else c

unfoldable pub to_lower_case : Text → Text
to_lower_case = map lower_unit

-- `value.replace(/\.$/, "")`
unfoldable pub drop_last_dot : Text → Text
drop_last_dot [] = []
drop_last_dot (c ∷ []) = if c == b'.' then [] else c ∷ []
drop_last_dot (c ∷ d ∷ value) = c ∷ drop_last_dot (d ∷ value)

cleaned : Option Text → Text
cleaned none = []
cleaned (some ascii) = drop_last_dot (to_lower_case ascii)

-- A text that is neither `null` nor empty.
abbrev pub truthy_option : Option Text → Bool
truthy_option none = false
truthy_option (some t) = truthy t

-- `configured === getPublicSuffix(configured)`
abbrev pub is_suffix_itself : Text → Option Text → Bool
is_suffix_itself configured none = false
is_suffix_itself configured (some suffix) = text_eq configured suffix

abbrev pub is_exact : Option Match → Bool
is_exact (some exact) = true
is_exact (some subdomains) = false
is_exact none = false

abbrev pub names_subdomains : Option Match → Bool
names_subdomains (some subdomains) = true
names_subdomains (some exact) = false
names_subdomains none = false

-- The loop's `selected` and `selectedSpecificity`; `none` is `undefined` and -1.
abbrev pub Selected : Type 0
Selected = Option (DomainRule × ℕ)

abbrev pub not_below : ℕ → Selected → Bool
not_below found none = true
not_below found (some (_, best)) = leb best found

abbrev pub rule_of : Selected → Option DomainRule
rule_of none = none
rule_of (some (rule, _)) = some rule

module _ (P : Platform) where
  -- The text that the second `new URL` is given, `none` where the first throws.
  without_scheme : Text → Option Text
  unfolding includes
  without_scheme value = if includes (text "://") value then P.url_hostname value else some value

  hostname_of : Option Text → Option Text
  hostname_of none = none
  hostname_of (some host) = P.url_hostname (text "http://" ++ host)

  unfoldable pub normalized_domain : Text → Text
  unfolding without_scheme cleaned hostname_of
  normalized_domain value = cleaned (hostname_of (without_scheme value))

  abbrev pub is_registrable : Text → Bool
  is_registrable configured =
      truthy_option (P.get_domain configured)
      && truthy_option (P.get_public_suffix configured)
      && not (is_suffix_itself configured (P.get_public_suffix configured))

  unfoldable pub domain_matches : DomainRule → Text → Bool
  domain_matches rule target =
      let candidate = normalized_domain target in
      let configured = normalized_domain rule.domain in
      if not (truthy candidate) || not (truthy configured)
      then false
      else if not (is_registrable configured)
      then false
      else if is_exact rule.match
      then text_eq candidate configured
      else text_eq candidate configured || ends_with (b'.' ∷ configured) candidate

  abbrev pub specificity : DomainRule → ℕ
  specificity rule =
      length (normalized_domain rule.domain) + (if names_subdomains rule.match then 2 else 0)

  -- One round of the loop.
  unfoldable pub consider : Text → DomainRule → Selected → Selected
  consider candidate rule selected =
      if not (domain_matches rule candidate)
      then selected
      else if not_below (specificity rule) selected
      then some (rule, specificity rule)
      else selected

  unfoldable pub select_from : Text → Selected → List DomainRule → Selected
  select_from candidate selected [] = selected
  select_from candidate selected (rule ∷ rules) =
      select_from candidate (consider candidate rule selected) rules

  unfoldable pub most_specific_domain_rule : List DomainRule → Text → Option DomainRule
  unfolding select_from consider
  most_specific_domain_rule rules target =
      let candidate = normalized_domain target in
      if not (truthy candidate) then none else rule_of (select_from candidate none rules)
