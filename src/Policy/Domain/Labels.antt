-- ===== src/Policy/Domain/Labels.antt =====
-- Which targets a domain rule matches.
use you_tube_gradian_devin.Common.{Text, false, Option, ◌∷◌, ◌++◌, ◌≡◌, ◌⊎◌}
use you_tube_gradian_devin.Policy.Bundle.{DomainRule, Match}
use you_tube_gradian_devin.Policy.Platform.{Platform}
use you_tube_gradian_devin.Policy.Domain.{normalized_domain, is_exact}

-- The host itself or, for a rule that is not EXACT, the host under one or more further labels.
abbrev pub IsCovered : Option Match → Text → Text → Type 0
IsCovered match host domain =
    (host ≡ domain)
    ⊎ ((is_exact match ≡ false) × ((front : Text) × (host ≡ front ++ b'.' ∷ domain)))

module _ (P : Platform) (rule : DomainRule) (target : Text) where
  abbrev pub host : Text
  host = normalized_domain P target

  abbrev pub domain : Text
  domain = normalized_domain P rule.domain
