-- ===== src/Policy/Domain/Specific.antt =====
-- The rule that `mostSpecificDomainRule` selects.
use you_tube_gradian_devin.Common.{
  ℕ, ◌≤◌, ◌<◌, Text, true, false, Option, none, some, List, ◌∷◌, ◌++◌, ◌≡◌, All,
}
use you_tube_gradian_devin.Policy.Bundle.{DomainRule}
use you_tube_gradian_devin.Policy.Platform.{Platform}
use you_tube_gradian_devin.Policy.Domain.{domain_matches, specificity, Selected}

module _ (P : Platform) (target : Text) where
  abbrev pub Matches : DomainRule → Type 0
  Matches rule = domain_matches P rule target ≡ true

  -- No earlier rule that matches is more specific.
  abbrev pub AtMost : ℕ → DomainRule → Type 0
  AtMost best rule = Matches rule → specificity P rule ≤ best

  -- Every later rule that matches is less specific.
  abbrev pub Below : ℕ → DomainRule → Type 0
  Below best rule = Matches rule → specificity P rule < best

  -- The rule matches, none is more specific, and of the equally specific it is the last.
  pub record IsMostSpecific (rules : List DomainRule) (rule : DomainRule) : Type 0 where
    pub earlier : List DomainRule
    pub later : List DomainRule
    pub place : rules ≡ earlier ++ rule ∷ later
    pub matches : Matches rule
    pub no_better : All (AtMost (specificity P rule)) earlier
    pub last_best : All (Below (specificity P rule)) later

  data Best (rules : List DomainRule) : Selected → Type 0 where
    nothing : All (λ r. domain_matches P r target ≡ false) rules → Best rules none
    best :
        (rule : DomainRule) (n : ℕ)
        → n ≡ specificity P rule
        → IsMostSpecific rules rule
        → Best rules (some (rule, n))

-- What the selection says of the rules: the one found is the most specific, and where none is
-- found no rule matches.
abbrev pub IsAnswer : Platform → Text → List DomainRule → Option DomainRule → Type 0
IsAnswer P host rules none = All (λ r. domain_matches P r host ≡ false) rules
IsAnswer P host rules (some rule) = IsMostSpecific P host rules rule
