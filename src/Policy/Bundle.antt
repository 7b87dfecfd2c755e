-- ===== src/Policy/Bundle.antt =====
-- packages/policy-schema/src/generated.ts: the signed policy bundle. A field marked `?` is an
-- `Option`. A category is a text, since the evaluator casts any target reference to one.
use you_tube_gradian_devin.Common.{ℕ, Text, Bool, Option, List}

pub data AgeBand : Type 0 where
  young_child preteen teen older_teen : AgeBand

pub data UnknownDomainPolicy : Type 0 where
  block block_while_classifying allow_while_classifying allow_and_notify : UnknownDomainPolicy

pub data UnknownAppPolicy : Type 0 where
  block limit_and_notify allow_and_notify allow : UnknownAppPolicy

pub data Action : Type 0 where
  allow block unlimited limit schedule ask_parent : Action

pub data TargetKind : Type 0 where
  app domain category : TargetKind

pub data OverrideKind : Type 0 where
  app domain category device : OverrideKind

pub data Match : Type 0 where
  exact subdomains : Match

pub data RoutineKind : Type 0 where
  scheduled manual : RoutineKind

pub data WebMode : Type 0 where
  balanced strict : WebMode

pub data CommunicationMode : Type 0 where
  normal essential_only : CommunicationMode

pub data Severity : Type 0 where
  low medium high critical : Severity

pub record TimeWindow : Type 0 where
  pub days : List ℕ
  pub start : Text
  pub end : Text

-- `RuleLike` of the evaluator: what every kind of rule and an override share.
pub record RuleLike : Type 0 where
  pub rule_id : Text
  pub action : Action
  pub daily_minutes : Option ℕ

-- What the three kinds of rule share.
pub record RuleBody : Type 0 where
  pub like : RuleLike
  pub open like use *
  pub schedule : Option TimeWindow
  pub exclude_from_budget : Option Bool

pub record AppRule : Type 0 where
  pub body : RuleBody
  pub open body use *
  pub app_ref : Text

pub record CategoryRule : Type 0 where
  pub body : RuleBody
  pub open body use *
  pub category : Text

pub record DomainRule : Type 0 where
  pub body : RuleBody
  pub open body use *
  pub domain : Text
  pub match : Option Match

pub record Routine : Type 0 where
  pub routine_id : Text
  pub name : Text
  pub kind : RoutineKind
  pub window : Option TimeWindow
  pub allowed_apps : Option (List Text)
  pub allowed_categories : Option (List Text)
  pub blocked_apps : Option (List Text)
  pub blocked_categories : Option (List Text)
  pub web_mode : Option WebMode
  pub communication_mode : Option CommunicationMode

pub record TemporaryOverride : Type 0 where
  pub like : RuleLike
  pub open like use *
  pub target_kind : OverrideKind
  pub target_ref : Text
  pub starts_at : Text
  pub expires_at : Text

pub record AllowlistEntry : Type 0 where
  pub target_kind : TargetKind
  pub target_ref : Text

pub record BasePolicy : Type 0 where
  pub timezone : Text
  pub unknown_domain_policy : UnknownDomainPolicy
  pub unknown_app_policy : UnknownAppPolicy
  pub current_manual_routine_id : Option Text
  pub unknown_app_daily_minutes : Option ℕ
  pub daily_device_budget_minutes : Option ℕ
  pub hard_category_rules : List CategoryRule
  pub default_category_rules : List CategoryRule
  pub safety_allowlist : List AllowlistEntry

pub record CommunicationSafety : Type 0 where
  pub enabled : Bool
  pub severity_threshold : Severity
  pub android_notification_signals : Bool
  pub android_accessibility_signals : Bool

pub record SignedPolicyBundle : Type 0 where
  pub schema_version : ℕ
  pub policy_version : ℕ
  pub family_id : Text
  pub child_profile_id : Text
  pub issued_at : Text
  pub expires_soft_at : Text
  pub key_id : Text
  pub age_band : AgeBand
  pub base_policy : BasePolicy
  pub app_rules : List AppRule
  pub domain_rules : List DomainRule
  pub category_rules : List CategoryRule
  pub routines : List Routine
  pub temporary_overrides : List TemporaryOverride
  pub communication_safety : CommunicationSafety
  pub signature : Text
