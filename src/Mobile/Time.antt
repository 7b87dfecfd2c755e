-- ===== src/Mobile/Time.antt =====
-- `ChildTimeRoute` of apps/mobile/src/app/child/time.tsx: the time that the screen of a child's device
-- shows as left, for a bundle that conforms to the schema and for usage in whole seconds.
pub mod Agreed
pub mod Fair
mod Tests
use Prim.Native.Nat.{min}
use you_tube_gradian_devin.Common.{
  ℕ, ◌*◌, ◌-◌, ◌/◌, ◌==◌, Text, text, text_eq, decimal, Option, none, some, List, [], ◌∷◌, ◌++◌,
  Bool, true, false, ◌&&◌, ◌||◌, not, map, add_some, find, ltb, leb, if◌then◌else◌, ◌or_default◌,
}
use you_tube_gradian_devin.Policy.Bundle.{
  Action, OverrideKind, AppRule, TemporaryOverride, BasePolicy, SignedPolicyBundle,
}
use you_tube_gradian_devin.Policy.Budget.{defined, greatest}

pub data GrantAction : Type 0 where
  limit allow : GrantAction

pub data GrantKind : Type 0 where
  app domain device : GrantKind

-- `ActiveGrantDescriptor`; the text of the target is `target_text`.
pub record Grant : Type 0 where
  pub action : GrantAction
  pub minutes : Option ℕ
  pub rule_id : Text
  pub target_kind : GrantKind
  pub target_ref : Text

abbrev pub target_text : Grant → Text
target_text grant = elim grant.target_kind [
  | device ↦ text "this device"
  | app ↦ text "app " ++ grant.target_ref
  | domain ↦ text "website " ++ grant.target_ref
]

abbrev pub grant_action : Action → Option GrantAction
grant_action Action.limit = some limit
grant_action Action.allow = some allow
grant_action _ = none

abbrev pub grant_kind : OverrideKind → Option GrantKind
grant_kind OverrideKind.app = some app
grant_kind OverrideKind.domain = some domain
grant_kind OverrideKind.device = some device
grant_kind OverrideKind.category = none

-- `Number.isFinite(startsAt) && … && now >= startsAt && now < expiresAt`, where `none` is NaN.
abbrev pub is_current : ℕ → Option ℕ → Option ℕ → Bool
is_current now none expires_at = false
is_current now (some starts_at) none = false
is_current now (some starts_at) (some expires_at) = leb starts_at now && ltb now expires_at

abbrev pub described : TemporaryOverride → Option GrantAction → Option GrantKind → Option Grant
described override none kind = none
described override (some action) none = none
described override (some action) (some kind) = some (record {
  action = action;
  minutes = override.daily_minutes;
  rule_id = override.rule_id;
  target_kind = kind;
  target_ref = override.target_ref;
})

-- A LIMIT on the device that says how many minutes.
abbrev pub limit_minutes : GrantKind → GrantAction → Option ℕ → Option ℕ
limit_minutes device limit minutes = minutes
limit_minutes _ _ minutes = none

abbrev pub device_minutes : Grant → Option ℕ
device_minutes grant = limit_minutes grant.target_kind grant.action grant.minutes

-- `deviceLimit`; `undefined` and `null` are left out.
unfoldable pub device_limit : BasePolicy → List Grant → Option ℕ
device_limit base grants =
    greatest (defined (base.daily_device_budget_minutes ∷ map device_minutes grants))

-- `UsageSummary`
pub record Usage : Type 0 where
  pub by_target : Text → Option ℕ
  pub total_seconds : ℕ

abbrev pub device_used : Option Usage → ℕ
device_used none = 0
device_used (some usage) = usage.by_target (text "DEVICE") or_default usage.total_seconds

-- `appBudgets`
abbrev pub with_minutes : AppRule → Option (Text × ℕ)
with_minutes rule = elim rule.daily_minutes [
  | none ↦ none
  | some minutes ↦ some (rule.app_ref, minutes)
]

unfoldable pub app_budgets : List AppRule → List (Text × ℕ)
app_budgets [] = []
app_budgets (rule ∷ rules) = add_some (with_minutes rule) (app_budgets rules)

pub data Label : Type 0 where
  unlimited no_time under_minute : Label
  minutes_left : ℕ → Label

abbrev pub label_text : Label → Text
label_text unlimited = text "Unlimited time today."
label_text no_time = text "No time left today."
label_text under_minute = text "Less than 1 minute remaining."
label_text (minutes_left n) = decimal n ++ text " minutes remaining."

-- `remainingLabel`, of seconds that are not negative.
unfoldable pub remaining_label : ℕ → Label
remaining_label seconds =
    if seconds == 0
    then no_time
    else if ltb seconds 60
    then under_minute
    else minutes_left (seconds / 60)

abbrev pub is_app : GrantKind → Bool
is_app app = true
is_app _ = false

abbrev pub app_grant : List Grant → Text → Option Grant
app_grant grants app_ref =
    find (λ grant. is_app grant.target_kind && text_eq grant.target_ref app_ref) grants

-- `Math.max(0, Math.min(left, deviceRemainingSeconds))`, where no limit is infinity; the subtraction
-- of natural numbers stops at 0 as well.
abbrev pub least : ℕ → Option ℕ → ℕ → ℕ
least left none used = left
least left (some minutes) used = min left (minutes * 60 - used)

-- The label of an application with a daily budget, for the grant in force on it, if any.
unfoldable pub budget_label :
    Option Grant → (minutes used : ℕ) (device_limit : Option ℕ) (device_used : ℕ) → Label
unfolding remaining_label
budget_label none minutes used device_limit device_used =
    remaining_label (least (minutes * 60 - used) device_limit device_used)
budget_label (some grant) minutes used device_limit device_used = elim grant.action [
  | allow ↦ unlimited
  | limit ↦ remaining_label ((grant.minutes or_default minutes) * 60 - used)
]

-- `parse_date` is `Date.parse`.
module _ (parse_date : Text → Option ℕ) where
  abbrev pub is_current_override : ℕ → TemporaryOverride → Bool
  is_current_override now override =
      is_current now (parse_date override.starts_at) (parse_date override.expires_at)

  unfoldable pub grant_of : ℕ → TemporaryOverride → Option Grant
  grant_of now override =
      if is_current_override now override
      then described override (grant_action override.action) (grant_kind override.target_kind)
      else none

  -- `activeGrantDescriptors`
  unfoldable pub active_grants : ℕ → List TemporaryOverride → List Grant
  active_grants now [] = []
  active_grants now (override ∷ overrides) =
      add_some (grant_of now override) (active_grants now overrides)

  -- What the screen shows of the applications that have a budget.
  unfoldable pub shown_labels : ℕ → SignedPolicyBundle → Usage → List (Text × Label)
  shown_labels now bundle usage =
      let grants = active_grants now bundle.temporary_overrides in
      map
        (λ (app_ref, minutes). (
          app_ref,
          budget_label (app_grant grants app_ref) minutes
              (usage.by_target (text "APP:" ++ app_ref) or_default 0)
              (device_limit bundle.base_policy grants) (device_used (some usage)),
        ))
        (app_budgets bundle.app_rules)
