-- ===== src/Mobile/Endpoints.antt =====
-- The operations of `GuardianApiClient` of apps/mobile/src/api/client.ts: the path, the method, the
-- headers and the body that each hands to `request`.
pub mod Authenticated
use you_tube_gradian_devin.Common.{
  ℕ, Text, text, truthy, starts_with, decimal, Option, none, some, List, [], ◌∷◌, ◌++◌, Bool, true,
  false, ◌&&◌, ◌||◌, not, if◌then◌else◌, ◌or_default◌, Result, ok, err, ◌==◌,
}
use you_tube_gradian_devin.Policy.Canonical.Values.{
  Value, integer, string, array, object, Items, Fields, end, field,
}
use you_tube_gradian_devin.Mobile.Session.Network.{RequestInit}

-- `encodeURIComponent`, `URLSearchParams`, `JSON.stringify`, `Date.now()` and the random part of a
-- key.
pub record Encoding : Type 0 where
  pub encode : Text → Text
  pub search : List (Text × Text) → Text
  pub stringify : Value → Text
  pub now : Text
  pub random : Text

pub data Decision : Type 0 where
  approve deny : Decision

abbrev pub decision_text : Decision → Text
decision_text approve = text "approve"
decision_text deny = text "deny"

pub record ReportInput : Type 0 where
  pub child_id : Option Text
  pub start : Text
  pub end_at : Text
  pub timezone : Text
  pub granularity : Option Text

-- The operations, with what they are given; an object that is only turned into JSON is its value.
pub data Endpoint : Type 0 where
  signup login : (email password : Text) → Endpoint
  me delete_account : Endpoint
  create_family : (name : Text) → Endpoint
  families : Endpoint
  family guardians : (family_id : Text) → Endpoint
  create_child : (family_id : Text) (input : Value) → Endpoint
  children : (family_id : Text) → Endpoint
  child : (family_id child_id : Text) → Endpoint
  health activity activity_usage : (family_id : Text) (child_id : Option Text) → Endpoint
  usage_report : (family_id : Text) (input : ReportInput) → Endpoint
  child_inventory : (family_id child_id : Text) → Endpoint
  review_child_app : (family_id child_id platform_app_id : Text) → Endpoint
  create_pairing : (family_id child_id : Text) → Endpoint
  redeem_pairing : (input : Value) → Endpoint
  policy : Endpoint
  acknowledge_policy : (policy_version : ℕ) → Endpoint
  reputation : (version : ℕ) → Endpoint
  classify_domain : (identifier : Text) → Endpoint
  reputation_status : (family_id child_id : Text) → Endpoint
  heartbeat : (body : Value) → Endpoint
  ingest_events : (events : Value) (correlation_id idempotency_key : Option Text) → Endpoint
  ingest_inventory : (apps : Value) → Endpoint
  mutate_policy : (family_id child_id operation target : Text) (input : Value) → Endpoint
  create_request : (input : Value) (idempotency_key : Option Text) → Endpoint
  requests : (family_id : Text) (child_id : Option Text) → Endpoint
  content_approvals : Endpoint
  decide_request : (family_id request_id : Text) (decision : Decision) (reason : Text) → Endpoint
  push_action : (path : Text) (reason : Option Text) → Endpoint

abbrev pub fetched : RequestInit
fetched = record { method = none; body = none; headers = [] }

abbrev pub posted : Option Text → List (Text × Text) → RequestInit
posted body headers = record { method = some (text "POST"); body = body; headers = headers }

abbrev pub one_field : Text → Value → Value
one_field key value = object (field key value end)

-- `childId ? … : …`, also with another text that may be missing or empty.
abbrev pub if_given : {A : Type 0} → Option Text → (Text → A) → A → A
if_given none f other = other
if_given (some t) f other = if truthy t then f t else other

abbrev pub report_params : ReportInput → List (Text × Text)
report_params input =
    (text "start", input.start)
    ∷ (text "end", input.end_at)
    ∷ (text "timezone", input.timezone)
    ∷ (if_given input.granularity (λ granularity. (text "granularity", granularity) ∷ []) []
        ++ if_given input.child_id (λ child_id. (text "child_id", child_id) ∷ []) [])

abbrev pub family_path : Text → Text
family_path family_id = text "/v1/families/" ++ family_id

abbrev pub child_path : Text → Text → Text
child_path family_id child_id =
    text "/v1/families/" ++ (family_id ++ (text "/children/" ++ child_id))

module _ (encoding : Encoding) where
  -- `childId ? "?child_id=…" : ""`
  abbrev pub child_query : Option Text → Text
  child_query child_id = if_given child_id (λ id. text "?child_id=" ++ encoding.encode id) (text "")

  unfoldable pub path_of : Endpoint → Text
  path_of (signup email password) = text "/v1/auth/signup"
  path_of (login email password) = text "/v1/auth/login"
  path_of me = text "/v1/auth/me"
  path_of delete_account = text "/v1/auth/account"
  path_of (create_family name) = text "/v1/families"
  path_of families = text "/v1/families"
  path_of (family family_id) = family_path family_id
  path_of (guardians family_id) = text "/v1/families/" ++ (family_id ++ text "/guardians")
  path_of (create_child family_id input) = text "/v1/families/" ++ (family_id ++ text "/children")
  path_of (children family_id) = text "/v1/families/" ++ (family_id ++ text "/children")
  path_of (child family_id child_id) = child_path family_id child_id
  path_of (health family_id child_id) =
      text "/v1/families/" ++ (family_id ++ (text "/health" ++ child_query child_id))
  path_of (activity family_id child_id) =
      text "/v1/families/" ++ (family_id ++ (text "/activity" ++ child_query child_id))
  path_of (activity_usage family_id child_id) =
      text "/v1/families/" ++ (family_id ++ (text "/activity/usage" ++ child_query child_id))
  path_of (usage_report family_id input) =
      text "/v1/families/"
      ++ (family_id ++ (text "/usage/reports?" ++ encoding.search (report_params input)))
  path_of (child_inventory family_id child_id) =
      text "/v1/families/" ++ (family_id ++ (text "/children/" ++ (child_id ++ text "/inventory")))
  path_of (review_child_app family_id child_id platform_app_id) =
      text "/v1/families/"
      ++ (family_id
          ++ (text "/children/"
              ++ (child_id
                  ++ (text "/inventory/" ++ (encoding.encode platform_app_id ++ text "/review")))))
  path_of (create_pairing family_id child_id) =
      text "/v1/families/" ++ (family_id ++ (text "/children/" ++ (child_id ++ text "/pairing")))
  path_of (redeem_pairing input) = text "/v1/devices/pair"
  path_of policy = text "/v1/devices/me/policy"
  path_of (acknowledge_policy policy_version) = text "/v1/devices/me/policy/ack"
  path_of (reputation version) = text "/v1/devices/me/reputation?version=" ++ decimal version
  path_of (classify_domain identifier) = text "/v1/devices/me/reputation/classify"
  path_of (reputation_status family_id child_id) =
      text "/v1/families/" ++ (family_id ++ (text "/children/" ++ (child_id ++ text "/reputation")))
  path_of (heartbeat body) = text "/v1/devices/me/heartbeat"
  path_of (ingest_events events correlation_id idempotency_key) = text "/v1/devices/me/events"
  path_of (ingest_inventory apps) = text "/v1/devices/me/inventory"
  path_of (mutate_policy family_id child_id operation target input) =
      text "/v1/families/"
      ++ (family_id ++ (text "/children/" ++ (child_id ++ text "/policy/mutations")))
  path_of (create_request input idempotency_key) = text "/v1/devices/me/requests"
  path_of (requests family_id child_id) =
      text "/v1/families/" ++ (family_id ++ (text "/requests" ++ child_query child_id))
  path_of content_approvals = text "/v1/devices/me/content-approvals"
  path_of (decide_request family_id request_id decision reason) =
      text "/v1/families/"
      ++ (family_id ++ (text "/requests/" ++ (request_id ++ (text "/" ++ decision_text decision))))
  path_of (push_action path reason) = path

  abbrev pub json : Value → Option Text
  json value = some (encoding.stringify value)

  abbrev pub credentials_json : Text → Text → Option Text
  credentials_json email password =
      json (
        object
          (field (text "email") (string email) (field (text "password") (string password) end)))

  unfoldable pub init_of : Endpoint → RequestInit
  init_of (signup email password) = posted (credentials_json email password) []
  init_of (login email password) = posted (credentials_json email password) []
  init_of delete_account = record { method = some (text "DELETE"); body = none; headers = [] }
  init_of (create_family name) = posted (json (one_field (text "name") (string name))) []
  init_of (create_child family_id input) = posted (json input) []
  init_of (review_child_app family_id child_id platform_app_id) = posted none []
  init_of (create_pairing family_id child_id) = posted none []
  init_of (redeem_pairing input) = posted (json input) []
  init_of (acknowledge_policy policy_version) =
      posted (json (one_field (text "policy_version") (integer false policy_version))) []
  init_of (classify_domain identifier) =
      posted (json (one_field (text "identifier") (string identifier))) []
  init_of (heartbeat body) = posted (json body) []
  init_of (ingest_events events correlation_id idempotency_key) =
      posted (json (one_field (text "events") events)) (
        (
          text "Idempotency-Key",
          idempotency_key
              or_default (text "event-batch:" ++ (encoding.now ++ (text ":" ++ encoding.random))),
        )
        ∷ if_given correlation_id (λ id. (text "X-Request-ID", id) ∷ []) [])
  init_of (ingest_inventory apps) = posted (json (one_field (text "apps") apps)) []
  init_of (mutate_policy family_id child_id operation target input) = posted (json input) (
      (text "Idempotency-Key", operation ++ (text ":" ++ (target ++ (text ":" ++ encoding.now))))
      ∷ [])
  init_of (create_request input idempotency_key) =
      posted (json input) (if_given idempotency_key (λ key. (text "Idempotency-Key", key) ∷ []) [])
  init_of (decide_request family_id request_id decision reason) =
      posted (json (one_field (text "reason") (string reason))) (
        (
          text "Idempotency-Key",
          text "request-decision:" ++ (request_id ++ (text ":" ++ decision_text decision)),
        )
        ∷ [])
  init_of (push_action path reason) =
      posted (json (if_given reason (λ r. one_field (text "reason") (string r)) (object end))) []
  init_of _ = fetched
