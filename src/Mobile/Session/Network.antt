-- ===== src/Mobile/Session/Network.antt =====
-- `GeneratedGuardianClient.request` of packages/api-client/src/generated.ts, and what the client of
-- apps/mobile/src/api/client.ts hands to it.
use you_tube_gradian_devin.Common.{
  ℕ, Text, text, text_eq, truthy, Option, none, some, List, Bool, true, false, ◌&&◌, not, leb, ltb,
  ◌==◌, ◌++◌, decimal, if◌then◌else◌, ◌or_default◌,
}
use you_tube_gradian_devin.Common.Programs.{Program, return, throw, ◌>>=◌}
use you_tube_gradian_devin.Mobile.Session.{Failure, Tokens}

-- The fields of `RequestInit` that the client reads, and the other headers.
pub record RequestInit : Type 0 where
  pub method : Option Text
  pub body : Option Text
  pub headers : List (Text × Text)

-- What proves that a request comes from the device.
pub record Proof : Type 0 where
  pub timestamp : Text
  pub nonce : Text
  pub signature : Text

pub record Request : Type 0 where
  pub path : Text
  pub init : RequestInit
  pub bearer : Option Text
  pub proof : Option Proof

-- `message` is that of the error in a JSON body, and `value` what `json()` returns.
pub record Response (V : Type 0) : Type 0 where
  pub status : ℕ
  pub message : Option Text
  pub value : Option V

-- `fetch`, the clock, the signature of a request by the device's key, the shape of a reply with
-- tokens, the JSON of a body with a refresh token, and the listener for the end of the session.
pub record Network (S V : Type 0) : Type 0 where
  pub fetch : Request → Program S Failure (Response V)
  pub prove : Text → Text → Request → Program S Failure Proof
  pub to_tokens : V → Tokens
  pub refresh_body : Text → Text
  pub session_expired : Program S Failure Unit

abbrev pub is_ok : ℕ → Bool
is_ok status = leb 200 status && ltb status 300

abbrev pub api_error : Text → ℕ → Option Text → Failure
api_error message status code = record { message = message; status = some status; code = code }

abbrev pub plain_error : Text → Failure
plain_error message = record { message = message; status = none; code = none }

abbrev pub expired_error : Failure
expired_error =
    api_error (text "Your parent session has expired. Sign in again.") 401
      (some (text "SESSION_EXPIRED"))

abbrev pub is_present : Option Text → Bool
is_present none = false
is_present (some value) = truthy value

abbrev pub is_status : ℕ → Option ℕ → Bool
is_status wanted none = false
is_status wanted (some status) = status == wanted

abbrev pub is_other : Option Text → Option Text → Bool
is_other none b = false
is_other (some a) none = true
is_other (some a) (some b) = not (text_eq a b)

-- `init.method && init.method !== "GET"`
abbrev pub changes : Option Text → Bool
changes none = false
changes (some method) = truthy method && not (text_eq method (text "GET"))

-- `await response.json()`, which throws where the body is no JSON.
abbrev pub json_value : {S V : Type 0} → Option V → Program S Failure (Option V)
json_value none = throw (plain_error (text "JSON Parse error"))
json_value (some value) = return (some value)

module _ {S V : Type 0} (network : Network S V) where
  -- `GeneratedGuardianClient.request`; `none` is `undefined`, for a reply without a body.
  unfoldable pub generated_request : Request → Program S Failure (Option V)
  generated_request request = do
    response ← network.fetch request
    if not (is_ok response.status)
        then throw (
            api_error
              (response.message
                or_default text "Guardian API request failed: " ++ decimal response.status)
              response.status none)
        else if response.status == 204
        then return none
        else json_value response.value
