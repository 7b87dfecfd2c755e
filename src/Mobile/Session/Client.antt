-- ===== src/Mobile/Session/Client.antt =====
-- `GuardianApiClient` of apps/mobile/src/api/client.ts: a request, its one retry after a refresh of
-- the parent's session, the logout and the token of the realtime transport. The calls are those of
-- one caller: two that share one refresh in flight are not modelled. The request id, which only
-- labels errors, is left out.
use you_tube_gradian_devin.Common.{
  text, text_eq, truthy, starts_with, Text, Option, none, some, [], Bool, true, false, ◌&&◌, not,
  if◌then◌else◌, ◌or_default◌,
}
use you_tube_gradian_devin.Common.Programs.{Program, return, throw, ◌>>=◌, ◌>>◌, on_error}
use you_tube_gradian_devin.Mobile.Session.{
  access_token, refresh_token, device_token, device_private_key, Failure, Tokens, SecureStore,
  clear_parent_session, set_tokens,
}
use you_tube_gradian_devin.Mobile.Session.Network.{
  RequestInit, Proof, Request, Network, is_ok, api_error, plain_error, expired_error, is_present,
  is_status, is_other, changes, generated_request,
}

-- `deviceAuthenticated`
abbrev pub by_device : Option Text → Text → Bool
by_device token path = is_present token && starts_with (text "/v1/devices") path

-- The token that the `Authorization` header carries.
abbrev pub bearer_of : Bool → Option Text → Option Text → Option Text
bearer_of true access device = device
bearer_of false access device = if is_present access then access else none

-- A request as it is sent, with the access token that was read for it.
pub record Prepared : Type 0 where
  pub access : Option Text
  pub device_authenticated : Bool
  pub request : Request

module _ {S V : Type 0} (store : SecureStore S) (network : Network S V) where
  unfoldable pub keep_tokens : Option V → Program S Failure Tokens
  keep_tokens none = throw (plain_error (text "JSON Parse error"))
  keep_tokens (some value) = do
    set_tokens store (network.to_tokens value)
    return (network.to_tokens value)

  unfoldable pub refresh_with : Option Text → Program S Failure Tokens
  refresh_with none = throw (plain_error (text "No refresh token is available."))
  refresh_with (some token) =
      if truthy token
      then (do
        response ← network.fetch (record {
          path = text "/v1/auth/refresh";
          init = record {
            method = some (text "POST");
            body = some (network.refresh_body token);
            headers = [];
          };
          bearer = none;
          proof = none;
        })
        if not (is_ok response.status)
            then throw (plain_error (text "Refresh token is invalid."))
            else keep_tokens response.value)
      else throw (plain_error (text "No refresh token is available."))

  unfoldable pub refresh_parent_session : Program S Failure Tokens
  refresh_parent_session = do token ← store.get_item refresh_token; refresh_with token

  unfoldable pub proof_with : Option Text → Request → Program S Failure (Option Proof)
  proof_with none request =
      throw
        (api_error (text "Device proof is unavailable.") 401 (some (text "DEVICE_PROOF_MISSING")))
  proof_with (some key) request =
      if truthy key
      then (do
        proof ← network.prove key (request.init.method or_default []) request
        return (some proof))
      else throw
          (api_error (text "Device proof is unavailable.") 401 (some (text "DEVICE_PROOF_MISSING")))

  unfoldable pub prove_device : Bool → Request → Program S Failure (Option Proof)
  prove_device false request = return none
  prove_device true request = do key ← store.get_item device_private_key; proof_with key request

  -- `request` up to its `try`.
  unfoldable pub prepare : Text → RequestInit → Program S Failure Prepared
  prepare path init = do
    access ← store.get_item access_token
    device ← store.get_item device_token
    let authenticated = by_device device path
    let request : Request = record {
      path = path;
      init = init;
      bearer = bearer_of authenticated access device;
      proof = none;
    }
    proof ← prove_device (authenticated && changes init.method) request
    return (record {
      access = access;
      device_authenticated = authenticated;
      request = record request { proof = proof };
    })

  -- The request once more, after a refresh unless another request has refreshed the session.
  unfoldable pub renew : Prepared → Program S Failure (Option V) → Program S Failure (Option V)
  renew prepared again = do
    current ← store.get_item access_token
    if is_present current && is_other current prepared.access
        then again
        else (do refresh_parent_session; again)

  unfoldable pub expire : Program S Failure (Option V)
  expire = do clear_parent_session store; network.session_expired; throw expired_error

  -- The `catch` of a request; `again` is the retry, if there is one left.
  unfoldable pub refused :
      Option (Program S Failure (Option V)) → Prepared → Failure → Program S Failure (Option V)
  refused none prepared error =
      throw (api_error error.message (error.status or_default 0) error.code)
  refused (some again) prepared error =
      if is_status 401 error.status
        && (is_present prepared.access && not prepared.device_authenticated)
      then on_error (renew prepared again) (λ _. expire)
      else throw (api_error error.message (error.status or_default 0) error.code)

  unfoldable pub request_with :
      Option (Program S Failure (Option V)) → Text → RequestInit → Program S Failure (Option V)
  request_with again path init = do
    prepared ← prepare path init
    on_error (generated_request network prepared.request) (refused again prepared)

  -- `request(path, init, retry)`
  unfoldable pub request : Text → RequestInit → Bool → Program S Failure (Option V)
  request path init false = request_with none path init
  request path init true = request_with (some (request_with none path init)) path init

  unfoldable pub logout : Program S Failure Unit
  logout = do
    token ← store.get_item refresh_token
    on_error
        (if is_present token
          then (do
            network.fetch (record {
              path = text "/v1/auth/logout";
              init = record {
                method = some (text "POST");
                body = some (network.refresh_body (token or_default []));
                headers = [];
              };
              bearer = none;
              proof = none;
            })
            return tt)
          else return tt)
        (λ _. return tt)
    clear_parent_session store

  -- Whether `error.code === "SESSION_EXPIRED"`; only an `ApiError` has that code.
  abbrev has_expired : Failure → Bool
  has_expired error = text_eq (error.code or_default []) (text "SESSION_EXPIRED")

  unfoldable pub realtime_token : Program S Failure (Option Text)
  realtime_token = do
    access ← store.get_item access_token
    if not (is_present access) then store.get_item device_token else (do
      expired ←
          on_error
            (do
              request (text "/v1/auth/me") (record { method = none; body = none; headers = [] })
                  true
              return false)
            (λ error. return (has_expired error))
      if expired then return none else store.get_item access_token)
