-- ===== src/Mobile/Session/Bounds.antt =====
-- What a request and a logout of apps/mobile/src/api/client.ts can change, and how often they fetch.
use you_tube_gradian_devin.Common.{
  ℕ, ◌+◌, ◌≤◌, Text, Option, none, some, Bool, true, false, if◌then◌else◌, arith,
}
use you_tube_gradian_devin.Common.Programs.{
  Program, Goes, IsGraded, Goes-return, Goes-throw, Goes-weaken, Goes-bind, Goes-on_error,
}
use you_tube_gradian_devin.Mobile.Session.{
  Key, access_token, refresh_token, device_token, device_private_key, Failure, SecureStore,
  clear_parent_session, set_tokens,
}
use you_tube_gradian_devin.Mobile.Session.Network.{
  RequestInit, Request, Network, json_value, generated_request,
}
use you_tube_gradian_devin.Mobile.Session.Client.{
  Prepared, refresh_with, refresh_parent_session, proof_with, prove_device, keep_tokens, prepare,
  renew, expire, refused, request_with, request, logout,
}

-- What the single calls do, where a fetch counts as one.
pub record Costs {S V : Type 0} (Rel : ℕ → S → S → Type 0) (store : SecureStore S)
    (network : Network S V) : Type 0 where
  pub gets : (k : Key) → Goes Rel 0 (store.get_item k)
  pub sets_access : (v : Text) → Goes Rel 0 (store.set_item access_token v)
  pub sets_refresh : (v : Text) → Goes Rel 0 (store.set_item refresh_token v)
  pub deletes_access : Goes Rel 0 (store.delete_item access_token)
  pub deletes_refresh : Goes Rel 0 (store.delete_item refresh_token)
  pub fetches : (r : Request) → Goes Rel 1 (network.fetch r)
  pub proves : (key method : Text) (r : Request) → Goes Rel 0 (network.prove key method r)
  pub expires : Goes Rel 0 network.session_expired

-- A counter grows by at most the number of effects.
abbrev pub Within : {S : Type 0} → (S → ℕ) → ℕ → S → S → Type 0
Within count n s t = count t ≤ count s + n

pub Within-IsGraded : {S : Type 0} (count : S → ℕ) → IsGraded (Within count)
Within-IsGraded count = record {
  nothing = λ s. omega arith;
  and_then = λ a b s t u p q. omega arith;
  at_least = λ a b s t h p. omega arith;
}

pub Goes-if :
    {S E A : Type 0} {Rel : ℕ → S → S → Type 0} {n : ℕ} (b : Bool) {m k : Program S E A}
    → Goes Rel n m
    → Goes Rel n k
    → Goes Rel n (if b then m else k)
Goes-if true h k = h
Goes-if false h k = k

module _ {S V : Type 0} {Rel : ℕ → S → S → Type 0} (G : IsGraded Rel) (store : SecureStore S)
    (network : Network S V) (C : Costs Rel store network) where
  none_yet : {A : Type 0} (n : ℕ) {m : Program S Failure A} → Goes Rel 0 m → Goes Rel n m
  none_yet n h = Goes-weaken G (omega arith) h

  clear_parent_session-Goes : Goes Rel 0 (clear_parent_session store)
  unfolding clear_parent_session
  clear_parent_session-Goes = Goes-bind G C.deletes_access (λ _. C.deletes_refresh)

  json_value-Goes : (v : Option V) → Goes Rel 0 (json_value {S = S} v)
  json_value-Goes none = Goes-throw G _
  json_value-Goes (some value) = Goes-return G _

  generated_request-Goes : (r : Request) → Goes Rel 1 (generated_request network r)
  unfolding generated_request
  generated_request-Goes r = Goes-bind G (C.fetches r) (λ response.
      Goes-if _ (Goes-throw G _) (Goes-if _ (Goes-return G _) (json_value-Goes response.value)))

  expire-Goes : Goes Rel 0 (expire store network)
  unfolding expire
  expire-Goes =
      Goes-bind G clear_parent_session-Goes (λ _. Goes-bind G C.expires (λ _. Goes-throw G _))

  pub logout-Goes : Goes Rel 1 (logout store network)
  unfolding logout
  logout-Goes = Goes-bind G (C.gets refresh_token) (λ token.
      Goes-bind G
        (Goes-on_error G
          (Goes-if _ (Goes-bind G (C.fetches _) (λ _. Goes-return G tt))
            (none_yet 1 (Goes-return G tt)))
          (λ _. Goes-return G tt))
        (λ _. clear_parent_session-Goes))

  keep_tokens-Goes : (v : Option V) → Goes Rel 0 (keep_tokens store network v)
  unfolding keep_tokens set_tokens
  keep_tokens-Goes none = Goes-throw G _
  keep_tokens-Goes (some value) =
      Goes-bind G (Goes-bind G (C.sets_access _) (λ _. C.sets_refresh _)) (λ _. Goes-return G _)

  refresh_with-Goes : (token : Option Text) → Goes Rel 1 (refresh_with store network token)
  unfolding refresh_with
  refresh_with-Goes none = none_yet 1 (Goes-throw G _)
  refresh_with-Goes (some token) =
      Goes-if _
        (Goes-bind G (C.fetches _)
          (λ response. Goes-if _ (Goes-throw G _) (keep_tokens-Goes response.value)))
        (none_yet 1 (Goes-throw G _))

  refresh_parent_session-Goes : Goes Rel 1 (refresh_parent_session store network)
  unfolding refresh_parent_session
  refresh_parent_session-Goes = Goes-bind G (C.gets refresh_token) refresh_with-Goes

  proof_with-Goes : (key : Option Text) (r : Request) → Goes Rel 0 (proof_with store network key r)
  unfolding proof_with
  proof_with-Goes none r = Goes-throw G _
  proof_with-Goes (some key) r =
      Goes-if _ (Goes-bind G (C.proves key _ r) (λ _. Goes-return G _)) (Goes-throw G _)

  prove_device-Goes : (b : Bool) (r : Request) → Goes Rel 0 (prove_device store network b r)
  unfolding prove_device
  prove_device-Goes false r = Goes-return G none
  prove_device-Goes true r = Goes-bind G (C.gets device_private_key) (λ key. proof_with-Goes key r)

  prepare-Goes : (path : Text) (init : RequestInit) → Goes Rel 0 (prepare store network path init)
  unfolding prepare
  prepare-Goes path init = Goes-bind G (C.gets access_token) (λ access.
      Goes-bind G (C.gets device_token)
        (λ device. Goes-bind G (prove_device-Goes _ _) (λ proof. Goes-return G _)))

  renew-Goes :
      (prepared : Prepared) (again : Program S Failure (Option V))
      → Goes Rel 1 again
      → Goes Rel 2 (renew store network prepared again)
  unfolding renew
  renew-Goes prepared again h = Goes-bind G (C.gets access_token) (λ current.
      Goes-if _ (Goes-weaken G (omega arith) h) (Goes-bind G refresh_parent_session-Goes (λ _. h)))

  once-Goes :
      (path : Text) (init : RequestInit) → Goes Rel 1 (request_with store network none path init)
  unfolding request_with refused
  once-Goes path init =
      Goes-bind G (prepare-Goes path init)
        (λ prepared. Goes-on_error G (generated_request-Goes _) (λ error. Goes-throw G _))

  pub request-Goes :
      (path : Text) (init : RequestInit) (retry : Bool)
      → Goes Rel 3 (request store network path init retry)
  unfolding request request_with refused
  request-Goes path init false = Goes-weaken G (omega arith) (once-Goes path init)
  request-Goes path init true = Goes-bind G (prepare-Goes path init) (λ prepared.
      Goes-on_error G (generated_request-Goes _) (λ error.
        Goes-if _ (Goes-on_error G (renew-Goes prepared _ (once-Goes path init)) (λ _. expire-Goes))
          (none_yet 2 (Goes-throw G _))))
