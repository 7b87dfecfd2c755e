-- ===== src/Mobile/Requests.antt =====
-- `ChildRequestsRoute` of apps/mobile/src/app/child/requests.tsx: how a child asks for time or access,
-- on the outbox of apps/mobile/src/state/request-outbox.ts over a storage that may fail. Flushes that
-- overlap are in Outbox/Schedule.
pub mod Honest
mod Tests
use you_tube_gradian_devin.Common.{
  Text, text, truthy, Option, none, some, List, [], ◌∷◌, ◌++◌, Bool, true, false, any,
  if◌then◌else◌, ◌or_default◌,
}
use you_tube_gradian_devin.Common.Programs.{Program, return, ◌>>=◌, ◌>>◌, on_error}
use you_tube_gradian_devin.Common.Programs.Screens.{lift, update, when}
use you_tube_gradian_devin.Mobile.Session.{Failure}
use you_tube_gradian_devin.Mobile.Outbox.{
  RequestType, QueueState, queued, device_revoked, failed, QueuedAccessRequest, Queue, Raw, array,
  read_request_outbox, enqueue_request, Delivery, delivered, thrown, after_delivery,
}

-- The body of a request.
pub record RequestInput : Type 0 where
  pub request_type : RequestType
  pub subject : Option Text
  pub reason : Option Text

-- The outbox's item in the storage, `api.createRequest`, and the clock with the random part of a key.
pub record RequestCalls (S : Type 0) : Type 0 where
  pub get_item : Program S Failure (Option Raw)
  pub set_item : Option Raw → Program S Failure Unit
  pub create_request : RequestInput → (idempotency_key : Text) → Program S Failure Unit
  pub new_key : Program S Failure Text

pub data Message : Type 0 where
  revoked still_queued all_delivered queued_locally sending not_saved : Message

abbrev pub message_text : Message → Text
message_text revoked = text "This device was revoked before the request could be delivered."
message_text still_queued = text "The request is still queued and will retry when online."
message_text all_delivered = text "Request delivered. A parent can review it."
message_text queued_locally =
    text "Queued locally. This cannot unlock anything until approval reaches this device."
message_text sending = text "Sending request…"
message_text not_saved = text "The request could not be saved on this device. Try again."

-- The state of the component.
pub record View : Type 0 where
  pub is_offline : Bool
  pub subject : Text
  pub reason : Text
  pub message : Option Message
  pub outbox : Queue

abbrev pub was_revoked : QueueState → Bool
was_revoked device_revoked = true
was_revoked queued = false
was_revoked failed = false

abbrev pub has_failed : QueueState → Bool
has_failed failed = true
has_failed queued = false
has_failed device_revoked = false

abbrev pub is_empty : Queue → Bool
is_empty [] = true
is_empty (request ∷ requests) = false

-- What the screen says of the requests that remain, or said before.
unfoldable pub message_for : Queue → Option Message → Option Message
message_for remaining message =
    if any (λ request. was_revoked request.state) remaining
    then some revoked
    else if any (λ request. has_failed request.state) remaining
    then some still_queued
    else if is_empty remaining
    then some all_delivered
    else message

-- `subject || null`
abbrev pub or_null : Text → Option Text
or_null t = if truthy t then some t else none

-- The label of a request that waits.
unfoldable pub state_text : QueueState → Text
state_text queued = text "Queued · waiting for connectivity"
state_text device_revoked = text "Not delivered · this device was revoked"
state_text failed = text "Delivery failed · will retry when online"

module _ {S : Type 0} (calls : RequestCalls S) where
  abbrev pub Screen : Type 0
  Screen = S × View

  unfoldable pub read : Program S Failure Queue
  read = do stored ← calls.get_item; return (read_request_outbox stored)

  unfoldable pub send : QueuedAccessRequest → Program S Failure Unit
  send request =
      calls.create_request
        (record {
          request_type = request.request_type;
          subject = request.subject;
          reason = request.reason;
        })
        (request.idempotency_key or_default request.id)

  unfoldable pub deliver : QueuedAccessRequest → Program S Failure Delivery
  deliver request =
      on_error (do send request; return delivered)
        (λ error. return (thrown error.status (some error.message)))

  unfoldable pub deliver_each : Queue → Queue → Program S Failure Queue
  deliver_each remaining [] = return remaining
  deliver_each remaining (request ∷ requests) = do
    end ← deliver request
    deliver_each (after_delivery remaining request end) requests

  -- `flushRequestOutboxOnce`
  unfoldable pub flush : Program S Failure Queue
  flush = do
    requests ← read
    remaining ← deliver_each [] requests
    calls.set_item (some (array remaining))
    return remaining

  unfoldable pub enqueue : QueuedAccessRequest → Program S Failure Unit
  enqueue request = do stored ← calls.get_item; calls.set_item (enqueue_request request stored)

  unfoldable pub sync : Program Screen Failure Unit
  sync =
      on_error
        (do
          remaining ← lift flush
          update (λ view. record view {
            outbox = remaining;
            message = message_for remaining view.message;
          }))
        (λ error. do
          requests ← lift (on_error read (λ e. return []))
          update (λ view. record view { outbox = requests; message = some still_queued }))

  -- What follows once a new request is made.
  unfoldable pub submit : QueuedAccessRequest → Program Screen Failure Unit
  submit request screen =
      on_error
        (do
          lift (enqueue request)
          update (λ view. record view {
            outbox = view.outbox ++ request ∷ [];
            message = some (if screen.1.is_offline then queued_locally else sending);
          })
          if screen.1.is_offline then return tt else sync)
        (λ error. update (λ view. record view { message = some not_saved })) screen

  new_request : RequestType → View → (id key : Text) → QueuedAccessRequest
  new_request request_type view id key = record {
    id = id;
    idempotency_key = some (text "child-request-" ++ key);
    request_type = request_type;
    subject = or_null view.subject;
    reason = or_null view.reason;
    state = QueueState.queued;
    error = none;
  }

  unfoldable pub create : RequestType → Program Screen Failure Unit
  unfolding new_request
  create request_type screen =
      (do
        id ← lift calls.new_key
        key ← lift calls.new_key
        submit (new_request request_type (screen.1) id key))
        screen

  -- The effect that reads the outbox when the screen is mounted.
  unfoldable pub mount : Program Screen Failure Unit
  mount = do
    requests ← lift (on_error read (λ e. return []))
    update (λ view. record view { outbox = requests })

  -- The effect that runs where the network comes or goes.
  unfoldable pub on_network : Program Screen Failure Unit
  on_network screen = (if screen.1.is_offline then return tt else sync) screen
