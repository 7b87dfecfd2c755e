-- ===== src/Mobile/Outbox.antt =====
-- apps/mobile/src/state/request-outbox.ts: access requests that wait for delivery.
pub mod Failures
pub mod Schedule
mod Tests
use you_tube_gradian_devin.Common.{
  ℕ, Text, text, Option, none, some, List, [], ◌∷◌, ◌++◌, Bool, true, false, ◌==◌, if◌then◌else◌,
  ◌&&◌,
}

pub data RequestType : Type 0 where
  more_time unblock_app unblock_site : RequestType

pub data QueueState : Type 0 where
  queued device_revoked failed : QueueState

pub record QueuedAccessRequest : Type 0 where
  pub id : Text
  pub idempotency_key : Option Text
  pub request_type : RequestType
  pub subject : Option Text
  pub reason : Option Text
  pub state : QueueState
  pub error : Option Text

abbrev pub Queue : Type 0
Queue = List QueuedAccessRequest

-- What the storage holds under the outbox's key: the JSON of an array, the JSON of another value, a
-- text that is no JSON, or the empty text. `none` is a missing item.
pub data Raw : Type 0 where
  array : Queue → Raw
  other_json not_json empty : Raw

unfoldable pub read_request_outbox : Option Raw → Queue
read_request_outbox none = []
read_request_outbox (some empty) = []
read_request_outbox (some (array queue)) = queue
read_request_outbox (some other_json) = []
read_request_outbox (some not_json) = []

unfoldable pub enqueue_request : QueuedAccessRequest → Option Raw → Option Raw
unfolding read_request_outbox
enqueue_request request stored = some (array (read_request_outbox stored ++ request ∷ []))

pub clear_request_outbox : Option Raw → Option Raw
clear_request_outbox stored = none

-- How a call of `send` ends. What it throws has a status perhaps, and a message if it is an `Error`.
pub data Delivery : Type 0 where
  delivered : Delivery
  thrown : Option ℕ → Option Text → Delivery

abbrev pub is_unauthorized : Option ℕ → Bool
is_unauthorized none = false
is_unauthorized (some status) = status == 401

abbrev pub message_of : Option Text → Text
message_of none = text "Request delivery failed."
message_of (some message) = message

-- The request as it is kept after a failed delivery.
unfoldable pub kept_after : QueuedAccessRequest → Option ℕ → Option Text → QueuedAccessRequest
kept_after request status message = record request {
  state = if is_unauthorized status then QueueState.device_revoked else QueueState.failed;
  error = some (message_of message);
}

-- One round of the loop: `remaining` after the delivery of `request`.
unfoldable pub after_delivery : Queue → QueuedAccessRequest → Delivery → Queue
unfolding kept_after
after_delivery remaining request delivered = remaining
after_delivery remaining request (thrown status message) =
    remaining ++ kept_after request status message ∷ []

unfoldable pub deliver_all : (QueuedAccessRequest → Delivery) → Queue → Queue → Queue
deliver_all send remaining [] = remaining
deliver_all send remaining (request ∷ requests) =
    deliver_all send (after_delivery remaining request (send request)) requests

-- `flushRequestOutboxOnce`: the requests that remain, and the storage.
unfoldable pub flush_request_outbox_once :
    (QueuedAccessRequest → Delivery) → Option Raw → Queue × Option Raw
unfolding read_request_outbox deliver_all after_delivery
flush_request_outbox_once send stored =
    let remaining = deliver_all send [] (read_request_outbox stored) in
    (remaining, some (array remaining))
