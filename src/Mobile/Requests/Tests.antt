-- ===== src/Mobile/Requests/Tests.antt =====
-- A storage and a service that has lost the network, and the theorem on them.
use you_tube_gradian_devin.Common.{text, Option, none, some, [], false, ◌≡◌, refl, any, ok, err}
use you_tube_gradian_devin.Common.Programs.{Ends, returned}
use you_tube_gradian_devin.Mobile.Session.Network.{plain_error}
use you_tube_gradian_devin.Mobile.Outbox.{
  RequestType, QueueState, QueuedAccessRequest, Raw, read_request_outbox, enqueue_request,
  kept_after, after_delivery,
}
use you_tube_gradian_devin.Mobile.Requests.{
  RequestCalls, still_queued, View, message_for, read, send, deliver, deliver_each, flush, enqueue,
  sync, submit,
}
use you_tube_gradian_devin.Mobile.Requests.Honest.{IsStorage, Synced, Submitted, submit-Submitted}

abbrev calls : RequestCalls (Option Raw)
calls = record {
  get_item = λ stored. (ok stored, stored);
  set_item = λ value stored. (ok tt, value);
  create_request = λ input key stored. (err (plain_error (text "offline")), stored);
  new_key = λ stored. (ok (text "1-a"), stored);
}

calls-IsStorage : IsStorage calls (λ stored. stored)
calls-IsStorage = record {
  get_lem = λ s. returned s s (refl, refl);
  set_lem = λ v s. returned tt v refl;
  create_keeps = λ input key s. refl;
}

abbrev request : QueuedAccessRequest
request = record {
  id = text "1-a";
  idempotency_key = some (text "child-request-1-a");
  request_type = RequestType.more_time;
  subject = none;
  reason = none;
  state = QueueState.queued;
  error = none;
}

abbrev opened : Option Raw × View
opened =
    (none, record { is_offline = false; subject = []; reason = []; message = none; outbox = [] })

kept_for_later : ((submit calls request opened).1.1).message ≡ some still_queued
unfolding submit enqueue enqueue_request sync flush read deliver_each deliver send message_for any
    read_request_outbox after_delivery kept_after
kept_for_later = refl

submit-Submitted_example :
    Ends (λ _. Synced (λ stored. stored) opened) (λ _ _. ⊥) (sync calls opened)
    × Ends
        (λ _. Submitted calls (λ stored. stored) calls-IsStorage request opened)
        (λ _ _. ⊥)
        (submit calls request opened)
submit-Submitted_example = submit-Submitted calls (λ stored. stored) calls-IsStorage request opened
