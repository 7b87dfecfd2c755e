-- ===== src/Mobile/Outbox/Tests.antt =====
-- The outbox with two requests, and the theorems on it.
use you_tube_gradian_devin.Common.{text, none, some, List, [], ◌∷◌, ◌++◌, reverse, ◌≡◌, refl}
use you_tube_gradian_devin.Mobile.Outbox.{
  QueuedAccessRequest, Queue, array, Delivery, delivered, thrown, RequestType, QueueState,
  kept_after,
}
use you_tube_gradian_devin.Mobile.Outbox.Failures.{failures}
use you_tube_gradian_devin.Mobile.Outbox.Schedule.{
  Event, enqueue, flush, settle, finish, run, run-finished, run-enqueue_in_flight,
}

abbrev time_request : QueuedAccessRequest
time_request = record {
  id = text "1";
  idempotency_key = none;
  request_type = RequestType.more_time;
  subject = some (text "games");
  reason = none;
  state = QueueState.queued;
  error = none;
}

abbrev site_request : QueuedAccessRequest
site_request = record time_request { id = text "2"; request_type = RequestType.unblock_site }

abbrev late_request : QueuedAccessRequest
late_request = record time_request { id = text "3" }

abbrev two_requests : Queue
two_requests = time_request ∷ site_request ∷ []

abbrev unauthorized : Delivery
unauthorized = thrown (some 401) (some (text "gone"))

-- The device was revoked: every delivery fails.
abbrev revoked : QueuedAccessRequest → Delivery
revoked request = unauthorized

kept_request : kept_after time_request (some 401) none ≡ record time_request {
  state = QueueState.device_revoked;
  error = some (text "Request delivery failed.");
}
unfolding kept_after
kept_request = refl

-- The second flush joins the first.
abbrev before_late : List Event
before_late = settle delivered ∷ flush ∷ []

abbrev after_late : List Event
after_late = settle unauthorized ∷ []

run-finished_example :
    run
      (record {
        stored = some (array two_requests);
        flight = some (record { pending = two_requests; remaining = [] });
        sent = [];
      })
      ((before_late ++ after_late) ++ finish ∷ [])
    ≡ record {
      stored = some (array (failures two_requests (delivered ∷ unauthorized ∷ [])));
      flight = none;
      sent = reverse two_requests ++ [];
    }
run-finished_example =
    run-finished (before_late ++ after_late) two_requests [] (some (array two_requests)) []
      (tt, (tt, (tt, tt))) refl

run-enqueue_in_flight_example :
    run
      (record {
        stored = some (array two_requests);
        flight = some (record { pending = two_requests; remaining = [] });
        sent = [];
      })
      ((before_late ++ enqueue late_request ∷ after_late) ++ finish ∷ [])
    ≡ run
        (record {
          stored = some (array two_requests);
          flight = some (record { pending = two_requests; remaining = [] });
          sent = [];
        })
        ((before_late ++ after_late) ++ finish ∷ [])
run-enqueue_in_flight_example =
    run-enqueue_in_flight before_late after_late late_request
      (record { pending = two_requests; remaining = [] }) (some (array two_requests)) []
      (tt, (tt, (tt, tt))) refl
