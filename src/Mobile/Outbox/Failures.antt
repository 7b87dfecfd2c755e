-- ===== src/Mobile/Outbox/Failures.antt =====
-- What one flush of apps/mobile/src/state/request-outbox.ts leaves in the outbox.
use mathlib.Core.List.{append_assoc}
use you_tube_gradian_devin.Common.{List, [], ◌∷◌, ◌++◌, ◌≡◌, refl}
use you_tube_gradian_devin.Mobile.Outbox.{
  QueuedAccessRequest, Queue, Delivery, delivered, thrown, kept_after, after_delivery,
}

-- The requests whose delivery failed, in their order, each with its state and error.
abbrev pub failures : Queue → List Delivery → Queue
failures [] ends = []
failures (request ∷ requests) [] = []
failures (request ∷ requests) (delivered ∷ ends) = failures requests ends
failures (request ∷ requests) (thrown status message ∷ ends) =
    kept_after request status message ∷ failures requests ends

pub after_delivery-failures :
    (remaining : Queue) (request : QueuedAccessRequest) (d : Delivery) (requests : Queue)
    (ends : List Delivery)
    → after_delivery remaining request d ++ failures requests ends
      ≡ remaining ++ failures (request ∷ requests) (d ∷ ends)
unfolding after_delivery
after_delivery-failures remaining request delivered requests ends = refl
after_delivery-failures remaining request (thrown status message) requests ends =
    append_assoc remaining (kept_after request status message ∷ []) (failures requests ends)
