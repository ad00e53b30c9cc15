-- ===== src/Samples/Devices.antt =====
-- The theorems on the agent's queue and on device shadows, applied.
use nexora_platform.Prelude.{ℕ, ◌≡◌, refl, String, none, some, [], ◌∷◌, drop, arith, if◌then◌else◌}
use nexora_platform.Prelude.Text.{Json}
use nexora_platform.OfflineQueue.{Item, Queue, sent, Senders, attempt, enqueue, drain}
use nexora_platform.OfflineQueue.Delivery.{IsWellFormed, queue-IsWellFormed, drain_sent}
use nexora_platform.Shadow.{Doc, get, merge, same, compute_delta}
use nexora_platform.Shadow.{Store, update_reported}
use nexora_platform.Shadow.Updates.{AfterReport, reported_is_stored}
use nexora_platform.Prelude.{true, not, ◌&&◌, is_some}
use nexora_platform.Shadow.Merge.{updated, has_key, get-merge, get-compute_delta}

abbrev reading : Json
reading = record { text = "21" }

abbrev two_waiting : Queue
two_waiting = record {
  items =
      record { id = 3; kind = "telemetry"; payload = reading; created_at = 7; attempts = 9 }
      ∷ record { id = 4; kind = "callback"; payload = reading; created_at = 8; attempts = 0 }
      ∷ [];
  next_id = 5;
}

queue-IsWellFormed_example :
    ((kind : String) (payload : Json) (now : ℕ)
      → IsWellFormed (enqueue kind payload now two_waiting))
    × ((s : Senders) → IsWellFormed (drain s two_waiting))
queue-IsWellFormed_example =
    queue-IsWellFormed two_waiting
      (omega arith, omega arith, (omega arith, omega arith, omega arith))

abbrev all_sent : Senders
all_sent = record { telemetry = λ n p. sent; callback = λ n p. sent }

attempt_sent : (k : ℕ) (x : Item) → attempt all_sent k x ≡ sent
unfolding attempt
attempt_sent k x = ground arith

drain_sent_example :
    drain all_sent two_waiting ≡ record two_waiting { items = drop 50 two_waiting.items }
drain_sent_example =
    drain_sent all_sent two_waiting
      (omega arith, omega arith, (omega arith, omega arith, omega arith)) attempt_sent

abbrev document : Doc
document = ("mode", some reading) ∷ ("rate", some reading) ∷ []

get-merge_example :
    (get "mode" (merge document (("mode", none) ∷ []))
      ≡ updated "mode" (("mode", none) ∷ []) (get "mode" document))
    × (has_key "mode" (merge document (("mode", none) ∷ []))
        ≡ is_some (updated "mode" (("mode", none) ∷ []) (get "mode" document)))
get-merge_example = get-merge "mode" document (("mode", none) ∷ []) (refl, (refl, tt))

abbrev sent_back : Doc
sent_back = ("mode", some reading) ∷ []

get-compute_delta_example :
    (get "rate" (compute_delta document sent_back)
      ≡ (if same (get "rate" sent_back) (get "rate" document) then none else get "rate" document))
    × (has_key "rate" (compute_delta document sent_back)
        ≡ (has_key "rate" document && not (same (get "rate" sent_back) (get "rate" document))))
get-compute_delta_example = get-compute_delta "rate" document sent_back (refl, (refl, tt))

abbrev store : Store
store = record { devices = "d1" ∷ []; shadows = []; published = []; clock = 9 }

reported_is_stored_example :
    AfterReport (λ e. true) "d1" document store (update_reported (λ e. true) "d1" document store)
reported_is_stored_example = reported_is_stored (λ e. true) "d1" document store refl
