-- ===== src/OfflineQueue.antt =====
-- packages/nexora-agent/src/nexora_agent/offline_queue.py: what the agent could not send, kept in
-- order and sent again. The table's rows are in the order of their ids, which only grow.
pub mod Delivery
use nexora_platform.Prelude.{
  ℕ, suc, ◌+◌, String, Bool, true, false, List, [], ◌∷◌, ◌++◌, take, length, keep, not, nat_eq, leb,
  ◌==◌, if◌then◌else◌,
}
use nexora_platform.Prelude.Text.{Json}

pub record Item : Type 0 where
  pub id : ℕ
  pub kind : String
  pub payload : Json
  pub created_at : ℕ
  pub attempts : ℕ

-- The table, and the id that AUTOINCREMENT gives next.
pub record Queue : Type 0 where
  pub items : List Item
  pub next_id : ℕ

abbrev pub max_attempts : ℕ
max_attempts = 10

unfoldable pub enqueue : String → Json → ℕ → Queue → Queue
enqueue kind payload now q = record {
  items =
      q.items
      ++ record { id = q.next_id; kind = kind; payload = payload; created_at = now; attempts = 0 }
        ∷ [];
  next_id = suc q.next_id;
}

unfoldable pub depth : Queue → ℕ
depth q = length q.items

-- the oldest items, which stay in the queue
unfoldable pub peek : ℕ → Queue → List Item
peek limit q = take limit q.items

-- `DELETE FROM queue WHERE id = ?`
unfoldable pub without : ℕ → List Item → List Item
without id [] = []
without id (x ∷ l) = if nat_eq x.id id then without id l else x ∷ without id l

unfoldable pub ack : ℕ → Queue → Queue
unfolding without
ack id q = record q { items = without id q.items }

-- the update of `nack`, and its deletion of an item that has been tried too often
unfoldable pub retried : ℕ → List Item → List Item
retried id [] = []
retried id (x ∷ l) =
    if nat_eq x.id id
    then (if leb max_attempts (suc x.attempts)
        then retried id l
        else record x { attempts = suc x.attempts } ∷ retried id l)
    else x ∷ retried id l

unfoldable pub nack : ℕ → Queue → Queue
unfolding retried
nack id q = record q { items = retried id q.items }

-- What a send function does: it answers whether it sent, or it raises.
pub data Sending : Type 0 where
  sent not_sent failed : Sending

-- the send functions that `drain` is given, at their n-th call
pub record Senders : Type 0 where
  pub telemetry : (n : ℕ) → Json → Sending
  pub callback : (n : ℕ) → Json → Sending

-- an item of an unknown kind counts as sent
unfoldable pub attempt : Senders → ℕ → Item → Sending
attempt s n x =
    if x.kind == "telemetry"
    then s.telemetry n x.payload
    else if x.kind == "callback"
    then s.callback n x.payload
    else sent

-- what is done about an item after its send
unfoldable pub settle : Sending → ℕ → Queue → Queue
unfolding ack nack
settle sent id q = ack id q
settle not_sent id q = nack id q
settle failed id q = nack id q

-- the body of the loop over the items
unfoldable pub deliver : Senders → ℕ → Item → Queue → Queue
unfolding attempt settle
deliver s n x q = settle (attempt s n x) x.id q

unfoldable pub drain_items : Senders → ℕ → List Item → Queue → Queue
unfolding deliver
drain_items s n [] q = q
drain_items s n (x ∷ l) q = drain_items s (suc n) l (deliver s n x q)

unfoldable pub drain : Senders → Queue → Queue
unfolding drain_items peek
drain s q = drain_items s 0 (peek 50 q) q
