-- ===== src/OfflineQueue/Delivery.antt =====
-- The order of the queue, the bound on attempts, and what a drain delivers.
use nexora_platform.Prelude.{
  ℕ, suc, ◌≤◌, ◌<◌, ◌≡◌, refl, sym, ap, ◌∙◌, String, true, false, List, [], ◌∷◌, ◌++◌, take, drop,
  take-append-drop, nat_eq, leb, arith, Bool-cases, inl, inr,
}
use nexora_platform.Prelude.Text.{Json}
use nexora_platform.OfflineQueue.{
  Item, Queue, enqueue, without, ack, retried, nack, peek, Sending, sent, not_sent, failed, Senders,
  attempt, settle, deliver, drain_items, drain,
}

-- Rows in the order of their ids, from `low` on and below `next`, each tried fewer than ten times.
abbrev pub IsOrdered : (low next : ℕ) → List Item → Type 0
IsOrdered low next [] = low ≤ next
IsOrdered low next (x ∷ l) = (low ≤ x.id) × (x.attempts < 10) × IsOrdered (suc x.id) next l

abbrev pub IsWellFormed : Queue → Type 0
IsWellFormed q = IsOrdered 0 q.next_id q.items

lower : (a b next : ℕ) (l : List Item) → a ≤ b → IsOrdered b next l → IsOrdered a next l
lower a b next [] h o = omega (arith, h, o)
lower a b next (x ∷ l) h o = (omega (arith, h, o.0), o.1, o.2)

enqueue-IsOrdered :
    (x : Item) (low next : ℕ) (l : List Item)
    → x.id ≡ next
    → x.attempts ≡ 0
    → IsOrdered low next l
    → IsOrdered low (suc next) (l ++ x ∷ [])
enqueue-IsOrdered x low next [] h g o = (omega (arith, h, o), omega (arith, g), omega (arith, h))
enqueue-IsOrdered x low next (y ∷ l) h g o =
    (o.0, o.1, enqueue-IsOrdered x (suc y.id) next l h g o.2)

without-IsOrdered :
    (id low next : ℕ) (l : List Item) → IsOrdered low next l → IsOrdered low next (without id l)
unfolding without
without-IsOrdered id low next [] o = o
without-IsOrdered id low next (x ∷ l) o = elim (Bool-cases (nat_eq x.id id)) [
  | inl same ↦ rw same (
      lower low (suc x.id) next (without id l) (omega (arith, o.0))
        (without-IsOrdered id (suc x.id) next l o.2))
  | inr other ↦ rw other (o.0, o.1, without-IsOrdered id (suc x.id) next l o.2)
]

retried-IsOrdered :
    (id low next : ℕ) (l : List Item) → IsOrdered low next l → IsOrdered low next (retried id l)
unfolding retried
retried-IsOrdered id low next [] o = o
retried-IsOrdered id low next (x ∷ l) o =
    let rest : IsOrdered (suc x.id) next (retried id l) =
      retried-IsOrdered id (suc x.id) next l o.2 in
    elim (Bool-cases (nat_eq x.id id)) [
      | inr other ↦ rw other (o.0, o.1, rest)
      | inl same ↦ rw same (elim (Bool-cases (leb 10 (suc x.attempts))) [
        | inl often ↦ rw often (lower low (suc x.id) next (retried id l) (omega (arith, o.0)) rest)
        | inr few ↦ rw few (o.0, ground (arith, few), rest)
      ])
    ]

settle-IsWellFormed :
    (r : Sending) (id : ℕ) (q : Queue) → IsWellFormed q → IsWellFormed (settle r id q)
unfolding settle ack nack
settle-IsWellFormed sent id q o = without-IsOrdered id 0 q.next_id q.items o
settle-IsWellFormed not_sent id q o = retried-IsOrdered id 0 q.next_id q.items o
settle-IsWellFormed failed id q o = retried-IsOrdered id 0 q.next_id q.items o

deliver-IsWellFormed :
    (s : Senders) (n : ℕ) (x : Item) (q : Queue) → IsWellFormed q → IsWellFormed (deliver s n x q)
unfolding deliver
deliver-IsWellFormed s n x q o = settle-IsWellFormed (attempt s n x) x.id q o

drain_items-IsWellFormed :
    (s : Senders) (n : ℕ) (l : List Item) (q : Queue)
    → IsWellFormed q
    → IsWellFormed (drain_items s n l q)
unfolding drain_items
drain_items-IsWellFormed s n [] q o = o
drain_items-IsWellFormed s n (x ∷ l) q o =
    drain_items-IsWellFormed s (suc n) l (deliver s n x q) (deliver-IsWellFormed s n x q o)

-- A queue whose items are in the order of their ids, each tried fewer than ten times, stays one when
-- an item is added, and when it is drained, however the send functions answer.
pub queue-IsWellFormed :
    (q : Queue)
    → IsWellFormed q
    → ((kind : String) (payload : Json) (now : ℕ) → IsWellFormed (enqueue kind payload now q))
      × ((s : Senders) → IsWellFormed (drain s q))
unfolding enqueue drain
queue-IsWellFormed q o = (
  (λ kind payload now. enqueue-IsOrdered _ 0 q.next_id q.items refl refl o),
  (λ s. drain_items-IsWellFormed s 0 (peek 50 q) q o),
)

without-later :
    (id low next : ℕ) (l : List Item) → id < low → IsOrdered low next l → without id l ≡ l
unfolding without
without-later id low next [] h o = refl
without-later id low next (x ∷ l) h o =
    let other : nat_eq x.id id ≡ false = ground (arith, h, o.0) in
    rw (other, without-later id (suc x.id) next l (omega (arith, h, o.0)) o.2) refl

ack-first :
    (x : Item) (low next : ℕ) (l : List Item)
    → IsOrdered low next (x ∷ l)
    → without x.id (x ∷ l) ≡ l
unfolding without
ack-first x low next l o =
    let same : nat_eq x.id x.id ≡ true = ground arith in
    rw (same, without-later x.id (suc x.id) next l (omega arith) o.2) refl

deliver-sent :
    (s : Senders) (n : ℕ) (x : Item) (q : Queue)
    → attempt s n x ≡ sent
    → deliver s n x q ≡ ack x.id q
unfolding deliver settle
deliver-sent s n x q h = ap (λ r. settle r x.id q) h

drain_items-sent :
    (s : Senders) (n low next : ℕ) (l rest : List Item)
    → ((k : ℕ) (x : Item) → attempt s k x ≡ sent)
    → IsOrdered low next (l ++ rest)
    → drain_items s n l (record { items = l ++ rest; next_id = next })
      ≡ record { items = rest; next_id = next }
unfolding drain_items ack
drain_items-sent s n low next [] rest all o = refl
drain_items-sent s n low next (x ∷ l) rest all o =
    let step : deliver s n x (record { items = x ∷ (l ++ rest); next_id = next })
        ≡ record { items = l ++ rest; next_id = next } =
      deliver-sent s n x (record { items = x ∷ (l ++ rest); next_id = next }) (all n x)
      ∙ ap (λ i. record { items = i; next_id = next }) (ack-first x low next (l ++ rest) o) in
    ap (drain_items s (suc n) l) step ∙ drain_items-sent s (suc n) (suc x.id) next l rest all o.2

-- If every send succeeds, draining a queue in order removes its fifty oldest items, and no others.
pub drain_sent :
    (s : Senders) (q : Queue)
    → IsWellFormed q
    → ((k : ℕ) (x : Item) → attempt s k x ≡ sent)
    → drain s q ≡ record q { items = drop 50 q.items }
unfolding drain peek
drain_sent s q o all =
    let whole : take 50 q.items ++ drop 50 q.items ≡ q.items = take-append-drop 50 q.items in
    ap (λ l. drain_items s 0 (take 50 q.items) (record { items = l; next_id = q.next_id }))
      (sym whole)
    ∙ drain_items-sent s 0 0 q.next_id (take 50 q.items) (drop 50 q.items) all (rw whole o)
