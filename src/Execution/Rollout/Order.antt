-- ===== src/Execution/Rollout/Order.antt =====
-- Which devices a rollout reaches, in which order, and where it stops.
use nexora_platform.Prelude.{
  ℕ, ◌+◌, ◌≡◌, refl, String, Bool, true, false, none, List, [], ◌∷◌, map, take, length, sum, arith,
}
use nexora_platform.Prelude.Action.{Outcome, ok}
use nexora_platform.Execution.Rollout.Runs.{Served}
use nexora_platform.Prelude.Action.Ensures.{Ensures}
use nexora_platform.Execution.World.{Settings, Services, Request, World, Raised, new_uuid}
use nexora_platform.Execution.Rollout.{
  Item, count_dispatched, count_failed, RingResult, Progress, RolloutPayload, RolloutReport,
  rolling_out, all_results, fleet_members, rollout_command, device_payload,
}

abbrev pub device_of : Item → String
device_of i = i.device_id

-- every item is counted as dispatched or as failed
pub count_dispatched-count_failed :
    (items : List Item) → count_dispatched items + count_failed items ≡ length items
unfolding count_dispatched count_failed
count_dispatched-count_failed [] = refl
count_dispatched-count_failed (i ∷ items) = ground (arith, count_dispatched-count_failed items)

-- Only the last ring may have failures.
abbrev pub FailsLast : List RingResult → Type 0
FailsLast [] = Unit
FailsLast (r ∷ []) = Unit
FailsLast (r ∷ s ∷ rs) = (r.failed ≡ 0) × FailsLast (s ∷ rs)

-- What the loop over the rings has done when it returns.
pub record Ran (stop : Bool) (sizes : List ℕ) (left : List String) (p : Progress) : Type 0 where
  pub reached : map device_of (all_results p.rings) ≡ take (sum (take (length p.rings) sizes)) left
  pub all_rings : p.stopped ≡ false → length p.rings ≡ length sizes
  pub gate : stop ≡ true → FailsLast p.rings
  pub unforced : stop ≡ false → p.stopped ≡ false

module _ (cfg : Settings) (ext : Services) (req : Request) where
  -- What a rollout that returns has done, for a fleet of `ids`.
  pub record RolledOut (p : RolloutPayload) (ids : List String) (r : RolloutReport) : Type 0 where
    pub counted : r.dispatched + r.failed ≡ length (all_results r.rings)
    pub in_order : (n : ℕ) × (map device_of (all_results r.rings) ≡ take n ids)
    pub whole_fleet :
        r.status ≡ rolling_out
        → p.rings.max_rings ≡ none
        → (map device_of (all_results r.rings) ≡ ids) × (r.dispatched + r.failed ≡ r.total)
    pub stops : p.stop_on_failure ≡ true → FailsLast r.rings
    pub runs_on : p.stop_on_failure ≡ false → r.status ≡ rolling_out

  -- The executions behind the results of a rollout from `w` to `t`: those of the first `reached`
  -- devices of the fleet, after the rollout's own id has been drawn.
  pub record Started (p : RolloutPayload) (ids : List String) (r : RolloutReport) (w t : World)
      : Type 0 where
    pub command : String
    pub chosen : rollout_command p ≡ ok command
    pub reached : ℕ
    pub served :
        Served cfg ext req
          (device_payload p command)
          (take reached ids)
          (new_uuid ext w).1
          (all_results r.rings)
          t

  -- what a rollout that returns shows
  abbrev pub Shows : String → RolloutPayload → World → RolloutReport → World → Type 0
  Shows fleet_id p w r t =
      (ids : List String) × (fleet_members (ext.get_fleet_members fleet_id) ≡ ok ids)
      × RolledOut p ids r
      × Started p ids r w t

  record RolloutEnd (fleet_id : String) (p : RolloutPayload) (w : World)
      (x : Outcome Raised RolloutReport × World) : Type 0 where
    at : (r : RolloutReport) → x.0 ≡ ok r → Shows fleet_id p w r x.1
