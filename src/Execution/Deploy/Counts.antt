-- ===== src/Execution/Deploy/Counts.antt =====
-- The numbers of a deployment's status (fleet_deploy_status of main.py).
use nexora_platform.Prelude.{◌+◌, ◌≡◌, refl, String, List, [], ◌∷◌, keep, length, count, arith}
use nexora_platform.Execution.Status.{Status, timeout, cancelled}
use nexora_platform.Execution.Model.{Execution}
use nexora_platform.Execution.Deploy.{is_install_of, has_status, deploy_status_of}

counted :
    (l : List Execution)
    → count (has_status Status.succeeded) l
        + (count (has_status Status.queued) l
            + count (has_status Status.dispatched) l
            + count (has_status Status.running) l)
        + count (has_status Status.failed) l
        + count (has_status timeout) l
        + count (has_status cancelled) l
      ≡ length l
counted [] = refl
counted (e ∷ l) = ground (arith, counted l)

-- The numbers of a deployment's status tell apart all installations of the function on the devices
-- of the fleet: those installed, pending, failed, timed out and cancelled are together as many as
-- there are rows.
deploy_status_counts :
    (function_id : String) (ids : List String) (t : List Execution)
    → let s = deploy_status_of function_id ids t in
      s.installed + s.pending + s.failed + s.by_status timeout + s.by_status cancelled
      ≡ length (keep (is_install_of function_id ids) t)
unfolding deploy_status_of
deploy_status_counts function_id ids t = counted (keep (is_install_of function_id ids) t)
