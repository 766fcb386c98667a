-- ===== src/Controller/Recovered.antt =====
-- local.py, _recover_dead_node_jobs: what becomes of the jobs, of the queue and of the dead letters.
use hexaqueue.Prelude.{ℕ, ◌≡◌, ◌⊎◌, true, false, some}
use hexaqueue.Prelude.Dict.{get}
use hexaqueue.Controller.{Controller, JobRecord}
use hexaqueue.Controller.Passes.{Advanced}
use hexaqueue.Controller.Nodes.{is_in_flight}
use hexaqueue.Controller.Evacuation.{recovered}
use hexaqueue.Controller.Queued.{IsHandled}

-- What becomes of a stored job when the worker `node_id` is dead.
abbrev pub IsEvacuated : ℕ → ℕ → ℕ → JobRecord → Controller → Type 0
IsEvacuated node_id now k job after =
    ((is_in_flight node_id job ≡ true)
      × (get k after.jobs ≡ some (recovered job))
      × IsHandled node_id now job after)
    ⊎ ((is_in_flight node_id job ≡ false) × Advanced (some job) (get k after.jobs))
