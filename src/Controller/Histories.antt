-- ===== src/Controller/Histories.antt =====
-- local.py: every history of calls.
use hexaqueue.Prelude.{inl, inr, true, false, Option, none, some, List, [], ◌∷◌, Bool}
use hexaqueue.Prelude.Lists.{All}
use hexaqueue.Controller.{Controller, JobRecord, CostModel, Answer, check_leadership}
use hexaqueue.Controller.Nodes.{evaluate_node_failures, register_node}
use hexaqueue.Controller.Sound.{IsSound}
use hexaqueue.Controller.Recovery.{put_node-IsSound, evaluate_nodes-IsSound}
use hexaqueue.Controller.Answers.{AnswerSound}
use hexaqueue.Controller.Handlers.{
  submit-AnswerSound, report-AnswerSound, cancel-AnswerSound, cancel_run-AnswerSound,
  hold-AnswerSound, release-AnswerSound, heartbeat-AnswerSound, schedule-ResultSound,
}
use hexaqueue.Controller.Rewinding.{rewind-ResultSound}
use hexaqueue.Controller.Commands.{Command, BringsFresh, execute, after, run}

pub execute-AnswerSound :
    (model : Option CostModel) (violates : JobRecord → Bool) (command : Command) (c : Controller)
    → BringsFresh command
    → IsSound c
    → AnswerSound (execute model violates command c)
unfolding execute evaluate_node_failures register_node
execute-AnswerSound model violates (Command.submit s) c h i = submit-AnswerSound violates c s h i
execute-AnswerSound model violates (Command.report now j o reason w x) c h i =
    report-AnswerSound model now c j o reason w x i
execute-AnswerSound model violates (Command.cancel_one now j) c h i =
    cancel-AnswerSound model now c j i
execute-AnswerSound model violates (Command.cancel_all now r) c h i =
    cancel_run-AnswerSound model now c r i
execute-AnswerSound model violates (Command.hold j) c h i = hold-AnswerSound c j i
execute-AnswerSound model violates (Command.release j) c h i = release-AnswerSound c j i
execute-AnswerSound model violates (Command.register profile) c h i =
    put_node-IsSound profile.node_id profile c i
execute-AnswerSound model violates (Command.heartbeat now w active cached) c h i =
    heartbeat-AnswerSound now c w active cached i
execute-AnswerSound model violates (Command.audit now tu td) c h i =
    evaluate_nodes-IsSound now tu td c.nodes (c, []) i
execute-AnswerSound model violates (Command.schedule now hold_id threshold hash_map j) c h i =
    schedule-ResultSound model now hold_id threshold hash_map c j i
execute-AnswerSound model violates (Command.rewind r targets) c h i =
    rewind-ResultSound c r targets i

pub led-AnswerSound :
    (leads : Option Bool) (answer : Answer Controller)
    → AnswerSound answer
    → AnswerSound (check_leadership leads answer)
unfolding check_leadership
led-AnswerSound none answer s = s
led-AnswerSound (some true) answer s = s
led-AnswerSound (some false) answer s = tt

pub after-IsSound :
    (c : Controller) (answer : Answer Controller)
    → IsSound c
    → AnswerSound answer
    → IsSound (after c answer)
after-IsSound c (inl e) i s = i
after-IsSound c (inr c') i s = s

-- Whatever calls are made, on a leader or a standby, and whatever they raise: when the submissions
-- bring jobs with valid statuses, no more retries than their policies allow, and no worker on a
-- submitted one, and the controller starts so too, each stored job stands once under its own
-- identifier, has an outcome exactly when it is done, has not been retried more often than allowed,
-- and has no worker while it is submitted; the queue holds jobs that were pending when queued.
pub run-IsSound :
    (model : Option CostModel) (violates : JobRecord → Bool)
    (commands : List (Option Bool × Command)) (c : Controller)
    → All (λ e. BringsFresh e.1) commands
    → IsSound c
    → IsSound (run model violates commands c)
unfolding run
run-IsSound model violates [] c h i = i
run-IsSound model violates ((leads, command) ∷ commands) c h i =
    run-IsSound model violates commands _ h.1 (
      after-IsSound c _ i
        (led-AnswerSound leads _ (execute-AnswerSound model violates command c h.0 i)))
