-- ===== src/Controller/Replay.antt =====
-- services/protocol-runner-api/src/controller.ts: the status of a run as its events tell it.
use mathlib.Core.Logic.{ite}
use protocol_runner.Common.{Option, none, some, List, [], ◌∷◌}
use protocol_runner.Core.Types.{RunStatus, RunStatus-discrete, draft}
use protocol_runner.Controller.{RunnerEvent, Details}

-- What an event does to a status that is known so far: a change counts only if it starts there.
unfoldable pub follow : Details → Option RunStatus → Option RunStatus
unfolding RunStatus-discrete
follow (Details.state_changed from_status to_status reason blocked_reason) (some s) =
    ite (RunStatus-discrete s from_status) (some to_status) none
follow (Details.state_changed from_status to_status reason blocked_reason) none = none
follow d s = s

-- The status after all events, with the newest first: `none` if some change does not start where the
-- one before it ended.
unfoldable pub replay : List RunnerEvent → Option RunStatus
unfolding follow
replay [] = some draft
replay (e ∷ es) = follow e.details (replay es)
