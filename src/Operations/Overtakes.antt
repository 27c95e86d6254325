-- ===== src/Operations/Overtakes.antt =====
-- What a committed operation does to the calculations that are under way.
use home_lighting_manager.Common.{String, true, ◌≡◌, arith}
use home_lighting_manager.Model.{OwnershipLayer}
use home_lighting_manager.Engine.State.{Engine, work_token}
use home_lighting_manager.Engine.Overtaken.{
  Steps, Steps-revision, IsRefused, overtaken_lem, stale_work-IsRefused,
}
use home_lighting_manager.Operations.Record.{HomeownerOperation, Operations}
use home_lighting_manager.Operations.Transaction.{apply}
use home_lighting_manager.Operations.Atomic.{apply-mutated}

-- A calculation that took its token at any time before an operation of the homeowner is committed can write nothing
-- at any time after: whatever public operations of the engine ran between the token and the commit, and run between
-- the commit and the write, returning or raising, a push, the start, the end and the suppression of a session, and the activation of a
-- system layer with that token raise and leave the engine as it is, for whatever entity, session and layer.
pub apply-overtakes :
    (begun : Engine) (op : HomeownerOperation) (s : Operations) (e : Engine)
    (entity family session : String) (layer : OwnershipLayer)
    → Steps begun s.engine
    → (apply op s).0.mutated ≡ true
    → Steps (apply op s).1.engine e
    → IsRefused (work_token begun) e entity family session layer
apply-overtakes begun op s e entity family session layer before h after =
    let grows = (apply-mutated op s h).5 in
    stale_work-IsRefused e (work_token begun) entity family session layer
      (overtaken_lem begun e (omega (arith, Steps-revision before, grows, Steps-revision after)))
