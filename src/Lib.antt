-- ===== src/Lib.antt =====
-- The ownership core of Home Lighting Manager, the Home Assistant integration in
-- custom_components/home_lighting_manager: who owns the desired appearance of each light. With it,
-- the plan and the loop of the retired integration legacy/custom_components/home_lighting_reconciliation,
-- which verifies that the lights show what they should, and repairs them.
--
-- The program keeps, for each light, a stack of ownership layers (automatic, functional and overlay
-- layers of the system, Manual and Manual-OFF layers of the homeowner) and exposes the last
-- eligible one. Evidence of an event is classified; a homeowner's command becomes one transaction
-- over the stacks; what is durable is persisted and comes back after a restart only on evidence.
-- The observer makes that evidence of Home Assistant's state changes and hands it to the runtime; its
-- subclass retains external evidence for some seconds and promotes what is correlated.
-- The parts, and the files that model them:
--
--   Common        Boolean tests, lists, dictionaries as association lists in insertion order,
--                 integers, texts, and actions: a state with an error (Common/Action), with the
--                 rules for what an action preserves (Common/Action/Invariant) and what it returns
--                 (Common/Action/Returns).
--   Model         model.py. Model/Values holds the dynamic Python values (the JSON of the store and
--                 the fields of an appearance), Model/Appearances `Appearance` and `is_valid`.
--   Intent        intent_policy.py, `classify_intent`.
--   Engine        engine.py, the class `OwnershipEngine` as the record `Engine` with `_layers` as
--                 `stacks`. Engine/State has the fields, the tokens and `resolve`; Engine/Groups
--                 the armed group OFFs and their ledger; Engine/Families removal and sessions;
--                 Engine/Stack `push`, `admit_manual` and `activate_automatic`; Engine/Off
--                 `apply_off` and `apply_group_off`; Engine/Scope resets, boundaries, generations
--                 and the managed scope. Engine/Reachable has the public operations as the steps of
--                 a state machine. Engine/Invariant lifts a property from the primitive writes to
--                 the operations; Engine/Frame and Engine/Sound are two such properties, on the
--                 lists of Engine/Stack/Distinct and Engine/Stack/Sizes and the paths of
--                 Engine/Stack/Pushed. Engine/Exposure is about `resolve`, Engine/Overtaken
--                 about the revision and the work tokens over runs of operations,
--                 Engine/Renewal and Engine/Disarmed about resets, boundaries and generations,
--                 Engine/TwoStep about the group OFF, Engine/Ended about the end of a session.
--   Operations    operations.py, the class `OwnershipOperations`. Operations/Record has the types and
--                 the refusals, Operations/Effect what an admitted operation does to the engine,
--                 Operations/Transaction `apply` with its memory and its rollback; Operations/Outcome
--                 tells the paths of `apply` apart, and the other files build on it; Operations/Overtakes
--                 is about what a commit does to the calculations under way in the engine.
--   Recovery      recovery.py, `recover_layer` and `recover_family_session`.
--   Correlation   attribution_correlation.py, the burst correlator and `resolve_unique_exact_group`.
--   Persistence   persistence.py: `serialize_state` (Encode), the parsers of one record (Decode) and
--                 `deserialize_state` (Payload).
--   Shadow        shadow.py, the class `ShadowRuntime` (Runtime) and its `restore` (Restore).
--                 Shadow/Kept lifts a property from the writes of recovery to all of it; Shadow/Once
--                 is about recovery, Shadow/Counted about the counters over a run of operations.
--   Projection    projection.py, `effective_ownership`.
--   Observer      ha_observer.py, the class `HomeAssistantShadowObserver`. Observation makes evidence of
--                 a transition, Topology reads the members of an aggregate, Receipts keeps what a
--                 renderer announced (`register_renderer_receipt`, `_active_guard_for_ha_consequence`),
--                 Membership and Reconcile adopt the members of the surfaces and keep the runtime in
--                 step, Saved reads what an earlier run saved, Restart decides what survives a restart;
--                 Events takes a change to its observation, and Handler has the handlers
--                 (`_async_state_changed`, the boundary, the reset). Under them, Attributed, Confirmed,
--                 Leaves, Boundary, Commands and Safe are about receipts, departures, restarts and changes.
--   Promotion     promotion_observer.py, the class `PromotingHomeAssistantShadowObserver`, around a
--                 Session of the observer. Pending has the retained leaves, their holds and what cancels
--                 and drops them, Window is about how long they stay; Single is
--                 `_apply_single_promotion`; Evidence has what a group is promoted on; Group is
--                 `_promote_armed_group_off`, which Exact is about; Owned is
--                 `_promote_owned_manual_group_off`, which Owned/Released is about.
--   Reconciliation  engine.py (`static_diff` in Difference, `commands_in` in Baseline, `_static` and
--                 `_scene` in Compare, `verify` in Verify), const.py, and runtime.py, the class
--                 `Reconciler` (Reconciler), whose `_run` is Loop. Plans, Scenes, Reasons and Justified
--                 are about the plan; Runs, Ends and Calm about the loop.
--   Tests         concrete runs, and each theorem with hypotheses at an input that meets them.
--
-- How the code is represented:
--   * A method that changes state is a function from the state to the state, or an action that also
--     returns a result or an error; an error keeps the writes made before it, as an exception does.
--   * The generation, the revision, the sequences and the counters start at 0 or 1 and only grow:
--     they are natural numbers. The order and the precedence of a layer are integers, since a
--     persisted record may hold negative ones. Python integers are unbounded, so nothing wraps.
--   * A dictionary is an association list in insertion order; a write to a key that is there
--     keeps its place, as in Python. A frozenset of names is a list, compared as a set.
--   * A float is an integer over a power of two, an infinity or a NaN. A NaN equals itself, as it
--     does for the one object that Python compares by identity.
--   * Defensive copies disappear, since values are immutable. The operations of a shadow runtime
--     hold its engine, so that the runtime's engine is the one of its operations, as in the code.
--   * The random authority of an engine is an argument. Times are microseconds.
--   * Checks of a type that the model's types already give (an integer sequence, a text as an
--     identifier) are left out; those of persisted values and of appearances are kept.
--   * Where `start_family` reads `_session_sequences[family]` of a live session, the model takes an
--     absent entry for another sequence; the code would raise KeyError.
--   * Every loop is structural recursion over the list it runs through, except `decimal`, which
--     prints a number on fuel: n + 1 steps are enough for n, since each divides by ten.
--   * In the parser, an exception that makes the loop skip a record is `none`. The legacy plan raises
--     as an error with the name of the Python exception.
--   * One time stands for the readings of the clock within one handler. A `datetime` with a zone is its
--     wall time, and the instant of a wall time is a parameter, the zone: the theorem on restarts asks
--     only that a wall time that is not before a 01:59 has an instant that is not before its instant.
--   * The legacy loop awaits an adapter. What the adapter answers, and what happens to the Reconciler
--     while the loop awaits it (a schedule, a close, a cancellation, an exception), are a parameter,
--     `Adapter`, of which nothing is assumed; `calls` lists what the loop asks of it. The loop makes at
--     most three attempts, by structural recursion.
--   * A number of a state is compared as a double, rounded to 53 bits by recursion on n + 1 steps, which
--     is more than the bits of n; `float()` of an integer beyond a double is not modelled.
--   * A step of a script is the call that its first key tells, a request to render the call it stands for.
--   * A timer that waits is the key under which it is kept; that it fires is a call of what it would do.
--
-- Not modelled: the diagnostics and ledgers that only report (`OwnershipOperations.diagnostics`,
-- `ownership_diagnostics`, `as_dict`, the traces of ha_observer.py and of promotion_observer.py); the set-up
-- and services of __init__.py; of ha_observer.py the start-up and the shutdown, the timers, the store,
-- `_state_matches_persisted_layer`, and `_parse_saved_at`, which is `datetime.fromisoformat`; of
-- promotion_observer.py the scene recalls, the displaced surfaces, the qualification of
-- an exact group, and the timers; of the legacy integration __init__.py, hue.py, rendering.py and
-- sensor.py, which call Home Assistant and the Hue bridge.
pub mod Common
pub mod Model
pub mod Intent
pub mod Engine
pub mod Operations
pub mod Recovery
pub mod Correlation
pub mod Persistence
pub mod Shadow
pub mod Projection
pub mod Reconciliation
pub mod Observer
pub mod Promotion
pub mod Tests
