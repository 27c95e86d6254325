-- ===== src/Engine/Sound/Instance.antt =====
-- The well-formedness of an engine as a stable property, for the rules of Engine/Invariant.
use home_lighting_manager.Engine.Invariant.{IsStable}
use home_lighting_manager.Engine.Sound.Writes.{
  IsSound, changed-IsSound, discard_group_off-IsSound, arm-IsSound, keep_where-IsSound,
  drop_session-IsSound, write_session-IsSound, write_family-IsSound,
}
use home_lighting_manager.Engine.Sound.Pushes.{push-IsSound, move_before-IsSound}

instance pub IsSound-IsStable : IsStable IsSound
IsSound-IsStable = record {
  changed_P = changed-IsSound;
  discard_P = discard_group_off-IsSound;
  arm_P = arm-IsSound;
  keep_P = keep_where-IsSound;
  drop_P = drop_session-IsSound;
  write_P = write_session-IsSound;
  family_P = write_family-IsSound;
  push_P = push-IsSound;
  move_P = move_before-IsSound;
}
