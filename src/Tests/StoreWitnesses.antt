-- ===== src/Tests/StoreWitnesses.antt =====
-- The theorems on the store at concrete inputs.
use home_lighting_manager.Common.{◌≡◌, refl, some, [], ◌∷◌, arith}
use home_lighting_manager.Model.{dict}
use home_lighting_manager.Persistence.Encode.{serialize_layer, serialize_session}
use home_lighting_manager.Persistence.Decode.{deserialize_layer, deserialize_session}
use home_lighting_manager.Persistence.Payload.{deserialize_state}
use home_lighting_manager.Persistence.RoundTrip.{
  IsStorable, stripped, deserialize_session-serialize_session, deserialize_layer-serialize_layer,
}
use home_lighting_manager.Persistence.Trusted.{IsTrustworthy, deserialize_state-IsTrustworthy}
use home_lighting_manager.Tests.Program.{program}
use home_lighting_manager.Tests.Data.{movie, manual_desk, stored}

deserialize_session-serialize_session_example :
    deserialize_session (dict (serialize_session movie)) ≡ some (record movie { sequence = 0 })
unfolding program
deserialize_session-serialize_session_example =
    deserialize_session-serialize_session movie refl refl (omega arith)

manual_desk-IsStorable : IsStorable manual_desk
unfolding program
manual_desk-IsStorable = record {
  id = refl;
  owner = refl;
  generation = omega arith;
  appearance = refl;
  operation = refl;
  group = refl;
  parent = refl;
}

deserialize_layer-serialize_layer_example :
    deserialize_layer (dict (serialize_layer manual_desk)) ≡ some (stripped manual_desk)
deserialize_layer-serialize_layer_example =
    deserialize_layer-serialize_layer manual_desk manual_desk-IsStorable

deserialize_state-IsTrustworthy_example : IsTrustworthy (deserialize_state stored)
deserialize_state-IsTrustworthy_example = deserialize_state-IsTrustworthy stored

-- A whole payload is accepted back.
stored_back :
    ((deserialize_state stored).rejected_layers ≡ 0)
    × ((deserialize_state stored).suppressed_sessions ≡ record movie { sequence = 0 } ∷ [])
unfolding program
stored_back = (refl, refl)
