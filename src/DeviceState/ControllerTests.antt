-- ===== src/DeviceState/ControllerTests.antt =====
-- The loops of the state controller at concrete inputs.
use drogue_cloud.Base.{◌≡◌, refl, false, [], ◌∷◌}
use drogue_cloud.DeviceState.Controller.{delete_aborts, delete, after_failure, decrement}

-- A second call of `delete` fails when the runner has been told before: that one aborts.
second_delete : delete (false ∷ false ∷ []) 2 false ≡ delete_aborts
unfolding delete after_failure decrement
second_delete = refl
