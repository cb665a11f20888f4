-- ===== src/Common/Stops.antt =====
-- How a sequence of calls stops before its end, and at which call.
use mathlib.Core.Path.{◌≡◌}
use mathlib.Core.Option.{Option, none, some}
use canoe_nusb_storage.Common.Outcome.{Outcome, ok, err, dropped, panicked, stuck}

pub data Stop (E : Type 0) : Type 0 where
  met : E → Stop E
  late broken endless : Stop E

-- The end of a call that has no result.
abbrev pub stop : {E A : Type 0} → Outcome E A → Option (Stop E)
stop (ok a) = none
stop (err e) = some (met e)
stop dropped = some late
stop panicked = some broken
stop stuck = some endless

-- The call stops so, in that state.
abbrev pub StopsAt : {S E A : Type 0} → Outcome E A × S → S → Stop E → Type 0
StopsAt (r, s) s' f = (stop r ≡ some f) × (s ≡ s')
