-- ===== src/Prelude/Number.antt =====
-- A JavaScript number on a fixed decimal scale.
use farm_backend.Prelude.Int.{ℤ}

-- `finite n` is n units of the scale; `not_finite` is NaN or an infinity.
pub data JsNumber : Type 0 where
  finite : ℤ → JsNumber
  not_finite : JsNumber
