-- ===== src/Fees.antt =====
-- The fee schedule: src/fees/fee-defaults.ts and src/fees/fees.service.ts.
--
-- An amount of FARM is a number of atoms, 10^-8 FARM, the scale of the Decimal(30, 8) columns; a
-- percentage is a number of 10^-4 percent, the scale of the Decimal(10, 4) column. On these scales
-- the arithmetic is exact. `Number.EPSILON` in the source absorbs the error of binary floats and is
-- smaller than the distance of two exact fees, so it has no counterpart here.
-- The columns of a rule are not negative.
mod Rule
mod Schedule
pub mod Bounds
pub mod Cache
mod Examples
unfoldable pub use Rule.*
unfoldable pub use Schedule.*
