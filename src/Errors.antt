-- ===== src/Errors.antt =====
-- nodejs/common/errors: the catalogue of errors. `Templates` has the constants and their texts,
-- `Code` the rendering of codes and messages, `DriverError` the class of the driver's errors.
pub mod Templates
pub mod Code
pub mod DriverError
