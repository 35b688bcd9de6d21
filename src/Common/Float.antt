-- ===== src/Common/Float.antt =====
-- The floating-point types of the program (`Sample` and `double`), as an interface: C++'s operators
-- and the functions of <cmath> and <limits> that the program calls. No value of it is computed with
-- here but through these fields, so what is proved holds at every precision and rounding.
mod Ops
mod Whole
pub use Ops.*
pub use Whole.*
