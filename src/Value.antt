-- ===== src/Value.antt =====
-- The values that the program computes with, which Python and its JSON module give it: texts as
-- lists of code points, double precision numbers as bit patterns, integers, and JSON values.
mod Text
mod Double
mod Dynamic
pub use Text.*
pub use Double.*
pub use Dynamic.*
