-- ===== src/Python.antt =====
-- What the modules share of Python: errors as values, text, the object graph that a parsed JSON
-- value is, and the `while work` loops over it.
pub mod Result
pub mod Text
pub mod Int
pub mod BigEndian
pub mod Object
pub mod Identity
pub mod Worklist
pub mod Walk
