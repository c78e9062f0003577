-- ===== src/Utils.antt =====
-- The packages under utils/ that the programs share, and the parts of Go that they use.
pub mod Codeutils
pub mod Strings
pub mod Strconv
