-- ===== src/Common.antt =====
-- shareds/common: what its source files compute, one child for each.
pub mod Topics
