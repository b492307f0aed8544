-- ===== src/Prelude/Outcome/Code.antt =====
-- `StatusCode` of include/kvstore/status.hpp. Beside the results' `ok` its first constructor is
-- written `StatusCode.ok`.
pub data StatusCode : Type 0 where
  ok not_found io_error corruption invalid_argument : StatusCode
