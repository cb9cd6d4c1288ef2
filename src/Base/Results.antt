-- ===== src/Base/Results.antt =====
-- C++ exceptions as values. `Exception` has the classes that the handlers of the program tell
-- apart: nlohmann's `out_of_range`, `parse_error` and `type_error`, the standard `invalid_argument`,
-- `logic_error` and any other `std::exception`, and `unknown` for what is no `std::exception`.
use Prim.Native.String.{String}

pub data Exception : Type 0 where
  out_of_range parse_error type_error invalid_argument logic_error std_exception :
      String → Exception
  unknown : Exception

pub data Result {ℓ} (A : Type ℓ) : Type ℓ where
  ok : A → Result A
  raise : Exception → Result A
