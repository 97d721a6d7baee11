-- ===== src/Options/Tests.antt =====
-- The default options.
use kubemq_cpp.Base.{◌≡◌, ◌↔◌, true}
use kubemq_cpp.Status.{is_ok}
use kubemq_cpp.Options.{new_options, validate}
use kubemq_cpp.Options.Check.{IsInRange, validate_lem}

validate_example : (is_ok (validate new_options) ≡ true) ↔ IsInRange new_options
validate_example = validate_lem new_options
