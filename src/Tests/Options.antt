-- ===== src/Tests/Options.antt =====
-- The default options, options that are refused, and the theorem on validation at the default.
use hybit.Base.{◌≡◌, ◌↔◌, refl, arith, ok, err}
use hybit.Core.{invalid_argument}
use hybit.Core.Options.{default_options, validate_options}
use hybit.Core.Accepts.{IsAccepted, validate_options-IsAccepted}

default_accepted : validate_options default_options ≡ ok tt
unfolding validate_options
default_accepted = refl

-- -1.0e-8.
negative_refused :
    validate_options record {
      relative_tolerance = 0xbe45798ee2308c3a;
      absolute_tolerance = 0;
      max_iterations = 1000;
    }
    ≡ err (invalid_argument "relative_tolerance must be finite and >= 0")
unfolding validate_options
negative_refused = refl

validate_options-IsAccepted_example :
    (validate_options default_options ≡ ok tt) ↔ IsAccepted default_options
validate_options-IsAccepted_example =
    validate_options-IsAccepted default_options (ground arith) (ground arith)
