-- ===== src/Providers/Tests.antt =====
-- internal/providers: a run on a concrete input.
use costguard.Base.{◌≡◌, refl}
use costguard.Providers.{error_category, rate_limit}

type_comes_first : error_category "rate_limit_error" 401 ≡ rate_limit
unfolding error_category
type_comes_first = refl
