-- ===== src/Router/Matchers.antt =====
-- internal/router/matchers.go and resolver.go: the provider of a model by its name.
use costguard.Base.{
  String, Dict, lookup_or, if◌then◌else◌, str_eq, not, runes, starts, lower, trim_space, map,
}

unfoldable pub match_provider_by_model : String → String
match_provider_by_model model =
    let m = trim_space (map lower (runes model)) in
    if starts (runes "gpt-") m
    then "openai_primary"
    else if starts (runes "claude-") m
    then "anthropic_primary"
    else if starts (runes "gemini-") m
    then "google_primary"
    else ""

-- `if p, ok := m[k]; ok && p != "" { return p }`: no name is the empty one.
abbrev pub named : Dict String → String → String
named m k = lookup_or k "" m

-- `ResolveProvider`, of the two fields of the routing configuration.
unfoldable pub resolve_provider : Dict String → String → String → String
resolve_provider model_to_provider default_provider model =
    let provider = named model_to_provider model in
    let matched = match_provider_by_model model in
    if not (str_eq provider "")
    then provider
    else if not (str_eq matched "")
    then matched
    else default_provider
