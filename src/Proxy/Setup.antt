-- ===== src/Proxy/Setup.antt =====
-- internal/gateway/gateway.go: `New`.
use costguard.Base.{String, [], ◌∷◌, Option, none, some, Result, ok, err, Dict, insert}
use costguard.Base.Float.{Float}
use costguard.Router.{Router}
use costguard.Proxy.Types.{Library, Provider, Gateway}

pub data NewError : Type 0 where
  router_required registry_required : NewError

-- The modes in their normal form, in the order in which the map is walked.
abbrev pub mode_map : Library → Dict String → Dict String → Dict String
mode_map lib [] modes = modes
mode_map lib ((k, v) ∷ configured) modes =
    mode_map lib configured (insert (lib.to_lower (lib.trim_space k)) (lib.trim_space v) modes)

-- Of the router and the registry, which may be nil, and the other fields, which `d` has as they are
-- configured; those of the endpoints beside chat completions are `Settings`.
unfoldable pub new_gateway :
    {f : Float}
    → Library
    → Option (Router f)
    → Option (Dict Provider)
    → Gateway f
    → Result NewError (Gateway f)
new_gateway lib none registry d = err router_required
new_gateway lib (some router) none d = err registry_required
new_gateway lib (some router) (some registry) d = ok (record d {
  router = router;
  registry = registry;
  mode_to_provider = mode_map lib d.mode_to_provider [];
})
