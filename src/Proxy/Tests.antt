-- ===== src/Proxy/Tests.antt =====
-- internal/gateway/proxy.go: the theorems at one gateway, with one provider that answers.
use costguard.Base.{
  ℕ, ◌*◌, ◌/◌, ◌≡◌, refl, true, false, [], ◌∷◌, none, some, ok, runes, arith, ℤ, pos, negsuc,
}
use costguard.Base.Float.Scaled.{scaled, scale}
use costguard.Budget.{
  UsageReader, Service, spent, monthly_exceeded, check_request_budget, check_global,
}
use costguard.Alerts.{holds_key, monthly_key}
use costguard.Cache.{get, look}
use costguard.Breaker.{default_policy}
use costguard.Gateway.Errors.{plain_error}
use costguard.Gateway.Retry.{
  World, replied, absent, Response, call_with_retry, attempts_from, on_reply, default_retry_policy,
}
use costguard.Gateway.Calls.{answered, attempt, provider_retry_policy}
use costguard.Proxy.{proxy, admit, serve}
use costguard.Proxy.Types.{Library, Request, Provider, Gateway, State, Environment, ResponseMeta}
use costguard.Proxy.Responses.{new_json_error_response, is_cacheable_request, is_streaming_response}
use costguard.Proxy.Upstream.{call_providers, call_provider, call_single_provider}
use costguard.Proxy.Refusals.{
  OnlyAlerts, reachable, over_budget_reaches_nothing, admit-monthly_exceeded,
}
use costguard.Proxy.Stored.{OkEntries, proxy-OkEntries}
use costguard.Proxy.Replay.{serve_replayed}

abbrev pub lib : Library
lib = record {
  trim_space = λ s. s;
  to_lower = λ s. s;
  canonical_header_key = λ s. s;
  itoa = λ n. "2";
  utf8 = runes;
  hex_sha256 = λ bs. "5feceb66";
  model_field = λ bs. some "gpt-4o";
  stream_field = λ bs. some false;
  message_contents = λ bs. none;
  is_usage_response = λ bs. true;
  unmarshal_map = λ bs. ok [];
  marshal_map = λ m. ok [];
}

abbrev pub request : Request
request = record {
  method = "POST";
  path = "/v1/chat/completions";
  raw_query = "";
  provider_header = "";
  mode_header = "";
  team = "core";
  project = "";
  user = "";
  agent = "";
  request_id = "r1";
  body = ok (123 ∷ 125 ∷ []);
}

abbrev pub counted : ResponseMeta
counted = record {
  model = "gpt-4o";
  prompt_tokens = 3;
  completion_tokens = 4;
  total_tokens = 7;
  cache_creation_input_tokens = 0;
  cache_read_input_tokens = 0;
}

abbrev pub openai : Provider
openai = record { family = "openai"; parse_response_meta = λ bs. ok counted }

abbrev pub gateway : Gateway scaled
gateway = record {
  router = record {
    default_provider = "openai";
    model_to_provider = [];
    available_providers = [];
    catalog = none;
    priority = none;
    cost = none;
  };
  registry = ("openai", openai) ∷ [];
  fallback = "";
  model_compatibility = [];
  has_cache = true;
  cache_ttl = 60;
  usage_store = true;
  budget_checker = none;
  alert_store = true;
  notifier = true;
  log = true;
  mode_to_provider = [];
  retry_policies = [];
  breakers = false;
  config_prices = [];
}

-- 50 dollars are spent of 40.
abbrev pub store : UsageReader ℕ
store = record {
  total_spend = λ w. spent (50 * scale);
  spend_for_team = λ name w. spent 0;
  spend_for_project = λ name w. spent 0;
  spend_for_agent = λ name w. spent 0;
}

abbrev pub service : Service scaled
service = record {
  usage = store;
  cfg = record { enabled = true; monthly_usd = 40 * scale; teams = []; projects = []; agents = [] };
}

abbrev pub limited : Gateway scaled
limited = record gateway { budget_checker = some service }

abbrev pub natural : ℤ → ℕ
natural (pos n) = n * scale
natural (negsuc n) = 0

abbrev pub world : World scaled
world = record {
  to_float = natural;
  to_duration = λ c. pos (c / scale);
  random = λ n. scale / 2;
  do_call = λ n. replied none;
  done = λ n. false;
  done_waiting = λ n. false;
  context_error = plain_error [];
}

abbrev pub fine : Response scaled
fine = record { status_code = 200; retry_after = absent; content = 7 }

abbrev pub env : Environment scaled
env = record {
  now = 10;
  later = 11;
  utc = record { year = 2024; month = 12; into = 5 };
  outside = λ percent. reachable;
  others_alerts = λ percent. record { before_send = λ a. a; before_mark = λ a. a };
  save_fails = false;
  others_cache = λ m. m;
  others_breakers = λ r. r;
  pick = 0;
  upstream = λ provider body n. answered fine;
  world = world;
  payload_of = λ n. record { header = []; body = some (ok (123 ∷ 125 ∷ [])) };
}

abbrev pub state : State scaled
state = record {
  alerts = record { marked = []; delivered = [] };
  cache = record { entries = []; max_keys = 10 };
  breakers = record { heap = []; breakers = []; defaults = default_policy; overrides = [] };
  saved = [];
  asked = [];
  outcomes = [];
}

over_budget_reaches_nothing_example :
    OnlyAlerts state (proxy scaled lib limited env request state).1
unfolding check_request_budget check_global
over_budget_reaches_nothing_example =
    over_budget_reaches_nothing scaled lib limited env service request monthly_exceeded state refl
      refl

admit-monthly_exceeded_example :
    let out = admit scaled lib limited env request (123 ∷ 125 ∷ []) "gpt-4o" "openai" state in
    (out.0 ≡ ok (some (new_json_error_response 402 (runes "monthly budget exceeded"))))
    × (holds_key (monthly_key env.utc 80) out.1.alerts.marked ≡ true)
    × (holds_key (monthly_key env.utc 90) out.1.alerts.marked ≡ true)
    × (holds_key (monthly_key env.utc 100) out.1.alerts.marked ≡ true)
admit-monthly_exceeded_example =
    admit-monthly_exceeded scaled lib limited env service (50 * scale) request (123 ∷ 125 ∷ [])
      "gpt-4o" "openai" state refl refl refl refl refl refl refl refl (λ percent. refl)
      (λ percent k a h. (h, h))

proxy-OkEntries_example : OkEntries (proxy scaled lib gateway env request state).1.cache.entries
proxy-OkEntries_example = proxy-OkEntries scaled lib gateway env (λ m w. w) request state tt

serve_replayed_example :
    let first = serve scaled lib gateway env request (123 ∷ 125 ∷ []) "gpt-4o" "openai" state in
    let env2 = record env { now = 70 } in
    let again = serve scaled lib gateway env2 request (123 ∷ 125 ∷ []) "gpt-4o" "openai" first.1 in
    (again.0 ≡ first.0) × (again.1.asked ≡ first.1.asked)
unfolding is_cacheable_request get look call_providers call_provider call_single_provider
    call_with_retry attempts_from on_reply attempt provider_retry_policy default_retry_policy
    is_streaming_response
serve_replayed_example =
    serve_replayed scaled lib gateway env request (123 ∷ 125 ∷ []) "gpt-4o" "openai" fine
      (123 ∷ 125 ∷ []) state (record env { now = 70 }) refl refl refl refl refl refl (omega arith)
