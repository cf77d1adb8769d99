-- ===== src/Proxy/Types.antt =====
-- internal/gateway/gateway.go, internal/providers/provider.go and internal/usage/record.go: what the
-- gateway is made of. The fields of `Gateway` that never change are `Gateway`; what its parts hold is
-- `State`; what the world outside answers to one request is `Environment`.
use costguard.Base.{ℕ, String, Bool, List, Option, Dict, Result}
use costguard.Base.Float.{Float}
use costguard.Json.{Value}
use costguard.Metering.Prices.{Price}
use costguard.Router.{Router}
use costguard.Budget.{Service}
use costguard.Budget.Calendar.{UtcTime}
use costguard.Alerts.{Alerts, Outside, Meanwhile}
use costguard.Cache.{Memory}
use costguard.Breaker.Registry.{Registry}
use costguard.Gateway.Errors.{GoError}
use costguard.Gateway.Retry.{RetryPolicy, World}
use costguard.Gateway.Calls.{Upstream, Report}
use costguard.Gateway.Meter.{StreamMeter}

-- The calls of Go's standard library. A `json.Unmarshal` into a struct is the field that is read of
-- it, or nothing where it fails; that into `openAIUsageResponse` is whether it succeeds.
pub record Library : Type 0 where
  pub trim_space : String → String
  pub to_lower : String → String
  pub canonical_header_key : String → String
  pub itoa : ℕ → String
  pub utf8 : String → List ℕ
  pub hex_sha256 : List ℕ → String
  pub model_field : List ℕ → Option String
  pub stream_field : List ℕ → Option Bool
  pub message_contents : List ℕ → Option (List Value)
  pub is_usage_response : List ℕ → Bool
  pub unmarshal_map : List ℕ → Result GoError (Dict Value)
  pub marshal_map : Dict Value → Result GoError (List ℕ)

-- `http.Request`, with the headers that the gateway reads, and what reading its body gives.
pub record Request : Type 0 where
  pub method : String
  pub path : String
  pub raw_query : String
  pub provider_header : String
  pub mode_header : String
  pub team : String
  pub project : String
  pub user : String
  pub agent : String
  pub request_id : String
  pub body : Result GoError (List ℕ)

pub record ResponseMeta : Type 0 where
  pub model : String
  pub prompt_tokens : ℕ
  pub completion_tokens : ℕ
  pub total_tokens : ℕ
  pub cache_creation_input_tokens : ℕ
  pub cache_read_input_tokens : ℕ

-- The methods of a provider that read; the calls of it are in `Environment`.
pub record Provider : Type 0 where
  pub family : String
  pub parse_response_meta : List ℕ → Result GoError ResponseMeta

pub record ErrorBody : Type 0 where
  pub message : List ℕ
  pub error_type : String
  pub code : String
  pub category : String

-- A body that is an error as JSON, that is held in memory, that was not read (by its name), or that
-- is metered while it is read; or no body.
pub data Body : Type 0 where
  error_json : ErrorBody → Body
  buffered : List ℕ → Body
  unread : ℕ → Body
  metered : ℕ → StreamMeter → Body
  nil_body : Body

-- `http.Response`, without the text of the status line.
pub record HttpResponse : Type 0 where
  pub status_code : ℕ
  pub header : Dict (List String)
  pub body : Body

-- The header of an upstream's response, and what reading its body gives, if it has one.
pub record Payload : Type 0 where
  pub header : Dict (List String)
  pub body : Option (Result GoError (List ℕ))

module _ (f : Float) where
  open f use {Carrier}

  -- `usage.Record`
  pub record Record : Type 0 where
    pub request_id : String
    pub timestamp : ℕ
    pub provider : String
    pub model : String
    pub prompt_tokens : ℕ
    pub completion_tokens : ℕ
    pub total_tokens : ℕ
    pub estimated_cost_usd : Carrier
    pub price_found : Bool
    pub cache_hit : Bool
    pub metering_estimated : Bool
    pub team : String
    pub project : String
    pub user : String
    pub agent : String
    pub path : String
    pub status_code : ℕ

  -- The parts that are pointers or interfaces: whether they are there, or which they are. A
  -- `cache_ttl` that is not positive is 0.
  pub record Gateway : Type 0 where
    pub router : Router f
    pub registry : Dict Provider
    pub fallback : String
    pub model_compatibility : Dict (Dict String)
    pub has_cache : Bool
    pub cache_ttl : ℕ
    pub usage_store : Bool
    pub budget_checker : Option (Service f)
    pub alert_store : Bool
    pub notifier : Bool
    pub log : Bool
    pub mode_to_provider : Dict String
    pub retry_policies : Dict RetryPolicy
    pub breakers : Bool
    pub config_prices : Dict (Dict (Price Carrier))

  -- `asked` are the calls of providers, one for each attempt, with the bodies, and `outcomes` what the
  -- health tracker was told.
  pub record State : Type 0 where
    pub alerts : Alerts
    pub cache : Memory
    pub breakers : Registry
    pub saved : List Record
    pub asked : List (String × List ℕ)
    pub outcomes : List (String × Report)

  -- The time, which calls of the alert store and the notifier fail (by the threshold), whether the
  -- usage store fails, what others do to the alerts, the cache and the breakers meanwhile, which key a full cache
  -- drops, how the attempts to call a provider end, and what the responses hold.
  pub record Environment : Type 0 where
    pub now : ℕ
    pub later : ℕ
    pub utc : UtcTime
    pub outside : ℕ → Outside
    pub others_alerts : ℕ → Meanwhile
    pub save_fails : Bool
    pub others_cache : Memory → Memory
    pub others_breakers : Registry → Registry
    pub pick : ℕ
    pub upstream : String → List ℕ → ℕ → Upstream f
    pub world : World f
    pub payload_of : ℕ → Payload
