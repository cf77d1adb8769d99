-- ===== src/Endpoints/Settings.antt =====
-- internal/gateway/gateway.go, audio.go and speech.go: what the endpoints are configured with, and the
-- parts of their handlers that audio and speech have in common.
use costguard.Base.{ℕ, String, List, Option, none, some, Result, Dict, delete}
use costguard.Base.Float.{Float}
use costguard.Budget.{BudgetError, check_request_budget}
use costguard.Gateway.Errors.{GoError}
use costguard.Gateway.Retry.{Response}
use costguard.Proxy.Types.{Request, Gateway, State, Environment, HttpResponse, unread, nil_body}

-- The fields of `Gateway` that only these endpoints read.
pub record Settings : Type 0 where
  pub audio_transcription_provider : String
  pub audio_transcription_url : String
  pub audio_transcription_model : String
  pub audio_tts_provider : String
  pub audio_tts_url : String
  pub audio_tts_model : String
  pub embedding_provider_name : String
  pub embedding_model : String

-- A request to a server of the operator's own: the URL in its parts, without a query where that is
-- empty.
pub record LocalRequest : Type 0 where
  pub method : String
  pub target : String
  pub path : String
  pub raw_query : String
  pub header : Dict (List String)
  pub body : List ℕ

-- The headers without those that are Costguard's own.
abbrev pub without_hints : Dict (List String) → Dict (List String)
without_hints h = delete "X-Costguard-Mode" (delete "X-Costguard-Provider" h)

module _ (f : Float) (g : Gateway f) (env : Environment f) where
  -- What an endpoint returns and leaves, with what it has sent to a server of the operator's own.
  abbrev pub Served : Type 0
  Served = (Result GoError (Option HttpResponse) × State f) × List LocalRequest

  -- `g.budgetChecker.CheckRequestBudget(…)`, if there is a checker.
  abbrev pub over_budget : Request → Option BudgetError
  over_budget r = elim g.budget_checker [
    | none ↦ none
    | some b ↦ check_request_budget f b env.utc r.team r.project r.agent
  ]

  -- A response as it is returned where its body is not read.
  abbrev pub passed : Response f → HttpResponse
  passed resp =
      let payload = env.payload_of resp.content in
      record {
        status_code = resp.status_code;
        header = payload.header;
        body = elim payload.body [ none ↦ nil_body | some reading ↦ unread resp.content ];
      }
