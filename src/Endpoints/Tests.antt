-- ===== src/Endpoints/Tests.antt =====
-- internal/gateway/audio.go, speech.go and embeddings.go: the theorems at a gateway that is over its
-- budget.
use costguard.Base.{ℕ, String, List, [], none, some, ok, Option}
use costguard.Base.Float.Scaled.{scaled}
use costguard.Gateway.Errors.{plain_error}
use costguard.Gateway.Retry.{Reply, errored}
use costguard.Proxy.Tests.{lib, request, gateway, env, state}
use costguard.Endpoints.Settings.{Settings, LocalRequest}
use costguard.Endpoints.Multipart.{Forms}
use costguard.Endpoints.Embeddings.{proxy_embeddings}
use costguard.Endpoints.Guarded.{CostsNothing, proxy_embeddings-CostsNothing}

abbrev forms : Forms
forms = record {
  boundary_of = λ s. ok none;
  parts_of = λ boundary body. ([], none);
  write = λ parts. ([], "");
  text_of = λ s. "";
}

abbrev input_of : List ℕ → Option String
input_of body = some "hello"

abbrev settings : Settings
settings = record {
  audio_transcription_provider = "openai";
  audio_transcription_url = "";
  audio_transcription_model = "";
  audio_tts_provider = "openai";
  audio_tts_url = "";
  audio_tts_model = "";
  embedding_provider_name = "openai";
  embedding_model = "";
}

abbrev local : LocalRequest → Reply scaled
local r = errored (plain_error [])

abbrev usage_of : List ℕ → Option (ℕ × ℕ)
usage_of body = some (8, 8)

proxy_embeddings-CostsNothing_example :
    CostsNothing scaled lib usage_of gateway settings env state.saved
      (proxy_embeddings scaled lib usage_of gateway settings env request state).1.saved
proxy_embeddings-CostsNothing_example =
    proxy_embeddings-CostsNothing scaled lib usage_of gateway settings env request state
