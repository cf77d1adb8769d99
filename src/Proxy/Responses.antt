-- ===== src/Proxy/Responses.antt =====
-- internal/gateway/response.go and cache.go: the responses that the gateway makes, and the keys of its
-- cache.
use costguard.Base.{
  ℕ, ◌+◌, String, Bool, true, false, not, List, [], ◌∷◌, ◌++◌, none, some, str_eq, if◌then◌else◌,
  Dict, lookup, insert, length, contains, any,
}
use costguard.Cache.{Entry}
use costguard.Proxy.Types.{Library, Request, HttpResponse, buffered, error_json}

abbrev json_header : Dict (List String)
json_header = ("Content-Type", "application/json" ∷ []) ∷ []

unfoldable pub new_json_error_response_categorized : ℕ → List ℕ → String → String → HttpResponse
new_json_error_response_categorized status message error_type category = record {
  status_code = status;
  header = json_header;
  body =
      error_json
        (record { message = message; error_type = error_type; code = ""; category = category });
}

unfoldable pub new_json_error_response : ℕ → List ℕ → HttpResponse
new_json_error_response status message = record {
  status_code = status;
  header = json_header;
  body = error_json (record { message = message; error_type = ""; code = ""; category = "" });
}

abbrev pub kept_headers : List String
kept_headers =
    "Content-Type" ∷ "Openai-Organization" ∷ "Openai-Processing-Ms" ∷ "Openai-Project"
    ∷ "Openai-Version" ∷ []

unfoldable pub clone_header : Library → Dict (List String) → Dict (List String)
clone_header lib [] = []
clone_header lib ((k, values) ∷ h) =
    let rest = clone_header lib h in
    if any (str_eq (lib.canonical_header_key k)) kept_headers then (k, values) ∷ rest else rest

abbrev pub header_of : Entry → Dict (List String)
header_of e = elim e.header [ none ↦ [] | some h ↦ h ]

unfoldable pub response_from_cache_entry : Library → Entry → HttpResponse
response_from_cache_entry lib e = record {
  status_code = e.status_code;
  header = insert "Content-Length" (lib.itoa (length e.body) ∷ []) (header_of e);
  body = buffered e.body;
}

unfoldable pub cache_entry_from_response : Library → ℕ → Dict (List String) → List ℕ → ℕ → ℕ → Entry
cache_entry_from_response lib status header body now ttl = record {
  status_code = status;
  header = some (clone_header lib header);
  body = body;
  expires_at = now + ttl;
}

-- `h.Get(k)`
abbrev pub header_get : String → Dict (List String) → String
header_get k h = elim (lookup k h) [
  | none ↦ ""
  | some values ↦ elim values [ [] ↦ "" | v ∷ vs ↦ v ]
]

unfoldable pub is_streaming_response : Dict (List String) → Bool
is_streaming_response h = contains "text/event-stream" (header_get "Content-Type" h)

unfoldable pub is_cacheable_request : Library → Request → List ℕ → Bool
is_cacheable_request lib r body =
    if not (str_eq r.method "POST")
    then false
    else if not (str_eq r.path "/v1/chat/completions")
    then false
    else elim (lib.stream_field body) [ none ↦ true | some stream ↦ not stream ]

unfoldable pub write_key_part : Library → String → List ℕ → List ℕ
write_key_part lib value rest = lib.utf8 value ++ (0 ∷ rest)

-- What is written into the hash.
unfoldable pub key_bytes : Library → Request → List ℕ → String → String → String → String → List ℕ
unfolding write_key_part
key_bytes lib r body requested_provider requested_mode selected_provider effective_model =
    write_key_part lib r.method (
      write_key_part lib r.path (
        write_key_part lib r.raw_query (
          write_key_part lib (lib.trim_space requested_provider) (
            write_key_part lib (lib.trim_space (lib.to_lower requested_mode)) (
              write_key_part lib (lib.trim_space selected_provider)
                (write_key_part lib (lib.trim_space effective_model) body))))))

unfoldable pub build_cache_key :
    Library → Request → List ℕ → String → String → String → String → String
build_cache_key lib r body requested_provider requested_mode selected_provider effective_model =
    lib.hex_sha256
      (key_bytes lib r body requested_provider requested_mode selected_provider effective_model)
