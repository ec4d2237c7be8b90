-- ===== src/Canonical/Runs.antt =====
-- A request with each kind of block.
use sekisho.Base.{false, [], ◌∷◌, none, some, ◌≡◌, refl}
use sekisho.Text.{lit}
use sekisho.Json.{null, string}
use sekisho.Canonical.Serialize.Responses.{response_value-injective}
use sekisho.Canonical.{
  CanonicalRequest, CanonicalResponse, ProviderMeta, user, tool, assistant, text, tool_use,
  tool_result, opaque,
}
use sekisho.Canonical.Serialize.Commits.{request_value-injective}

abbrev request : CanonicalRequest
request = record {
  model = lit "gpt-4o";
  system = some (lit "Be brief.");
  messages =
      record { role = user; content = text (lit "Hello") ∷ opaque (lit "image") (lit "00ff") ∷ [] }
      ∷ record { role = assistant; content = tool_use (lit "t1") (lit "now") null ∷ [] }
      ∷ record { role = tool; content = tool_result (lit "t1") (lit "noon") false ∷ [] }
      ∷ [];
  tools = record { name = lit "now"; description = none; input_schema = string (lit "s") } ∷ [];
  tool_choice = none;
  max_tokens = some 100;
  temperature = none;
}

request_value-injective_example : request ≡ request
request_value-injective_example = request_value-injective request request tt tt refl

abbrev response : CanonicalResponse
response = record {
  model = lit "gpt-4o";
  content = text (lit "Hello") ∷ tool_use (lit "t1") (lit "now") null ∷ [];
  stop_reason = lit "stop";
  usage = record {
    input_tokens = 12;
    cache_creation_tokens = 0;
    cache_read_tokens = 3;
    output_tokens = 4;
  };
}

abbrev meta : ProviderMeta
meta = record {
  stop_reason = lit "stop";
  service_tier = some (lit "default");
  inference_geo = none;
}

response_value-injective_example : (response ≡ response) × (meta ≡ meta)
response_value-injective_example = response_value-injective response response meta meta refl refl
