-- ===== src/Boot/Runs.antt =====
-- A start from an environment with a caller key.
use sekisho.Base.{ℕ, true, [], none, some, replicate, err, Option, Result, ok}
use sekisho.Text.{Str, lit}
use sekisho.Config.Runs as Config
use sekisho.Providers.OpenAi
use sekisho.Providers.Anthropic
use sekisho.Server.{AppState, initial_state}
use sekisho.Boot.{World}
use sekisho.Server.Surfaces
use sekisho.Server.Handlers.Reachable.{Flight}
use sekisho.Server.Handlers.Reachable as Reachable
use sekisho.Fixtures.{external}

-- An address is its text.
abbrev parse_address : Str → Result Str Str
parse_address text = ok text

-- A machine with a security module, whose context is a number here.
abbrev world : (Str → Option Str) → World ℕ Str
world env = record {
  has_nsm = true;
  nsm_context = ok 1;
  development = 0;
  env = env;
  parse_address = parse_address;
}

-- Without a port, on the default one.
abbrev default_address : Str
default_address = lit "127.0.0.1:3000"

abbrev started : AppState
unfolding initial_state
started = initial_state Config.from_env Anthropic.base_url OpenAi.base_url

-- A request with a key of the environment has its permit.
abbrev decoders : OpenAi.Decoders
decoders = record {
  request_fields = λ _. err (lit "no request");
  response = λ _. err (lit "no response");
  usage = λ _. err (lit "no usage");
}

abbrev flight : Flight external
flight = record {
  surface = Surfaces.chat_completions external decoders;
  call = record {
    headers = record { authorization = some (some (lit "Bearer key")); nonce = none };
    body = [];
    clock = some 1700000000000;
    uuid = replicate 16 5;
  };
  caller_key = lit "key";
}

abbrev held : AppState
held = record started { permits = 15 }
