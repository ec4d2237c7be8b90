-- ===== src/Boot/Start.antt =====
-- main.rs: the gateway that is started, and what becomes of it.
use sekisho.Providers.OpenAi
use sekisho.Providers.Anthropic
use sekisho.External.{External}
use sekisho.Server.Handlers.Reachable.{Reachable}
