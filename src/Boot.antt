-- ===== src/Boot.antt =====
-- main.rs: from the environment to a gateway and the address it listens on.
pub mod Port
pub mod Start
mod Runs
use sekisho.Base.{
  Bool, ℕ, ◌+◌, ◌-◌, ◌*◌, ◌&&◌, [], ◌∷◌, ◌++◌, Option, none, some, Result, ok, err, if◌then◌else◌,
  ltb, leb, ◌==◌, unwrap_or,
}
use sekisho.Text.{Str, lit}
use sekisho.Text.Decimal.{decimal}
use sekisho.Policy.{PolicyDocument}
use sekisho.Config.{RawConfig, ConfigError, load_from_env}
use sekisho.Providers.OpenAi
use sekisho.Providers.Anthropic
use sekisho.External.{External}
use sekisho.Server.{AppState, initial_state}

-- The digits of `u16::from_str`, behind what has been read; a number of more than 16 bits is an error.
parse_digits : ℕ → Str → Option ℕ
parse_digits n [] = some n
parse_digits n (c ∷ s) =
    let next = n * 10 + (c - b'0') in
    let rest = parse_digits next s in
    if leb b'0' c && leb c b'9' && ltb next 65536 then rest else none

parse_number : Str → Option ℕ
unfolding parse_digits
parse_number [] = none
parse_number (c ∷ s) = parse_digits 0 (c ∷ s)

-- `str::parse::<u16>`: digits, behind at most one plus sign.
pub parse_u16 : Str → Option ℕ
unfolding parse_number
parse_u16 [] = none
parse_u16 (c ∷ s) = if c == b'+' then parse_number s else parse_number (c ∷ s)

-- `env::var("PORT").ok().map(parse).transpose()?.unwrap_or(3000)`.
pub port_of : Option Str → Option ℕ
unfolding parse_u16
port_of none = some 3000
port_of (some value) = parse_u16 value

-- How `main` ends before it serves.
pub data BootError : Type 0 where
  bad_attestor : Str → BootError
  bad_config : ConfigError → BootError
  bad_port : BootError
  bad_address : Str → BootError

-- What `main` gets from the world: whether there is a `/dev/nsm`, nautilus's context with the security
-- module and without it, `std::env::var(..).ok()`, and the parser of the type `SocketAddr`. `C` is the
-- type of contexts and `A` that of addresses.
pub record World (C A : Type 0) : Type 0 where
  pub has_nsm : Bool
  pub nsm_context : Result C Str
  pub development : C
  pub env : Str → Option Str
  pub parse_address : Str → Result A Str

module _ {C A : Type 0} (world : World C A) where
  pub socket_addr : Result A BootError
  unfolding port_of
  socket_addr = elim (port_of (world.env (lit "PORT"))) [
    | none ↦ err bad_port
    | some port ↦
        elim (world.parse_address
          (unwrap_or (lit "127.0.0.1") (world.env (lit "HOST")) ++ lit ":" ++ decimal port)) [
            | err e ↦ err (bad_address e)
            | ok address ↦ ok address
          ]
  ]

  -- The switch at the top of `main`.
  pub context : Result C BootError
  context =
      if world.has_nsm
      then elim world.nsm_context [ err e ↦ err (bad_attestor e) | ok ctx ↦ ok ctx ]
      else ok world.development

  -- `main` up to `serve`, and `app`: the gateway with the providers' addresses that are compiled in.
  pub boot :
      External
      → (Str → Result PolicyDocument Str)
      → (Str → Result Str Str)
      → (Str → Result RawConfig Str)
      → Result (A × C × AppState) BootError
  unfolding socket_addr context
  boot x parse_policy read parse = elim context [
    | err e ↦ err e
    | ok ctx ↦ elim (load_from_env x world.env parse_policy read parse) [
      | err e ↦ err (bad_config e)
      | ok config ↦ elim socket_addr [
        | err e ↦ err e
        | ok address ↦ ok (address, ctx, initial_state config Anthropic.base_url OpenAi.base_url)
      ]
    ]
  ]
