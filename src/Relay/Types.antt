-- ===== src/Relay/Types.antt =====
-- The state of `LspRelay` (lib/lsp-relay.ts). A session is the number under which `makeSession` made it;
-- what the relay does to the sessions, to the client and to its status listener is the list `out`, in
-- order. An options value is what `restart` was given.
use Prim.Native.String.{String}
use qed.Common.{ℕ, Bool, Option, none, List, [], ◌∷◌}
use qed.Common.Json.{Json}

pub data Reason : Type 0 where
  boot crash heartbeat wedged user boot_failed : Reason

pub data State : Type 0 where
  serving halted : State
  rebooting : Reason → State

-- The cause of a death: what is read of a FailureCause.
pub record Cause : Type 0 where
  pub code : Option String
  pub line : Option ℕ

pub record Death : Type 0 where
  pub reason : String
  pub message : String
  pub seq : ℕ
  pub session : ℕ
  pub exit_code : Option ℕ
  pub cause : Option Cause

pub record Doc : Type 0 where
  pub uri : Option Json
  pub language : Option Json
  pub version : Option Json

pub record Call : Type 0 where
  pub id : Json
  pub method : String

-- The kind of an answer that the relay gives itself.
pub data Kind : Type 0 where
  orphaned restart stack_limit repeated_crashes : Kind

-- What the relay does: `failed` answers a request with the code -32900 if `reconnect`, and -32603
-- otherwise; `noted` is the diagnostic of a halt, on a line of a length.
pub data Effect : Type 0 where
  passed : Json → Effect
  failed : Json → Bool → Kind → Effect
  noted : Doc → Bool → ℕ → ℕ → Effect
  forwarded : ℕ → Json → Bool → Effect
  reopened : ℕ → Doc → String → Effect
  made : ℕ → Option Json → Effect
  started armed disposed terminated : ℕ → Effect
  told : Effect

pub record Stats : Type 0 where
  pub reboots : ℕ
  pub user_restarts : ℕ
  pub worker_deaths : ℕ
  pub breaker_trips : ℕ
  pub stack_pauses : ℕ
  pub failed_in_flight : ℕ
  pub stale_deaths : ℕ
  pub ranged_changes : ℕ

pub record Relay : Type 0 where
  pub state : State
  pub session : ℕ
  pub initialize : Option Json
  pub doc : Option Doc
  pub last_text : String
  pub pending : List Call
  pub deaths : List ℕ
  pub last_status : Option Json
  pub last_death : Option Death
  pub restart_opts : Option Json
  pub restart_header : List String
  pub stats : Stats
  pub out : List Effect

-- The relay that the constructor leaves, with its first session on its way.
abbrev pub create : Relay
create = record {
  state = rebooting boot;
  session = 0;
  initialize = none;
  doc = none;
  last_text = "";
  pending = [];
  deaths = [];
  last_status = none;
  last_death = none;
  restart_opts = none;
  restart_header = [];
  stats = record {
    reboots = 0;
    user_restarts = 0;
    worker_deaths = 0;
    breaker_trips = 0;
    stack_pauses = 0;
    failed_in_flight = 0;
    stale_deaths = 0;
    ranged_changes = 0;
  };
  out = made 0 none ∷ started 0 ∷ [];
}
