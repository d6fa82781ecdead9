-- ===== src/Relay/Breaker.antt =====
-- The breaker and the halt of lib/lsp-relay.ts over a whole run.
use Prim.Native.String.{String}
use qed.Common.{ℕ, List}
use qed.Common.Json.{Json}
use qed.Relay.Types.{Call, Relay}
use qed.Relay.Types.{State}

-- What the invariant reads, and whose session runs.
abbrev pub view : Relay → State × List Call × List ℕ
view r = (r.state, r.pending, r.deaths)
