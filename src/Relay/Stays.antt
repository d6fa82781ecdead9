-- ===== src/Relay/Stays.antt =====
-- How long a halt of lib/lsp-relay.ts lasts.
use Prim.Native.String.{String}
use qed.Common.{
  ℕ, ◌+◌, ◌≡◌, refl, ap, ◌∙◌, Bool, true, false, not, ◌&&◌, ◌||◌, Option, none, some, ◌==◌,
  if◌then◌else◌, if_rule,
}
use qed.Common.Json.{Json, get, is_text}
use qed.FrontDoor.Machine.{has_method, is_request, did_change}
use qed.Relay.Machine.{emit, is_halted, is_serving, bury, on_died, rearm, restart_with}
use qed.Relay.Types.{serving, halted, rebooting, Cause, Doc, told, Relay}
use qed.Relay.Run.{
  remember, memory, with_memory, is_ranged, count_ranged, forward, refuse, from_client, settle_call,
  replay_initialize, replay_doc, Event, client, server, status_of, died, settled, boot_done,
  boot_ready, boot_rejected, restarted, rearmed, unloaded, happen,
}
use qed.Common.{arith}
use qed.Relay.Types.{State, passed, started, armed}
use qed.Relay.Run.{is_lawful}

-- What ends a halt: a change by the client, or a call of `rearm`.
abbrev pub wakes : Event → Bool
wakes (client msg) = not (is_request msg) && has_method msg did_change
wakes rearmed = true
wakes _ = false

-- Who is asked, and whether anyone is.
abbrev pub seat : Relay → State × ℕ
seat r = (r.state, r.session)

refuse-seat : (id : Option Json) (r : Relay) → seat (refuse id r) ≡ seat r
refuse-seat none r = refl
refuse-seat (some id) r = refl

count_ranged-seat :
    (msg : Json) (doc : Option Doc) (r : Relay) → seat (count_ranged msg doc r) ≡ seat r
count_ranged-seat msg doc r =
    let stats = r.stats in
    if_rule (λ t. seat t ≡ seat r) (is_ranged msg doc)
      (record r { stats = record stats { ranged_changes = stats.ranged_changes + 1 } }) r
      (λ _. refl) λ _. refl

settle_call-seat : (id method : Option Json) (r : Relay) → seat (settle_call id method r) ≡ seat r
settle_call-seat (some id) none r = refl
settle_call-seat none method r = refl
settle_call-seat (some id) (some method) r = refl

replay-seat :
    (at : ℕ) (d : Option Doc) (i : Option Json) (r : Relay)
    → seat (replay_doc d at (replay_initialize i at r)) ≡ seat r
replay-seat at none none r = refl
replay-seat at none (some i) r = refl
replay-seat at (some d) none r = refl
replay-seat at (some d) (some i) r = refl

from_client-seat :
    (msg : Json) (r : Relay)
    → is_halted r.state ≡ true
    → (not (is_request msg) && has_method msg did_change) ≡ false
    → seat (from_client msg r) ≡ seat r
unfolding from_client
from_client-seat msg r h w =
    let stored = with_memory (remember msg (memory r)) r in
    let known = count_ranged msg r.doc stored in
    let same : seat known ≡ seat r = count_ranged-seat msg r.doc stored in
    let refused = refuse (get "id" msg) known in
    let woken = forward msg (rearm known) in
    let P : Relay → Type 0 = λ t. seat t ≡ seat r in
    if_rule P (is_halted r.state)
      (if is_request msg then refused else if has_method msg did_change then woken else known)
      (forward msg known)
      (λ _.
        if_rule P (is_request msg) refused (if has_method msg did_change then woken else known)
          (λ _. refuse-seat (get "id" msg) known ∙ same)
          λ c.
            if_rule P (has_method msg did_change) woken known
              (λ d. absurd (ground (arith, w, c, d))) λ _. same)
      λ c. absurd (ground (arith, h, c))

on_died-seat :
    (now dead : ℕ) (reason message : String) (cause : Option Cause) (code : Option ℕ) (r : Relay)
    → is_halted r.state ≡ true
    → seat (on_died now dead reason message cause code r) ≡ seat r
unfolding on_died
on_died-seat now dead reason message cause code r h =
    ap (λ b. seat (if not (dead == r.session) || b then stale else buried)) h
    ∙ ap (λ b. seat (if b then stale else buried)) (either (not (dead == r.session)))
  where
    stale : Relay
    stale =
        let stats = r.stats in
        record r { stats = record stats { stale_deaths = stats.stale_deaths + 1 } }

    buried : Relay
    buried =
        let stats = r.stats in
        let count = stats.worker_deaths + 1 in
        bury now dead reason cause (record r {
          stats = record stats { worker_deaths = count };
          last_death = some (record {
            reason = reason;
            message = message;
            seq = count;
            session = dead;
            exit_code = code;
            cause = cause;
          });
        })

    either : (a : Bool) → (a || true) ≡ true
    either true = refl
    either false = refl

restart_with-seat :
    (opts : Json) (r : Relay) → is_halted r.state ≡ true → seat (restart_with opts r) ≡ seat r
unfolding restart_with
restart_with-seat opts r h = rw (not_serving r.state h) refl
  where
    not_serving : (s : State) → is_halted s ≡ true → is_serving s ≡ false
    not_serving halted h = refl
    not_serving serving h = absurd (ground (arith, h))
    not_serving (rebooting reason) h = refl

-- A halt lasts until the client changes the document or `rearm` is called: of a halted relay no other
-- event changes the state or makes a session, as long as no session becomes ready that has halted it.
pub happen-seat :
    (now : ℕ) (e : Event) (r : Relay)
    → is_halted r.state ≡ true
    → wakes e ≡ false
    → is_lawful e r ≡ true
    → seat (happen now e r) ≡ seat r
unfolding happen
happen-seat now (client msg) r h w l = from_client-seat msg r h w
happen-seat now (server from msg) r h w l =
    if_rule (λ t. seat t ≡ seat r) (from == r.session)
      (emit (passed msg) (settle_call (get "id" msg) (get "method" msg) r)) r
      (λ _. settle_call-seat (get "id" msg) (get "method" msg) r) λ _. refl
happen-seat now (status_of from st) r h w l =
    let seen = record r { last_status = some st } in
    let alive = record seen { last_death = none } in
    if_rule (λ t. seat t ≡ seat r) (from == r.session)
      (emit told (if is_text (get "phase" st) "ready" then alive else seen)) r
      (λ _.
        if_rule (λ t. seat (emit told t) ≡ seat r) (is_text (get "phase" st) "ready") alive seen
          (λ _. refl) λ _. refl)
      λ _. refl
happen-seat now (died at reason message cause code) r h w l =
    on_died-seat now at reason message cause code r h
happen-seat now (settled at) r h w l =
    if_rule (λ t. seat t ≡ seat r) (at == r.session) (emit (started at) r) r (λ _. refl) λ _. refl
happen-seat now (boot_done at) r h w l =
    if_rule (λ t. seat t ≡ seat r) (at == r.session)
      (emit (armed at) (replay_doc r.doc at (replay_initialize r.initialize at r))) r
      (λ _. replay-seat at r.doc r.initialize r) λ _. refl
happen-seat now (boot_ready at) r h w l =
    if_rule (λ t. seat t ≡ seat r) (at == r.session) (emit told (record r { state = serving })) r
      (λ c. absurd (ground (arith, h, l, c))) λ _. refl
happen-seat now (boot_rejected at message cause) r h w l =
    if_rule (λ t. seat t ≡ seat r) (at == r.session && not (is_halted r.state))
      (on_died now at "bootFailed" message cause none r) r
      (λ _. on_died-seat now at "bootFailed" message cause none r h) λ _. refl
happen-seat now (restarted opts) r h w l = restart_with-seat opts r h
happen-seat now rearmed r h w l = absurd (ground (arith, w))
happen-seat now unloaded r h w l = refl
