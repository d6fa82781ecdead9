-- ===== src/Relay/Memory.antt =====
-- What lib/lsp-relay.ts remembers of the client, over deaths, halts and boots.
use Prim.Native.String.{String}
use qed.Common.{
  ℕ, ◌+◌, ◌≡◌, refl, ◌∙◌, false, not, ◌&&◌, ◌||◌, Option, none, some, List, [], ◌∷◌, ◌++◌, ltb,
  ◌==◌, if◌then◌else◌, if_rule,
}
use qed.Common.Lists.{length}
use qed.Common.Json.{Json, get, text_of, is_some}
use qed.FrontDoor.Machine.{has_method, is_request, did_change}
use qed.Relay.Machine.{
  emit, header_of, same_lines, forget_opts, reboot_with, reboot, is_rpc, fail_calls, fail_in_flight,
  cause_is_stack, note_of, halt, is_halted, is_serving, reason_of, recent, breaker, breaker_deaths,
  bury, on_died, rearm, restart_with,
}
use qed.Relay.Types.{
  Reason, halted, rebooting, user, Cause, Doc, Call, Kind, orphaned, restart, failed, disposed,
  told, Relay,
}
use qed.Relay.Run.{
  remember, memory, with_memory, is_ranged, count_ranged, pend, forward, refuse, from_client,
}

forget_opts-memory : (r : Relay) → memory (forget_opts r) ≡ memory r
unfolding forget_opts
forget_opts-memory r =
    if_rule (λ t. memory t ≡ memory r)
      (is_some r.restart_opts && not (same_lines (header_of r.last_text) r.restart_header))
      (record r { restart_opts = none }) r (λ _. refl) λ _. refl

pub reboot-memory : (reason : Reason) (r : Relay) → memory (reboot reason r) ≡ memory r
unfolding reboot
reboot-memory reason r = forget_opts-memory r

fail_calls-memory :
    (kind : Kind) (cs : List Call) (r : Relay) → memory (fail_calls kind cs r) ≡ memory r
fail_calls-memory kind [] r = refl
fail_calls-memory kind (c ∷ cs) r =
    let stats = r.stats in
    fail_calls-memory kind cs (
      emit (failed c.id (is_rpc c.method) kind) (record r {
        pending = cs;
        stats = record stats { failed_in_flight = stats.failed_in_flight + 1 };
      }))

fail_in_flight-memory :
    (kind : Kind) (next : Reason) (r : Relay) → memory (fail_in_flight kind next r) ≡ memory r
unfolding fail_in_flight
fail_in_flight-memory kind next r =
    fail_calls-memory kind r.pending (record r { state = rebooting next })

note_of-memory : (doc : Option Doc) (r : Relay) → memory (note_of doc r) ≡ memory r
note_of-memory none r = refl
note_of-memory (some doc) r = refl

halt-memory : (r : Relay) → memory (halt r) ≡ memory r
unfolding halt
halt-memory r = note_of-memory r.doc (emit told (record r { state = halted }))

breaker-memory :
    (next : Reason) (deaths : List ℕ) (r : Relay) → memory (breaker next deaths r) ≡ memory r
breaker-memory next deaths r =
    let counted = record r { deaths = deaths } in
    let stats = r.stats in
    let tripped = record counted {
      stats = record stats { breaker_trips = stats.breaker_trips + 1 };
      restart_opts = none;
    } in
    if_rule (λ t. memory t ≡ memory r) (ltb (length deaths) breaker_deaths) (reboot next counted)
      (halt tripped) (λ _. reboot-memory next counted) λ _. halt-memory tripped

bury-memory :
    (now dead : ℕ) (reason : String) (cause : Option Cause) (r : Relay)
    → memory (bury now dead reason cause r) ≡ memory r
bury-memory now dead reason cause r =
    let failed = fail_in_flight orphaned (reason_of reason) r in
    let gone = emit (disposed dead) failed in
    let stats = gone.stats in
    let paused = record gone { stats = record stats { stack_pauses = stats.stack_pauses + 1 } } in
    let deaths = recent now gone.deaths ++ now ∷ [] in
    if_rule (λ t. memory t ≡ memory r) (cause_is_stack cause) (halt paused)
      (breaker (reason_of reason) deaths gone)
      (λ _. halt-memory paused ∙ fail_in_flight-memory orphaned (reason_of reason) r)
      λ _.
        breaker-memory (reason_of reason) deaths gone
        ∙ fail_in_flight-memory orphaned (reason_of reason) r

pub on_died-memory :
    (now dead : ℕ) (reason message : String) (cause : Option Cause) (code : Option ℕ) (r : Relay)
    → memory (on_died now dead reason message cause code r) ≡ memory r
unfolding on_died
on_died-memory now dead reason message cause code r =
    let stats = r.stats in
    let count = stats.worker_deaths + 1 in
    let counted = record r {
      stats = record stats { worker_deaths = count };
      last_death = some (record {
        reason = reason;
        message = message;
        seq = count;
        session = dead;
        exit_code = code;
        cause = cause;
      });
    } in
    if_rule (λ t. memory t ≡ memory r) (not (dead == r.session) || is_halted r.state)
      (record r { stats = record stats { stale_deaths = stats.stale_deaths + 1 } })
      (bury now dead reason cause counted) (λ _. refl)
      λ _. bury-memory now dead reason cause counted

pub rearm-memory : (r : Relay) → memory (rearm r) ≡ memory r
unfolding rearm
rearm-memory r =
    if_rule (λ t. memory t ≡ memory r) (is_halted r.state) (reboot user (record r { deaths = [] }))
      r (λ _. reboot-memory user (record r { deaths = [] })) λ _. refl

pub restart_with-memory : (opts : Json) (r : Relay) → memory (restart_with opts r) ≡ memory r
unfolding restart_with
restart_with-memory opts r =
    let stats = r.stats in
    let chosen = record r {
      stats = record stats { user_restarts = stats.user_restarts + 1 };
      restart_opts = some opts;
      restart_header = header_of r.last_text;
    } in
    let failed = fail_in_flight restart user chosen in
    if_rule (λ t. memory t ≡ memory r) (is_serving r.state)
      (reboot_with user false (some opts) (emit (disposed r.session) failed)) r
      (λ _. fail_in_flight-memory restart user chosen) λ _. refl

pend-memory :
    (id : Option Json) (method : Option String) (r : Relay) → memory (pend id method r) ≡ memory r
pend-memory (some id) (some method) r = refl
pend-memory none method r = refl
pend-memory (some id) none r = refl

refuse-memory : (id : Option Json) (r : Relay) → memory (refuse id r) ≡ memory r
refuse-memory none r = refl
refuse-memory (some id) r = refl

pub from_client-memory :
    (msg : Json) (r : Relay) → memory (from_client msg r) ≡ remember msg (memory r)
unfolding from_client
from_client-memory msg r =
    let stored = with_memory (remember msg (memory r)) r in
    let known = count_ranged msg r.doc stored in
    let stats = stored.stats in
    let P : Relay → Type 0 = λ t. memory t ≡ remember msg (memory r) in
    let same : memory known ≡ remember msg (memory r) =
      if_rule P (is_ranged msg r.doc)
        (record stored { stats = record stats { ranged_changes = stats.ranged_changes + 1 } })
        stored (λ _. refl) λ _. refl in
    let refused = refuse (get "id" msg) known in
    let woken = forward msg (rearm known) in
    if_rule P (is_halted r.state)
      (if is_request msg then refused else if has_method msg did_change then woken else known)
      (forward msg known)
      (λ _.
        if_rule P (is_request msg) refused (if has_method msg did_change then woken else known)
          (λ _. refuse-memory (get "id" msg) known ∙ same)
          λ _.
            if_rule P (has_method msg did_change) woken known
              (λ _.
                pend-memory (get "id" msg) (text_of (get "method" msg)) (rearm known)
                ∙ rearm-memory known
                ∙ same)
              λ _. same)
      λ _. pend-memory (get "id" msg) (text_of (get "method" msg)) known ∙ same
