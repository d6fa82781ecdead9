-- ===== src/Relay/Halted.antt =====
-- The breaker and the halt of lib/lsp-relay.ts.
use Prim.Native.String.{String}
use qed.Common.{
  ℕ, ◌+◌, ◌≡◌, refl, ap, ◌∙◌, Bool, true, false, not, ◌&&◌, ◌||◌, Option, none, some, List, [], ◌∷◌,
  ◌++◌, ltb, ◌==◌, if_rule,
}
use qed.Common.Lists.{length}
use qed.Common.Json.{Json, is_some}
use qed.Relay.Machine.{
  emit, header_of, same_lines, forget_opts, reboot_with, reboot, is_rpc, fail_calls, fail_in_flight,
  cause_is_stack, note_of, halt, is_halted, is_serving, reason_of, recent, breaker, breaker_deaths,
  bury, on_died, rearm, restart_with,
}
use qed.Relay.Types.{
  Reason, serving, halted, rebooting, user, Cause, Doc, Call, Kind, orphaned, restart, failed,
  disposed, told, Relay,
}
use qed.Common.{arith}
use qed.Relay.Types.{State}
use qed.Relay.Answered.{fail_calls-out, note_of-out}

abbrev pub has_none : List Call → Bool
has_none [] = true
has_none (_ ∷ _) = false

abbrev pub sound_of : State → List Call → List ℕ → Bool
sound_of halted pending deaths = has_none pending
sound_of serving pending deaths = ltb (length deaths) breaker_deaths
sound_of (rebooting reason) pending deaths = ltb (length deaths) breaker_deaths

-- A relay that is halted has no request pending; one that is not has had fewer deaths than trip the
-- breaker.
abbrev pub is_sound : Relay → Bool
is_sound r = sound_of r.state r.pending r.deaths

note_of-state : (d : Option Doc) (r : Relay) → (note_of d r).state ≡ r.state
note_of-state none r = refl
note_of-state (some doc) r = refl

halt-is_sound : (r : Relay) → r.pending ≡ [] → is_sound (halt r) ≡ true
unfolding halt
halt-is_sound r e =
    let stopped = emit told (record r { state = halted }) in
    ap (λ s. sound_of s (halt r).pending (halt r).deaths) (note_of-state r.doc stopped)
    ∙ ap has_none ((note_of-out r.doc stopped).0 ∙ e)

reboot-is_sound :
    (reason : Reason) (r : Relay)
    → ltb (length r.deaths) breaker_deaths ≡ true
    → is_sound (reboot reason r) ≡ true
unfolding reboot forget_opts
reboot-is_sound reason r h =
    if_rule (λ t. ltb (length t.deaths) breaker_deaths ≡ true)
      (is_some r.restart_opts && not (same_lines (header_of r.last_text) r.restart_header))
      (record r { restart_opts = none }) r (λ _. h) λ _. h

breaker-is_sound :
    (next : Reason) (deaths : List ℕ) (r : Relay)
    → r.pending ≡ []
    → is_sound (breaker next deaths r) ≡ true
breaker-is_sound next deaths r e =
    let counted = record r { deaths = deaths } in
    let stats = r.stats in
    let tripped = record counted {
      stats = record stats { breaker_trips = stats.breaker_trips + 1 };
      restart_opts = none;
    } in
    if_rule (λ t. is_sound t ≡ true) (ltb (length deaths) breaker_deaths) (reboot next counted)
      (halt tripped) (λ c. reboot-is_sound next counted c) λ _. halt-is_sound tripped e

bury-is_sound :
    (now dead : ℕ) (reason : String) (cause : Option Cause) (r : Relay)
    → is_sound (bury now dead reason cause r) ≡ true
unfolding fail_in_flight
bury-is_sound now dead reason cause r =
    let gone = emit (disposed dead) (fail_in_flight orphaned (reason_of reason) r) in
    let stats = gone.stats in
    let paused = record gone { stats = record stats { stack_pauses = stats.stack_pauses + 1 } } in
    let deaths = recent now gone.deaths ++ now ∷ [] in
    let answered =
      fail_calls-out orphaned r.pending (record r { state = rebooting (reason_of reason) }) refl in
    if_rule (λ t. is_sound t ≡ true) (cause_is_stack cause) (halt paused)
      (breaker (reason_of reason) deaths gone) (λ _. halt-is_sound paused answered.0)
      λ _. breaker-is_sound (reason_of reason) deaths gone answered.0

pub on_died-is_sound :
    (now dead : ℕ) (reason message : String) (cause : Option Cause) (code : Option ℕ) (r : Relay)
    → is_sound r ≡ true
    → is_sound (on_died now dead reason message cause code r) ≡ true
unfolding on_died
on_died-is_sound now dead reason message cause code r h =
    let stats = r.stats in
    let count = stats.worker_deaths + 1 in
    let counted = record r {
      stats = record stats { worker_deaths = count };
      last_death = some (record {
        reason = reason;
        message = message;
        seq = count;
        session = dead;
        exit_code = code;
        cause = cause;
      });
    } in
    if_rule (λ t. is_sound t ≡ true) (not (dead == r.session) || is_halted r.state)
      (record r { stats = record stats { stale_deaths = stats.stale_deaths + 1 } })
      (bury now dead reason cause counted) (λ _. h) λ _. bury-is_sound now dead reason cause counted

pub rearm-is_sound : (r : Relay) → is_sound r ≡ true → is_sound (rearm r) ≡ true
unfolding rearm
rearm-is_sound r h =
    if_rule (λ t. is_sound t ≡ true) (is_halted r.state) (reboot user (record r { deaths = [] })) r
      (λ _. reboot-is_sound user (record r { deaths = [] }) refl) λ _. h

-- Of a relay that is not halted only the deaths count.
pub awake :
    (s : State) (p q : List Call) (d : List ℕ)
    → is_halted s ≡ false
    → sound_of s p d ≡ true
    → sound_of s q d ≡ true
awake halted p q d h k = absurd (ground (arith, h))
awake serving p q d h k = k
awake (rebooting reason) p q d h k = k

pub few_deaths :
    (s t : State) (p q : List Call) (d : List ℕ)
    → is_halted s ≡ false
    → is_halted t ≡ false
    → sound_of s p d ≡ true
    → sound_of t q d ≡ true
few_deaths halted t p q d h k l = absurd (ground (arith, h))
few_deaths serving halted p q d h k l = absurd (ground (arith, k))
few_deaths serving serving p q d h k l = l
few_deaths serving (rebooting reason) p q d h k l = l
few_deaths (rebooting reason) halted p q d h k l = absurd (ground (arith, k))
few_deaths (rebooting reason) serving p q d h k l = l
few_deaths (rebooting reason) (rebooting other) p q d h k l = l

fail_calls-deaths :
    (kind : Kind) (cs : List Call) (r : Relay) → (fail_calls kind cs r).deaths ≡ r.deaths
fail_calls-deaths kind [] r = refl
fail_calls-deaths kind (c ∷ cs) r =
    let stats = r.stats in
    fail_calls-deaths kind cs (
      emit (failed c.id (is_rpc c.method) kind) (record r {
        pending = cs;
        stats = record stats { failed_in_flight = stats.failed_in_flight + 1 };
      }))

serving_awake : (s : State) → is_serving s ≡ true → is_halted s ≡ false
serving_awake serving h = refl
serving_awake halted h = absurd (ground (arith, h))
serving_awake (rebooting reason) h = refl

pub restart_with-is_sound :
    (opts : Json) (r : Relay) → is_sound r ≡ true → is_sound (restart_with opts r) ≡ true
unfolding restart_with fail_in_flight
restart_with-is_sound opts r h =
    let stats = r.stats in
    let chosen = record r {
      stats = record stats { user_restarts = stats.user_restarts + 1 };
      restart_opts = some opts;
      restart_header = header_of r.last_text;
    } in
    let failed = fail_in_flight restart user chosen in
    if_rule (λ t. is_sound t ≡ true) (is_serving r.state)
      (reboot_with user false (some opts) (emit (disposed r.session) failed)) r
      (λ c.
        ap (λ d. ltb (length d) breaker_deaths)
          (fail_calls-deaths restart r.pending (record chosen { state = rebooting user }))
        ∙ few_deaths r.state serving r.pending [] r.deaths (serving_awake r.state c) refl h)
      λ _. h
