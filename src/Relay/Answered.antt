-- ===== src/Relay/Answered.antt =====
-- What the death of a session in lib/lsp-relay.ts does to the requests that wait.
use Prim.Native.String.{String}
use qed.Common.{
  ℕ, ◌+◌, ◌≡◌, refl, sym, ap, ◌∙◌, Bool, true, false, not, ◌&&◌, ◌||◌, Option, none, some, List, [],
  ◌∷◌, ◌++◌, ltb, ◌==◌, if_rule,
}
use qed.Common.Lists.{length}
use qed.Common.Json.{is_some}
use qed.FrontDoor.Words.{split_lines}
use qed.Relay.Machine.{
  emit, header_of, same_lines, forget_opts, reboot, is_rpc, fail_calls, fail_in_flight,
  cause_is_stack, note_of, halt, is_halted, reason_of, recent, breaker, breaker_deaths, bury,
  on_died,
}
use qed.Relay.Types.{
  Reason, halted, rebooting, Cause, Doc, Call, Kind, orphaned, Effect, failed, disposed, made, told,
  Relay,
}
use qed.Common.{append_assoc, append-nil, subst, ◌⊎◌, inl, inr}
use qed.Relay.Machine.{is_stack, cause_line, note_line, note_length, line_at}
use qed.Relay.Types.{noted}

-- The answers to the requests, in their order.
abbrev pub answers : Kind → List Call → List Effect
answers kind [] = []
answers kind (c ∷ cs) = failed c.id (is_rpc c.method) kind ∷ answers kind cs

-- No request is pending, and these were the effects.
abbrev pub Did : Relay → List Effect → Type 0
Did r es = (r.pending ≡ []) × ((rest : List Effect) × (r.out ≡ es ++ rest))

pub fail_calls-out :
    (kind : Kind) (cs : List Call) (r : Relay)
    → r.pending ≡ cs
    → ((fail_calls kind cs r).pending ≡ [])
      × ((fail_calls kind cs r).out ≡ r.out ++ answers kind cs)
fail_calls-out kind [] r e = (e, sym (append-nil r.out))
fail_calls-out kind (c ∷ cs) r e =
    let stats = r.stats in
    let next = emit (failed c.id (is_rpc c.method) kind) (record r {
      pending = cs;
      stats = record stats { failed_in_flight = stats.failed_in_flight + 1 };
    }) in
    let rest = fail_calls-out kind cs next refl in
    (
      rest.0,
      rest.1 ∙ append_assoc r.out (failed c.id (is_rpc c.method) kind ∷ []) (answers kind cs),
    )

pub note_of-out :
    (d : Option Doc) (r : Relay)
    → ((note_of d r).pending ≡ r.pending)
      × ((rest : List Effect) × ((note_of d r).out ≡ r.out ++ rest))
note_of-out none r = (refl, ([], sym (append-nil r.out)))
note_of-out (some doc) r =
    let lines = split_lines r.last_text in
    let line = note_line (is_stack r.last_death) (cause_line r.last_death) lines in
    (refl, (noted doc (is_stack r.last_death) line (note_length (line_at lines line)) ∷ [], refl))

pub halt-Did : (r : Relay) → r.pending ≡ [] → Did (halt r) r.out
unfolding halt
halt-Did r e =
    let note = note_of-out r.doc (emit told (record r { state = halted })) in
    (note.0 ∙ e, (told ∷ note.1.0, note.1.1 ∙ append_assoc r.out (told ∷ []) note.1.0))

forget_opts-out :
    (r : Relay) → ((forget_opts r).pending ≡ r.pending) × ((forget_opts r).out ≡ r.out)
unfolding forget_opts
forget_opts-out r =
    if_rule (λ t. (t.pending ≡ r.pending) × (t.out ≡ r.out))
      (is_some r.restart_opts && not (same_lines (header_of r.last_text) r.restart_header))
      (record r { restart_opts = none }) r (λ _. (refl, refl)) λ _. (refl, refl)

reboot-Did : (reason : Reason) (r : Relay) → r.pending ≡ [] → Did (reboot reason r) r.out
unfolding reboot
reboot-Did reason r e =
    let kept = forget_opts-out r in
    let next = made ((forget_opts r).session + 1) (forget_opts r).restart_opts ∷ told ∷ [] in
    (kept.0 ∙ e, (next, ap (λ l. l ++ next) kept.1))

breaker-Did :
    (next : Reason) (deaths : List ℕ) (r : Relay)
    → r.pending ≡ []
    → Did (breaker next deaths r) r.out
breaker-Did next deaths r e =
    let counted = record r { deaths = deaths } in
    let stats = r.stats in
    let tripped = record counted {
      stats = record stats { breaker_trips = stats.breaker_trips + 1 };
      restart_opts = none;
    } in
    if_rule (λ t. Did t r.out) (ltb (length deaths) breaker_deaths) (reboot next counted)
      (halt tripped) (λ _. reboot-Did next counted e) λ _. halt-Did tripped e

bury-Did :
    (now dead : ℕ) (reason : String) (cause : Option Cause) (r : Relay)
    → Did (bury now dead reason cause r) (r.out ++ answers orphaned r.pending ++ disposed dead ∷ [])
unfolding fail_in_flight
bury-Did now dead reason cause r =
    let failed = fail_in_flight orphaned (reason_of reason) r in
    let gone = emit (disposed dead) failed in
    let stats = gone.stats in
    let paused = record gone { stats = record stats { stack_pauses = stats.stack_pauses + 1 } } in
    let deaths = recent now gone.deaths ++ now ∷ [] in
    let answered =
      fail_calls-out orphaned r.pending (record r { state = rebooting (reason_of reason) }) refl in
    let P : Relay → Type 0 =
      λ t. Did t (r.out ++ answers orphaned r.pending ++ disposed dead ∷ []) in
    let out = ap (λ l. l ++ disposed dead ∷ []) answered.1 in
    if_rule P (cause_is_stack cause) (halt paused) (breaker (reason_of reason) deaths gone)
      (λ _. subst (Did (halt paused)) out (halt-Did paused answered.0))
      λ _.
        subst (Did (breaker (reason_of reason) deaths gone)) out
          (breaker-Did (reason_of reason) deaths gone answered.0)

-- The death of the running session leaves no request unanswered: each that is pending is answered with
-- an error, in order, with -32900 if it is an rpc call and -32603 otherwise; then the session is
-- disposed, and only then does anything else happen (a new session, or the halt). A death of another
-- session, or of one that has halted the relay, changes nothing but the count of such deaths, which it
-- raises by one.
pub on_died-Did :
    (now dead : ℕ) (reason message : String) (cause : Option Cause) (code : Option ℕ) (r : Relay)
    → let t = on_died now dead reason message cause code r in
      let stats = r.stats in
      (((dead == r.session && not (is_halted r.state)) ≡ true)
        × Did t (r.out ++ answers orphaned r.pending ++ disposed dead ∷ []))
      ⊎ (((dead == r.session && not (is_halted r.state)) ≡ false)
          × (t ≡ record r { stats = record stats { stale_deaths = stats.stale_deaths + 1 } }))
unfolding on_died
on_died-Did now dead reason message cause code r =
    let stats = r.stats in
    let count = stats.worker_deaths + 1 in
    let counted = record r {
      stats = record stats { worker_deaths = count };
      last_death = some (record {
        reason = reason;
        message = message;
        seq = count;
        session = dead;
        exit_code = code;
        cause = cause;
      });
    } in
    if_rule
      (λ t.
        (((dead == r.session && not (is_halted r.state)) ≡ true)
          × Did t (r.out ++ answers orphaned r.pending ++ disposed dead ∷ []))
        ⊎ (((dead == r.session && not (is_halted r.state)) ≡ false)
            × (t ≡ record r { stats = record stats { stale_deaths = stats.stale_deaths + 1 } })))
      (not (dead == r.session) || is_halted r.state)
      (record r { stats = record stats { stale_deaths = stats.stale_deaths + 1 } })
      (bury now dead reason cause counted)
      (λ c. inr (negated (dead == r.session) (is_halted r.state) true c, refl))
      λ c. inl (
        negated (dead == r.session) (is_halted r.state) false c,
        bury-Did now dead reason cause counted,
      )
  where
    negated : (a b c : Bool) → (not a || b) ≡ c → (a && not b) ≡ not c
    negated true b c h = ap not h
    negated false b c h = ap not h
