-- ===== src/Relay/Recalled.antt =====
-- What `fromClient` of lib/lsp-relay.ts remembers of all frames of the client.
use qed.Common.{
  ◌≡◌, ◌≢◌, refl, sym, subst, ap, ◌∙◌, Bool, false, Option, none, some, List, [], ◌∷◌,
  if◌then◌else◌, if_rule, Bool-cases, Option-cases, inl, inr,
}
use qed.Common.Json.{Json}
use qed.Relay.Types.{Doc}
use qed.Relay.Run.{Memory, remember, remember_all}
use qed.Relay.Told.{
  last_initialize, is_open, later_open, since_open, version_after, last_version, last_text,
  opening_text, opening, told_doc,
}
use qed.Relay.Remembers.{
  remember-initialize, KnowsDoc, remember-open, remember-edit, remember-unopened,
}

pub last_initialize-remember :
    (ms : List Json) (m : Memory) → (remember_all ms m).initialize ≡ last_initialize m.initialize ms
last_initialize-remember [] m = refl
last_initialize-remember (x ∷ ms) m =
    last_initialize-remember ms (remember x m)
    ∙ ap (λ i. last_initialize i ms) (remember-initialize x m)

later_open-none :
    (x : Json) (ms : List Json) (r : Option (Json × List Json))
    → later_open x ms r ≡ none
    → (r ≡ none) × (is_open x ≡ false)
later_open-none x ms (some r) h = cc
later_open-none x ms none h = (
  refl,
  if_rule (λ o. o ≡ none → is_open x ≡ false) (is_open x) (some (x, ms)) none (λ _ e. cc) (λ c _. c)
      h,
)

-- Behind the last didOpen.
edits-KnowsDoc :
    (ms : List Json) (m : Memory) (doc : Doc)
    → since_open ms ≡ none
    → m.doc ≡ some doc
    → KnowsDoc
        (remember_all ms m)
        (some (record doc { version = last_version doc.version ms }))
        (last_text m.last_text ms)
edits-KnowsDoc [] m doc none_open e = (e, refl)
edits-KnowsDoc (x ∷ ms) m doc none_open e =
    let later = later_open-none x ms (since_open ms) none_open in
    let now = remember-edit x m doc later.1 e in
    let rest =
      edits-KnowsDoc ms (remember x m) (record doc { version = version_after doc.version x })
        later.0 now.0 in
    (rest.0, rest.1 ∙ ap (λ t. last_text t ms) now.1)

pub unopened-doc :
    (ms : List Json) (m : Memory)
    → since_open ms ≡ none
    → m.doc ≡ none
    → (remember_all ms m).doc ≡ none
unopened-doc [] m none_open e = e
unopened-doc (x ∷ ms) m none_open e =
    let later = later_open-none x ms (since_open ms) none_open in
    unopened-doc ms (remember x m) later.0 (remember-unopened x m later.1 e)

pub opened-KnowsDoc :
    (ms : List Json) (m : Memory) (o : Json) (rest : List Json)
    → since_open ms ≡ some (o, rest)
    → KnowsDoc (remember_all ms m) (some (told_doc o rest)) (last_text (opening_text o) rest)
opened-KnowsDoc [] m o rest h = cc
opened-KnowsDoc (x ∷ ms) m o rest h = elim (Option-cases (since_open ms)) [
  | inr later ↦
      opened-KnowsDoc ms (remember x m) o rest (later.1 ∙ sym (ap (later_open x ms) later.1) ∙ h)
  | inl e ↦ elim (Bool-cases (is_open x)) [
    | inl open_now ↦
        let same : (x, ms) ≡ (o, rest) =
          ap taken (sym (ap here open_now) ∙ sym (ap (later_open x ms) e) ∙ h) in
        let first = remember-open x m open_now in
        let later = edits-KnowsDoc ms (remember x m) (opening x) e first.0 in
        subst
          (λ (p : Json × List Json).
            KnowsDoc (remember_all (x ∷ ms) m) (some (told_doc p.0 p.1))
              (last_text (opening_text p.0) p.1))
          same (later.0, later.1 ∙ ap (λ t. last_text t ms) first.1)
    | inr other ↦
        absurd (not_some (o, rest) (sym (ap here other) ∙ sym (ap (later_open x ms) e) ∙ h))
  ]
]
  where
    taken : Option (Json × List Json) → Json × List Json
    taken none = (o, rest)
    taken (some r) = r

    here : Bool → Option (Json × List Json)
    here b = if b then some (x, ms) else none

    not_some : (p : Json × List Json) → none ≢ some p
    not_some p e = cc
