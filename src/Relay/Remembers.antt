-- ===== src/Relay/Remembers.antt =====
-- What `fromClient` of lib/lsp-relay.ts remembers of one frame of the client.
use Prim.Native.String.{String}
use text.Mathlib.Text.{◌==◌ as str_eq}
use qed.Common.{
  ◌≡◌, refl, sym, ap, ◌∙◌, true, false, ◌&&◌, Option, none, some, arith, if◌then◌else◌, if_rule,
  Bool-cases, inl, inr,
}
use qed.Common.Json.{
  Json, Items, nil, cons, get, get_in, items_of, text_of, is_some, is_text_other, truthy,
}
use qed.FrontDoor.Machine.{has_method, text_document, did_open, did_change}
use qed.Relay.Types.{Doc}
use qed.Relay.Run.{
  Memory, remember, text_or_empty, opened_by, changed_by, text_after, full_text, first_item,
}
use qed.Relay.Told.{
  is_open, is_edit, version_after, or_text, whole_text, text_behind, opening_text, opening,
}

pub not_other :
    (m : Json) (a b : String) → has_method m a ≡ true → str_eq a b ≡ false → has_method m b ≡ false
not_other m a b h k = is_text_other (get "method" m) a b h k

pub remember-initialize :
    (msg : Json) (m : Memory)
    → (remember msg m).initialize ≡ (if has_method msg "initialize" then some msg else m.initialize)
unfolding remember
remember-initialize msg m = elim (Bool-cases (has_method msg "initialize")) [
  | inl e ↦ rw e refl
  | inr e ↦ rw e (
      if_rule (λ (t : Memory). t.initialize ≡ m.initialize)
        (has_method msg did_open && truthy (text_document msg)) (opened_by (text_document msg) m)
        (if has_method msg did_change && truthy (text_document msg)
          then changed_by msg (text_document msg) m.doc m
          else m)
        (λ _. by_open (text_document msg))
        λ _.
          if_rule (λ (t : Memory). t.initialize ≡ m.initialize)
            (has_method msg did_change && truthy (text_document msg))
            (changed_by msg (text_document msg) m.doc m) m
            (λ _. by_change (text_document msg) m.doc) λ _. refl)
]
  where
    by_open : (d : Option Json) → (opened_by d m).initialize ≡ m.initialize
    by_open none = refl
    by_open (some d) = refl

    by_text : (t : Option String) (n : Memory) → (text_after t n).initialize ≡ n.initialize
    by_text none n = refl
    by_text (some t) n = refl

    by_change :
        (d : Option Json) (doc : Option Doc) → (changed_by msg d doc m).initialize ≡ m.initialize
    by_change none doc = refl
    by_change (some d) none = refl
    by_change (some d) (some doc) =
        by_text (full_text (first_item (items_of (get_in (get "params" msg) "contentChanges"))))
          (record m { doc = some (record doc { version = get "version" d }) })

abbrev pub KnowsDoc : Memory → Option Doc → String → Type 0
KnowsDoc m doc text = (m.doc ≡ doc) × (m.last_text ≡ text)

-- A didOpen starts anew.
pub remember-open :
    (msg : Json) (m : Memory)
    → is_open msg ≡ true
    → KnowsDoc (remember msg m) (some (opening msg)) (opening_text msg)
unfolding remember
remember-open msg m h = rw (no_initialize, h) (by_document (text_document msg) (ground (arith, h)))
  where
    no_initialize : has_method msg "initialize" ≡ false
    no_initialize = not_other msg did_open "initialize" (ground (arith, h)) refl

    by_text : (t : Option String) → text_or_empty t ≡ or_text t ""
    by_text none = refl
    by_text (some t) = refl

    by_document :
        (d : Option Json)
        → truthy d ≡ true
        → KnowsDoc
            (opened_by d m)
            (some (record {
              uri = get_in d "uri";
              language = get_in d "languageId";
              version = get_in d "version";
            }))
            (or_text (text_of (get_in d "text")) "")
    by_document none t = absurd (ground (arith, t))
    by_document (some d) t = (refl, by_text (text_of (get "text" d)))

-- Behind a didOpen an edit brings its version, and its text if that is a whole one.
pub remember-edit :
    (msg : Json) (m : Memory) (doc : Doc)
    → is_open msg ≡ false
    → m.doc ≡ some doc
    → KnowsDoc
        (remember msg m)
        (some (record doc { version = version_after doc.version msg }))
        (text_behind m.last_text msg)
unfolding remember
remember-edit msg m doc no_open e = elim (Bool-cases (is_edit msg)) [
  | inl h ↦
      rw (not_other msg did_change "initialize" (ground (arith, h)) refl, no_open, h, e)
        (by_document (text_document msg) (record m { doc = some doc }) (ground (arith, h)))
  | inr h ↦
      let same : KnowsDoc (remember msg m) (some doc) m.last_text =
        if_rule (λ (t : Memory). KnowsDoc t (some doc) m.last_text) (has_method msg "initialize")
          (record m { initialize = some msg })
          (if has_method msg did_open && truthy (text_document msg)
            then opened_by (text_document msg) m
            else if has_method msg did_change && truthy (text_document msg)
            then changed_by msg (text_document msg) m.doc m
            else m)
          (λ _. (e, refl)) λ _. rw (no_open, h) (e, refl) in
      let td = text_document msg in
      let items = items_of (get_in (get "params" msg) "contentChanges") in
      (
        same.0
            ∙ ap
                (λ b.
                  some (record doc { version = if b then get_in td "version" else doc.version }))
                (sym h),
        same.1 ∙ ap (λ b. if b then whole_text items m.last_text else m.last_text) (sym h),
      )
]
  where
    by_text :
        (items : Option Items) (n : Memory)
        → KnowsDoc
            (text_after (full_text (first_item items)) n)
            n.doc
            (whole_text items n.last_text)
    by_text none n = (refl, refl)
    by_text (some nil) n = (refl, refl)
    by_text (some (cons c cs)) n = elim (Bool-cases (is_some (get "range" c))) [
      | inl r ↦ rw r (refl, refl)
      | inr r ↦ rw r (by_new (text_of (get "text" c)))
    ]
      where
        by_new : (t : Option String) → KnowsDoc (text_after t n) n.doc (or_text t n.last_text)
        by_new none = (refl, refl)
        by_new (some t) = (refl, refl)

    by_document :
        (d : Option Json) (n : Memory)
        → truthy d ≡ true
        → KnowsDoc
            (changed_by msg d (some doc) n)
            (some (record doc { version = get_in d "version" }))
            (whole_text (items_of (get_in (get "params" msg) "contentChanges")) n.last_text)
    by_document none n t = absurd (ground (arith, t))
    by_document (some d) n t =
        by_text (items_of (get_in (get "params" msg) "contentChanges"))
          (record n { doc = some (record doc { version = get "version" d }) })

-- Without a document nothing but a didOpen gives one.
pub remember-unopened :
    (msg : Json) (m : Memory) → is_open msg ≡ false → m.doc ≡ none → (remember msg m).doc ≡ none
unfolding remember
remember-unopened msg m no_open e =
    if_rule (λ (t : Memory). t.doc ≡ none) (has_method msg "initialize")
      (record m { initialize = some msg })
      (if has_method msg did_open && truthy (text_document msg)
        then opened_by (text_document msg) m
        else if has_method msg did_change && truthy (text_document msg)
        then changed_by msg (text_document msg) m.doc m
        else m)
      (λ _. e)
      λ _. rw no_open (
        if_rule (λ (t : Memory). t.doc ≡ none) (is_edit msg)
          (changed_by msg (text_document msg) m.doc m) m
          (λ _. rw e (by_document (text_document msg) (record m { doc = none }) refl)) λ _. e)
  where
    by_document :
        (d : Option Json) (n : Memory) → n.doc ≡ none → (changed_by msg d none n).doc ≡ none
    by_document none n h = h
    by_document (some d) n h = h
