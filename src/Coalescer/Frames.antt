-- ===== src/Coalescer/Frames.antt =====
-- The frames of lib/edit-coalescer.ts, and how they are told apart.
use Prim.Native.String.{String}
use qed.Common.{
  Bool, true, false, not, ◌&&◌, ◌||◌, Option, none, some, List, [], ◌∷◌, if◌then◌else◌,
}
use qed.Common.Lists.{any}
use qed.Common.Json.{Json, Items, nil, cons, get, get_in, items_of, text_of, is_some}
use qed.FrontDoor.Machine.{has_method, text_document, did_open, did_change}
use qed.Liveness.Monitor.{same_id}

-- `contentChanges` of one change that is the whole text.
abbrev is_whole_text : Option Items → Bool
is_whole_text (some (cons c nil)) =
    is_some (text_of (get "text" c)) && not (is_some (get "range" c))
is_whole_text _ = false

unfoldable pub is_full_text_change : Json → Bool
is_full_text_change msg =
    has_method msg did_change
    && is_whole_text (items_of (get_in (get "params" msg) "contentChanges"))

-- `uriOf`
abbrev pub uri_of : Json → Option Json
uri_of msg = get_in (text_document msg) "uri"

-- `a === b`, where `none` is `undefined`; two objects of two frames are never the same.
abbrev pub same_value : Option Json → Option Json → Bool
same_value none none = true
same_value (some a) (some b) = same_id a b
same_value _ _ = false

unfoldable pub is_keep_alive : Json → Bool
is_keep_alive msg = has_method msg "$/lean/rpc/keepAlive" && not (is_some (get "id" msg))

-- What a `$/cancelRequest` notification names.
unfoldable pub cancel_target : Json → Option Json
cancel_target msg =
    if has_method msg "$/cancelRequest" && not (is_some (get "id" msg))
    then get_in (get "params" msg) "id"
    else none

-- Frames that never wait behind a held change.
unfoldable pub is_barrier : Json → Bool
is_barrier msg =
    has_method msg did_open
    || has_method msg "textDocument/didClose"
    || (has_method msg did_change && not (is_full_text_change msg))

abbrev pub superseded_methods : List String
superseded_methods =
    "textDocument/semanticTokens/full" ∷ "textDocument/semanticTokens/full/delta"
    ∷ "textDocument/semanticTokens/range" ∷ "textDocument/completion" ∷ []

unfoldable pub is_superseded_method : Json → Bool
is_superseded_method msg = any (has_method msg) superseded_methods

-- SUPERSEDED (-32801) and CANCELLED (-32800)
pub data Refusal : Type 0 where
  superseded cancelled : Refusal
