-- ===== src/Relay/Told.antt =====
-- What the client of lib/lsp-relay.ts said last, read off its frames.
use Prim.Native.String.{String}
use qed.Common.{Bool, ◌&&◌, Option, none, some, List, [], ◌∷◌, if◌then◌else◌}
use qed.Common.Json.{Json, Items, cons, get, get_in, items_of, text_of, is_some, truthy}
use qed.FrontDoor.Machine.{has_method, text_document, did_open, did_change}
use qed.Relay.Types.{Doc}

-- The last initialize, or `before`.
abbrev pub last_initialize : Option Json → List Json → Option Json
last_initialize before [] = before
last_initialize before (m ∷ ms) =
    last_initialize (if has_method m "initialize" then some m else before) ms

abbrev pub is_open : Json → Bool
is_open m = has_method m did_open && truthy (text_document m)

abbrev pub is_edit : Json → Bool
is_edit m = has_method m did_change && truthy (text_document m)

abbrev pub later_open : Json → List Json → Option (Json × List Json) → Option (Json × List Json)
later_open m ms (some r) = some r
later_open m ms none = if is_open m then some (m, ms) else none

-- The last didOpen, and the frames behind it.
abbrev pub since_open : List Json → Option (Json × List Json)
since_open [] = none
since_open (m ∷ ms) = later_open m ms (since_open ms)

-- The version behind an edit, or else the one before.
abbrev pub version_after : Option Json → Json → Option Json
version_after v m = if is_edit m then get_in (text_document m) "version" else v

abbrev pub last_version : Option Json → List Json → Option Json
last_version v [] = v
last_version v (m ∷ ms) = last_version (version_after v m) ms

abbrev pub or_text : Option String → String → String
or_text none text = text
or_text (some new) text = new

-- The text of an edit that replaces the whole document: of its first change, if that has no range.
abbrev pub whole_text : Option Items → String → String
whole_text (some (cons c cs)) text =
    if is_some (get "range" c) then text else or_text (text_of (get "text" c)) text
whole_text _ text = text

abbrev pub text_behind : String → Json → String
text_behind text m =
    if is_edit m
    then whole_text (items_of (get_in (get "params" m) "contentChanges")) text
    else text

abbrev pub last_text : String → List Json → String
last_text text [] = text
last_text text (m ∷ ms) = last_text (text_behind text m) ms

-- The text of a didOpen, or the empty one.
abbrev pub opening_text : Json → String
opening_text m = or_text (text_of (get_in (text_document m) "text")) ""

abbrev pub opening : Json → Doc
opening m = record {
  uri = get_in (text_document m) "uri";
  language = get_in (text_document m) "languageId";
  version = get_in (text_document m) "version";
}

-- The document as it was opened last, with the last version.
abbrev pub told_doc : Json → List Json → Doc
told_doc o ms = record {
  uri = (opening o).uri;
  language = (opening o).language;
  version = last_version (opening o).version ms;
}
