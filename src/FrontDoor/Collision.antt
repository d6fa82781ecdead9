-- ===== src/FrontDoor/Collision.antt =====
-- The umbrella collision of public/workers/lsp-front-door.js: the names that Lean's diagnostics
-- report as already declared, and the note that explains them.
use Prim.Native.Char.{code}
use Prim.Native.String.{String, ◌++◌ as str_append}
use text.Mathlib.Text.{◌==◌ as str_eq}
use qed.Common.{
  ℕ, ◌+◌, Bool, false, ◌||◌, Option, none, some, List, [], ◌∷◌, ltb, ◌==◌, if◌then◌else◌,
}
use qed.Common.Text.{codes}
use qed.Common.Int.{pos}
use qed.Common.Json.{Json, Items, num, str, arr, obj, end, field, get, text_of, to_list, is_text}
use qed.FrontDoor.Words.{HeaderLine, is_space, is_quote, strip_prefix}

abbrev skip_quote : String → String
skip_quote String.[] = String.[]
skip_quote (String.◌∷◌ c s) = if is_quote (code c) then s else String.◌∷◌ c s

-- [^`'"\s]+, and what stands behind it
name_run : String → String × String
name_run String.[] = ("", "")
name_run (String.◌∷◌ c s) =
    let (name, rest) = name_run s in
    if is_quote (code c) || is_space (code c)
    then ("", String.◌∷◌ c s)
    else (String.◌∷◌ c name, rest)

-- The pattern at one place: its first group.
abbrev declared_here : String → Option String
declared_here s =
    let (name, rest) = name_run (skip_quote s) in
    if str_eq name ""
    then none
    else elim (strip_prefix (codes " has already been declared") (skip_quote rest)) [
      | none ↦ none
      | some _ ↦ some name
    ]

-- `ALREADY_DECLARED.exec(message)`: the leftmost match.
unfoldable pub already_declared : String → Option String
unfolding name_run strip_prefix
already_declared String.[] = none
already_declared (String.◌∷◌ c s) =
    let later = already_declared s in
    elim (declared_here (String.◌∷◌ c s)) [ none ↦ later | some name ↦ some name ]

abbrev includes : List String → String → Bool
includes [] name = false
includes (n ∷ ns) name = str_eq n name || includes ns name

-- The loop of `collidingNames`.
colliding_onto : List String → List Json → List String
colliding_onto names [] = names
colliding_onto names (d ∷ ds) =
    colliding_onto
      (elim (text_of (get "message" d)) [
        | none ↦ names
        | some message ↦ elim (already_declared message) [
          | none ↦ names
          | some name ↦ if includes names name then names else add_last names name
        ]
      ])
      ds
  where
    add_last : List String → String → List String
    add_last [] n = n ∷ []
    add_last (m ∷ ms) n = m ∷ add_last ms n

unfoldable pub colliding_names : Items → List String
unfolding colliding_onto already_declared
colliding_names diagnostics = colliding_onto [] (to_list diagnostics)

-- The umbrella aliases of the kernel's resolver.
abbrev pub umbrella_aliases : List String
umbrella_aliases = "Mathlib" ∷ "Mathlib.Tactic" ∷ "Batteries" ∷ "MIL.Common" ∷ []

abbrev is_alias : Json → Bool
is_alias (str m) = includes umbrella_aliases m
is_alias _ = false

-- The loop of `aliasOnlyKey`, with the number of aliases so far.
abbrev alias_only_from : ℕ → List Json → Bool
alias_only_from aliases [] = ltb 0 aliases
alias_only_from aliases (m ∷ ms) =
    let skipped = alias_only_from aliases ms in
    let counted = alias_only_from (aliases + 1) ms in
    if is_text (some m) "Init" then skipped else (if is_alias m then counted else false)

abbrev pub alias_only_key : Option Json → Bool
alias_only_key (some (arr xs)) = alias_only_from 0 (to_list xs)
alias_only_key _ = false

-- `name.replace(/^.*\./, "")`: what stands behind the last dot. A name holds no line end.
after_last_dot : String → Option String
after_last_dot String.[] = none
after_last_dot (String.◌∷◌ c s) = elim (after_last_dot s) [
  | some rest ↦ some rest
  | none ↦ if code c == b'.' then some s else none
]

abbrev last_part : String → String
last_part name = elim (after_last_dot name) [ none ↦ name | some rest ↦ rest ]

-- `names.slice(0, 3).join(", ")`
abbrev shown_names : List String → String
shown_names [] = ""
shown_names (a ∷ []) = a
shown_names (a ∷ b ∷ []) = str_append a (str_append ", " b)
shown_names (a ∷ b ∷ c ∷ _) = str_append a (str_append ", " (str_append b (str_append ", " c)))

abbrev first_name : List String → String
first_name [] = ""
first_name (a ∷ _) = a

abbrev note_text : List String → String
note_text names = str_append (shown_names names) (
    str_append
      " collides with Mathlib: this playground preloads all of Mathlib for speed, so names Mathlib defines are already taken. live.lean-lang.org imports only your header's closure and would not collide. Rename it (e.g. My"
      (str_append (last_part (first_name names))
        "), or use \"Load exact imports\" beside the status pill (about a minute; the first time downloads the 1 GB Mathlib library)."))

abbrev place : ℕ → ℕ → Json
place line character =
    obj (field "line" (num (pos line)) (field "character" (num (pos character)) end))

-- The note on the header line, of severity 3 (information).
unfoldable pub collision_note : HeaderLine → List String → Json
unfolding after_last_dot
collision_note at names = obj (
    field "range"
      (obj (field "start" (place at.line 0) (field "end" (place at.line at.length) end)))
      (field "severity" (num (pos 3))
        (field "source" (str "QED64") (field "message" (str (note_text names)) end))))
