-- ===== src/Common/Json.antt =====
-- JSON values as JavaScript holds them: object fields in order, integers as the numbers.
use text.Mathlib.Text.{◌==◌ as str_eq}
use text.Mathlib.TextEquality.{eq_iff}
use text.Mathlib.TextPositions.{eq_refl}
use mathlib.Core.Path.{◌≡◌, sym, subst, refl}
use mathlib.Core.Bool.{Bool, true, false, not}
use mathlib.Core.Option.{Option, none, some}
use mathlib.Core.List.{List, [], ◌∷◌}
use Prim.Native.String.{String}
use native.Mathlib.Omega.{arith}
use qed.Common.Tests.{if◌then◌else◌}
use qed.Common.Int.{ℤ, pos, eqb_ℤ}

mutual
  pub data Json : Type 0 where
    null : Json
    bool : Bool → Json
    num : ℤ → Json
    str : String → Json
    arr : Items → Json
    obj : Fields → Json

  pub data Items : Type 0 where
    nil : Items
    cons : Json → Items → Items

  pub data Fields : Type 0 where
    end : Fields
    field : String → Json → Fields → Fields

abbrev pub lookup : String → Fields → Option Json
lookup k end = none
lookup k (field j v fs) = if str_eq j k then some v else lookup k fs

-- `{...fields, [k]: v}`
abbrev pub update : String → Json → Fields → Fields
update k v end = field k v end
update k v (field j w fs) = if str_eq j k then field j v fs else field j w (update k v fs)

-- `value[k]`, where `none` is `undefined`.
abbrev pub get : String → Json → Option Json
get k (obj fs) = lookup k fs
get k _ = none

-- `{...value, [k]: v}` of an object
abbrev pub put : String → Json → Json → Json
put k v (obj fs) = obj (update k v fs)
put k v other = other

abbrev pub get_in : Option Json → String → Option Json
get_in none k = none
get_in (some j) k = get k j

-- `typeof value === "number"`, and the number
abbrev pub number_of : Option Json → Option ℤ
number_of (some (num n)) = some n
number_of _ = none

-- `typeof value === "string"`, and the text
abbrev pub text_of : Option Json → Option String
text_of (some (str s)) = some s
text_of _ = none

-- `Array.isArray(value)`, and the items
abbrev pub items_of : Option Json → Option Items
items_of (some (arr xs)) = some xs
items_of _ = none

abbrev pub to_list : Items → List Json
to_list nil = []
to_list (cons x xs) = x ∷ to_list xs

abbrev pub of_list : List Json → Items
of_list [] = nil
of_list (x ∷ xs) = cons x (of_list xs)

abbrev pub is_some {ℓ} : {A : Type ℓ} → Option A → Bool
is_some none = false
is_some (some _) = true

-- `!!value`
abbrev pub truthy : Option Json → Bool
truthy none = false
truthy (some null) = false
truthy (some (bool b)) = b
truthy (some (num n)) = not (eqb_ℤ n (pos 0))
truthy (some (str s)) = not (str_eq s "")
truthy (some _) = true

-- `value === "…"`
abbrev pub is_text : Option Json → String → Bool
is_text (some (str s)) t = str_eq s t
is_text _ t = false

-- Reading back what was put, and what was there beside it.
pub lookup-update :
    (k j : String) (v : Json) (fs : Fields)
    → lookup j (update k v fs) ≡ (if str_eq k j then some v else lookup j fs)
lookup-update k j v end = refl
lookup-update k j v (field i w fs) =
    ground (arith, eq_iff k j, eq_iff i k, eq_iff i j, lookup-update k j v fs)

-- Putting twice at one name, and putting what is there.
pub update-update :
    (k : String) (v w : Json) (fs : Fields) → update k v (update k w fs) ≡ update k v fs
update-update k v w end = ground (arith, eq_refl k)
update-update k v w (field i x fs) = ground (arith, update-update k v w fs)

pub update_same : (k : String) (v : Json) (fs : Fields) → lookup k fs ≡ some v → update k v fs ≡ fs
update_same k v end h = cc
update_same k v (field i x fs) h = ground (arith, update_same k v fs)

-- A value is one text at most.
pub is_text_other :
    (o : Option Json) (a b : String) → is_text o a ≡ true → str_eq a b ≡ false → is_text o b ≡ false
is_text_other (some (str s)) a b h k = subst (λ u. str_eq u b ≡ false) (sym ((eq_iff s a).0 h)) k
is_text_other none a b h k = refl
is_text_other (some null) a b h k = refl
is_text_other (some (bool _)) a b h k = refl
is_text_other (some (num _)) a b h k = refl
is_text_other (some (arr _)) a b h k = refl
is_text_other (some (obj _)) a b h k = refl
