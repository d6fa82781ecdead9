-- ===== src/Manifest/Checked.antt =====
-- `refuse` of pipeline/release/release-manifest.mjs, which throws a ReleaseRefusal: a value or the
-- reason it was refused for, of which the text is the check that failed.
use qed.Common.{◌≡◌, refl, Bool, true, false, String}

pub data Checked {ℓ} (V : Type ℓ) : Type ℓ where
  refused : String → Checked V
  ok : V → Checked V

-- The next check runs on the value of the one before.
infixl 5 ◌>>=◌ ◌>>◌
abbrev pub ◌>>=◌ {ℓ κ} : {V : Type ℓ} {W : Type κ} → Checked V → (V → Checked W) → Checked W
refused why >>= next = refused why
ok v >>= next = next v

abbrev pub ◌>>◌ {ℓ} : {W : Type ℓ} → Checked (Unit {0}) → Checked W → Checked W
check >> next = check >>= λ (_ : Unit {0}). next

-- Refused unless the test holds.
abbrev pub demand : Bool → String → Checked (Unit {0})
demand test why = elim test [ true ↦ ok tt | false ↦ refused why ]

-- The value that a chain of checks went on with, once the chain has passed.
pub bind_parts {ℓ κ} :
    {V : Type ℓ} {W : Type κ} (first : Checked V) (next : V → Checked W) {w : W}
    → (first >>= next) ≡ ok w
    → (v : V) × (first ≡ ok v) × (next v ≡ ok w)
bind_parts (refused why) next passed = cc
bind_parts (ok v) next passed = (v, refl, passed)

-- A demand held, once the chain behind it has passed.
pub demand_parts {ℓ} :
    {W : Type ℓ} (test : Bool) (why : String) (next : Checked W) {w : W}
    → (demand test why >> next) ≡ ok w
    → (test ≡ true) × (next ≡ ok w)
demand_parts false why next passed = cc
demand_parts true why next passed = (refl, passed)
