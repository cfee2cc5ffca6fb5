-- ===== src/Http/Json.antt =====
-- The values of a JSON body, as Python reads them.
use outlabs_taskq.Prelude.{
  Bool, true, false, not, ◌||◌, ◌==◌, String, Option, none, some, string_eq, if◌then◌else◌,
}

mutual
  -- A number is an int or a float, with its text.
  pub data Json : Type 0 where
    null : Json
    boolean : Bool → Json
    integer real string : String → Json
    array : Items → Json
    object : Fields → Json

  pub data Items : Type 0 where
    no_items : Items
    item : Json → Items → Items

  pub data Fields : Type 0 where
    no_fields : Fields
    field : String → Json → Fields → Fields

-- bool(value)
unfoldable pub is_true : Json → Bool
is_true null = false
is_true (boolean b) = b
is_true (integer digits) = not (digits == "0")
is_true (real digits) = not (digits == "0.0" || digits == "-0.0")
is_true (string s) = not (s == "")
is_true (array no_items) = false
is_true (array (item x xs)) = true
is_true (object no_fields) = false
is_true (object (field k x fs)) = true

-- fields.get(key); a key that comes twice has its last value
unfoldable pub lookup : String → Fields → Option Json
lookup key no_fields = none
lookup key (field k x fs) = elim (lookup key fs) [
  | none ↦ if k == key then some x else none
  | some y ↦ some y
]

-- bool(fields.get(key))
abbrev pub is_true_at : Option Json → Bool
is_true_at none = false
is_true_at (some x) = is_true x

unfoldable pub holds : String → Fields → Bool
unfolding is_true lookup
holds key fs = is_true_at (lookup key fs)

unfoldable pub has_item : String → Items → Bool
has_item text no_items = false
has_item text (item (string s) xs) = s == text || has_item text xs
has_item text (item _ xs) = has_item text xs

abbrev pub is_some {ℓ} : {A : Type ℓ} → Option A → Bool
is_some none = false
is_some (some x) = true

-- key in fields
unfoldable pub has : String → Fields → Bool
unfolding lookup
has key fs = is_some (lookup key fs)

-- `text in value`, with `none` for the TypeError of a value that is no container. `is_part` is the
-- substring test of `str`.
unfoldable pub contained : (String → String → Bool) → String → Json → Option Bool
unfolding has has_item
contained is_part text (object fs) = some (has text fs)
contained is_part text (array xs) = some (has_item text xs)
contained is_part text (string s) = some (is_part text s)
contained is_part text _ = none
