-- ===== src/Edge/Values.antt =====
-- JSON values as worker/src/index.js reads them: truth and properties. A number is its literal.
use cloudflare_smtp_relay.Shared.{ℕ, Bool, true, false, not, Option, none, some, if◌then◌else◌}
use cloudflare_smtp_relay.Shared.Text.{Text, text_eq, is_empty}

mutual
  pub data Json : Type 0 where
    null : Json
    boolean : Bool → Json
    number : Text → Json
    string : Text → Json
    array : Items → Json
    object : Fields → Json

  pub data Items : Type 0 where
    nil : Items
    cons : Json → Items → Items

  -- The properties of an object, each key once.
  pub data Fields : Type 0 where
    end : Fields
    field : Text → Json → Fields → Fields

-- What the handler takes from JavaScript: whether the number of a literal is 0, `Number(text) >
-- limit`, and the message of the TypeError for a property of null.
pub record Runtime : Type 0 where
  pub is_zero : Text → Bool
  pub exceeds : Text → ℕ → Bool
  pub type_error : Text

-- Whether a value counts as true.
unfoldable pub truthy : Runtime → Json → Bool
truthy js null = false
truthy js (boolean b) = b
truthy js (number literal) = not (js.is_zero literal)
truthy js (string s) = not (is_empty s)
truthy js (array xs) = true
truthy js (object fs) = true

-- The value, where it is there and counts as true.
unfoldable pub present : Runtime → Option Json → Option Json
present js none = none
present js (some v) = if truthy js v then some v else none

unfoldable pub find : Text → Fields → Option Json
find key end = none
find key (field k v fs) = if text_eq key k then some v else find key fs

-- `value.key`, for a value that is not null and a key that only objects have.
unfoldable pub get : Text → Json → Option Json
get key (object fs) = find key fs
get key v = none

-- `Object.keys(value).length > 0`, for a value that counts as true.
unfoldable pub has_keys : Json → Bool
has_keys (string s) = true
has_keys (array (cons v xs)) = true
has_keys (object (field k v fs)) = true
has_keys v = false
