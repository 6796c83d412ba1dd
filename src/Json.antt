-- ===== src/Json.antt =====
-- The decoded JSON and protobuf payloads that the pipeline passes on (Python's None, bool, int or
-- float, str, list and dict), with the dictionary operations that the source uses on them. The
-- numbers are a parameter: the source copies them, tests them for zero and hands them to `float`.
use meshtastic_things.Prelude.{
  String, Bool, true, false, not, Option, none, some, List, [], ◌∷◌, str_eq, if◌then◌else◌,
}

mutual
  pub data Value (N : Type 0) : Type 0 where
    null : Value N
    boolean : Bool → Value N
    number : N → Value N
    text : String → Value N
    array : Items N → Value N
    dict : Fields N → Value N

  pub data Items (N : Type 0) : Type 0 where
    nil : Items N
    cons : Value N → Items N → Items N

  pub data Fields (N : Type 0) : Type 0 where
    end : Fields N
    field : String → Value N → Fields N → Fields N

module _ {N : Type 0} where
  -- `d.items()`
  abbrev pub items : Fields N → List (String × Value N)
  items end = []
  items (field k v fs) = (k, v) ∷ items fs

  -- `d.get(k)`; a key stands once in a dictionary.
  unfoldable pub get : String → Fields N → Option (Value N)
  get k end = none
  get k (field j v fs) = if str_eq j k then some v else get k fs

  -- `isinstance(v, (int, float)) and not isinstance(v, bool)`
  abbrev pub as_number : Value N → Option N
  as_number (number n) = some n
  as_number _ = none

  abbrev pub is_number : Value N → Bool
  is_number (number n) = true
  is_number _ = false

  -- `bool(v)`, given the test of a number for zero.
  abbrev pub truthy : (N → Bool) → Value N → Bool
  truthy is_zero null = false
  truthy is_zero (boolean b) = b
  truthy is_zero (number n) = not (is_zero n)
  truthy is_zero (text s) = not (str_eq s "")
  truthy is_zero (array nil) = false
  truthy is_zero (array (cons v vs)) = true
  truthy is_zero (dict end) = false
  truthy is_zero (dict (field k v fs)) = true

-- `bool(s)` of a text that may be None.
abbrev pub truthy_text : Option String → Bool
truthy_text none = false
truthy_text (some s) = not (str_eq s "")
