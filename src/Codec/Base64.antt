-- ===== src/Codec/Base64.antt =====
-- Python's `base64.b64decode`, as the channel key needs it: characters outside the alphabet are
-- skipped, a complete padding ends the text, and a quad that is left open is an error.
use Prim.Native.Char.{code}
use meshtastic_things.Prelude.{
  ℕ, ◌+◌, ◌-◌, ◌*◌, ◌/◌, ◌%◌, String, Bool, true, false, ◌&&◌, ◌||◌, Option, none, some, List, [],
  ◌∷◌, ◌++◌, leb, ltb, ◌==◌, if◌then◌else◌,
}

-- The value of a character of the alphabet.
abbrev pub byte_value : ℕ → Option ℕ
byte_value c =
    if leb b'A' c && leb c b'Z'
    then some (c - b'A')
    else if leb b'a' c && leb c b'z'
    then some (c - b'a' + 26)
    else if leb b'0' c && leb c b'9'
    then some (c - b'0' + 52)
    else if c == b'+'
    then some 62
    else if c == b'/'
    then some 63
    else none

-- The position in the quad, the bits left over from the last character, the padding seen, the
-- bytes so far, and whether the text has ended.
pub record Base64State : Type 0 where
  pub quad_pos : ℕ
  pub leftchar : ℕ
  pub pads : ℕ
  pub out : List ℕ
  pub ended : Bool

abbrev pub start : Base64State
start = record { quad_pos = 0; leftchar = 0; pads = 0; out = []; ended = false }

abbrev pub take_value : ℕ → Base64State → Base64State
take_value v s =
    if s.quad_pos == 0
    then record s { quad_pos = 1; leftchar = v; pads = 0 }
    else if s.quad_pos == 1
    then record s {
      quad_pos = 2;
      leftchar = v % 16;
      pads = 0;
      out = s.out ++ (s.leftchar * 4 + v / 16) ∷ [];
    }
    else if s.quad_pos == 2
    then record s {
      quad_pos = 3;
      leftchar = v % 4;
      pads = 0;
      out = s.out ++ (s.leftchar * 16 + v / 4) ∷ [];
    }
    else record s {
      quad_pos = 0;
      leftchar = 0;
      pads = 0;
      out = s.out ++ (s.leftchar * 64 + v) ∷ [];
    }

abbrev pub take_pad : Base64State → Base64State
take_pad s =
    if leb 2 s.quad_pos
    then (if leb 4 (s.quad_pos + (s.pads + 1))
        then record s { pads = s.pads + 1; ended = true }
        else record s { pads = s.pads + 1 })
    else s

pub base64_step : ℕ → Base64State → Base64State
base64_step c s =
    if s.ended
    then s
    else if c == b'='
    then take_pad s
    else elim (byte_value c) [ none ↦ s | some v ↦ take_value v s ]

pub base64_loop : String → Base64State → Base64State
base64_loop String.[] s = s
base64_loop (String.◌∷◌ c text) s = base64_loop text (base64_step (code c) s)

-- `key_b64.encode("ascii")` raises on any other character.
abbrev pub is_ascii : String → Bool
is_ascii String.[] = true
is_ascii (String.◌∷◌ c text) = ltb (code c) 128 && is_ascii text

unfoldable pub b64decode : String → Option (List ℕ)
unfolding base64_step base64_loop
b64decode key =
    let s = base64_loop key start in
    if is_ascii key then (if s.ended || s.quad_pos == 0 then some s.out else none) else none
