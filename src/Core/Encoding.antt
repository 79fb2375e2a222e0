-- ===== src/Core/Encoding.antt =====
-- Percent encoding (crates/peryx-core/src/url_encoding.rs) and its decoder (`decode_percent` of
-- crates/peryx-core/src/path.rs). A `u8` is a number, and what its operators drop is written out.
pub mod Decoding
pub mod RoundTrip
use velodex.Prelude.{
  ℕ, zero, suc, ◌+◌, ◌-◌, ◌*◌, ◌/◌, ◌%◌, Bool, ◌&&◌, ◌||◌, Option, none, some, and_then, List, [],
  ◌∷◌, ◌++◌, Str, codes, leb, length, get_or, get_elem?, contains, ◌==◌, nat_eq, if◌then◌else◌,
}
use velodex.Prelude.Results.{Result, ok, err}
use Prim.Native.Nat.{bit_or}

abbrev pub is_within : ℕ → ℕ → ℕ → Bool
is_within first last byte = leb first byte && leb byte last

-- The bytes that `push_component` keeps.
abbrev pub is_unreserved : ℕ → Bool
is_unreserved byte =
    is_within b'A' b'Z' byte
    || (is_within b'a' b'z' byte
        || (is_within b'0' b'9' byte
            || ((byte == b'-') || ((byte == b'.') || ((byte == b'_') || (byte == b'~'))))))

-- A digit of the constant `HEX`; a nibble is always one of its indices.
abbrev pub hex_digit : ℕ → ℕ
hex_digit nibble = get_or 0 (get_elem? (codes "0123456789ABCDEF") nibble)

abbrev pub push_percent : Str → ℕ → Str
push_percent out byte = out ++ (b'%' ∷ hex_digit (byte / 16) ∷ hex_digit (byte % 16) ∷ [])

unfoldable pub push_component : Str → Str → Str
push_component out [] = out
push_component out (byte ∷ text) =
    push_component (if is_unreserved byte then out ++ (byte ∷ []) else push_percent out byte) text

unfoldable pub push_path : Str → Str → Str
push_path out [] = out
push_path out (byte ∷ text) =
    push_path
      (if byte == b'/'
        then out ++ (b'/' ∷ [])
        else if is_unreserved byte
        then out ++ (byte ∷ [])
        else push_percent out byte)
      text

abbrev pub hex_nibble : ℕ → Option ℕ
hex_nibble byte =
    if is_within b'0' b'9' byte
    then some (byte - b'0')
    else if is_within b'a' b'f' byte
    then some (byte - b'a' + 10)
    else if is_within b'A' b'F' byte
    then some (byte - b'A' + 10)
    else none

-- `hex_nibble(hex[0])? << 4 | hex_nibble(hex[1])?`
abbrev pub hex_byte : ℕ → ℕ → Option ℕ
hex_byte high low =
    and_then (hex_nibble high)
      (λ h. and_then (hex_nibble low) (λ l. some (bit_or (h * 16 % 256) l)))

pub data PathSafetyError : Type 0 where
  invalid_digest invalid_filename invalid_route reserved_route invalid_encoding :
      Str → PathSafetyError
  invalid_path_segment : Str → Str → PathSafetyError

-- One round of the loop, on the bytes from `position` on: the byte that it pushes, and the bytes from
-- the next position on.
abbrev pub escape : Str → Option (ℕ × Str)
escape (high ∷ low ∷ left) = and_then (hex_byte high low) (λ byte. some (byte, left))
escape _ = none

abbrev pub next_byte : ℕ → Str → Option (ℕ × Str)
next_byte byte left = if byte == b'%' then escape left else some (byte, left)

-- The loop; a round takes a byte at least, so that the length of the input is fuel enough.
pub decode_loop : ℕ → Str → Str → Option Str
decode_loop fuel [] out = some out
decode_loop zero (byte ∷ left) out = none
decode_loop (suc fuel) (byte ∷ left) out = elim (next_byte byte left) [
  | none ↦ none
  | some (decoded, left') ↦ decode_loop fuel left' (out ++ (decoded ∷ []))
]

-- `decode_percent`, where `String::from_utf8` succeeds on the byte strings that `is_utf8` holds of
unfoldable pub decode_percent : (Str → Bool) → Str → Result PathSafetyError Str
unfolding decode_loop
decode_percent is_utf8 input =
    if contains input b'%'
    then (elim (decode_loop (length input) input []) [
      | none ↦ err (invalid_encoding input)
      | some out ↦ if is_utf8 out then ok out else err (invalid_encoding input)
    ])
    else ok input
