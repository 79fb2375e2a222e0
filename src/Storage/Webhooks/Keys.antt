-- ===== src/Storage/Webhooks/Keys.antt =====
-- How identifiers and keys of deliveries are told apart (`due_key` of
-- crates/peryx-storage/src/meta/webhook.rs and the format of an identifier).
use velodex.Prelude.{
  holds_below, holds_below_lem, ℕ, zero, suc, ◌+◌, ◌*◌, ◌/◌, ◌%◌, ◌^◌, ◌<◌, ◌≡◌, refl, sym, ap, ◌∙◌,
  Bool, true, [], ◌∷◌, ◌++◌, Str, arith, get_or, drop, ◌==◌, nat_eq, nat_beq_iff,
}
use velodex.Prelude.Int.{ℤ}
use velodex.Core.Encoding.{hex_nibble}
use velodex.Storage.Webhooks.{digit, hexadecimal, due_key, delivery_id}

-- The key of a due delivery ends with its identifier.
pub due_key-id :
    (timestamp other : ℤ) (id other_id : Str)
    → due_key timestamp id ≡ due_key other other_id
    → id ≡ other_id
unfolding due_key
due_key-id timestamp other id other_id e =
    sym (behind timestamp id) ∙ ap (drop 21) e ∙ behind other other_id
  where
    behind : (t : ℤ) (x : Str) → drop 21 (due_key t x) ≡ x
    behind t x = refl

-- The number that hexadecimal digits are read as.
abbrev value_of : ℕ → ℕ
value_of byte = get_or 0 (hex_nibble byte)

read : ℕ → Str → ℕ
read acc [] = acc
read acc (byte ∷ text) = read (acc * 16 + value_of byte) text

read_snoc :
    (acc : ℕ) (text : Str) (byte : ℕ)
    → read acc (text ++ (byte ∷ [])) ≡ read acc text * 16 + value_of byte
unfolding read
read_snoc acc [] byte = refl
read_snoc acc (x ∷ text) byte = read_snoc (acc * 16 + value_of x) text byte

abbrev reads_back : ℕ → Bool
reads_back n = value_of (digit n) == n

value_of-digit : (n : ℕ) → n < 16 → value_of (digit n) ≡ n
value_of-digit n small =
    (nat_beq_iff (value_of (digit n)) n).0 (holds_below_lem 16 reads_back n all_back small)
  where
    all_back : holds_below 16 reads_back ≡ true
    all_back = refl

-- How many numbers the digits have room for.
room_for : ℕ → ℕ
room_for zero = 1
room_for (suc width) = 16 * room_for width

read-hexadecimal : (width n : ℕ) → n < room_for width → read 0 (hexadecimal width n) ≡ n
unfolding read hexadecimal room_for
read-hexadecimal zero n small = omega arith
read-hexadecimal (suc width) n small =
    read_snoc 0 (hexadecimal width (n / 16)) (digit (n % 16))
    ∙ omega (
      arith,
      read-hexadecimal width (n / 16) (omega (arith, small)),
      value_of-digit (n % 16) (omega arith),
    )

-- Two serials of 64 bits have two identifiers.
pub delivery_id-injective :
    (m n : ℕ) → m < 2 ^ 64 → n < 2 ^ 64 → delivery_id m ≡ delivery_id n → m ≡ n
unfolding delivery_id room_for
delivery_id-injective m n small small' e =
    let digits : hexadecimal 16 m ≡ hexadecimal 16 n = ap (drop 3) e in
    sym (read-hexadecimal 16 m small) ∙ ap (read 0) digits ∙ read-hexadecimal 16 n small'
