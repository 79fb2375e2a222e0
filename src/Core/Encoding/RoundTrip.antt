-- ===== src/Core/Encoding/RoundTrip.antt =====
-- The decoder on what is encoded (`push_component` and `push_path` of
-- crates/peryx-core/src/url_encoding.rs, `decode_percent` of crates/peryx-core/src/path.rs).
use velodex.Prelude.{
  holds_below, holds_below_lem, ℕ, ◌/◌, ◌%◌, ◌<◌, ◌≡◌, ◌≢◌, inl, inr, refl, ap, subst, Bool, true,
  Option, none, some, [], ◌∷◌, ◌++◌, Str, arith, is_some_and, ◌==◌, nat_eq, nat_beq_iff,
  if◌then◌else◌, Bool-cases, All,
}
use mathlib.Core.List.{append-nil}
use velodex.Prelude.Results.{ok}
use velodex.Core.Encoding.{
  is_unreserved, hex_digit, push_percent, push_component, push_path, hex_byte, decode_percent,
}
use velodex.Core.Encoding.Decoding.{
  Decodes, done, plain, escaped, Decodes-append, append_one, decode_percent_iff,
}

abbrev is_inverse : ℕ → Bool
is_inverse byte =
    is_some_and (λ b. b == byte) (hex_byte (hex_digit (byte / 16)) (hex_digit (byte % 16)))

all_inverse : holds_below 256 is_inverse ≡ true
all_inverse = refl

hex_byte-hex_digit :
    (byte : ℕ) → byte < 256 → hex_byte (hex_digit (byte / 16)) (hex_digit (byte % 16)) ≡ some byte
hex_byte-hex_digit byte small =
    from (hex_byte (hex_digit (byte / 16)) (hex_digit (byte % 16)))
      (holds_below_lem 256 is_inverse byte all_inverse small)
  where
    from : (o : Option ℕ) → is_some_and (λ b. b == byte) o ≡ true → o ≡ some byte
    from none h = cc
    from (some b) h = ap some ((nat_beq_iff b byte).0 h)

module _ (out text : Str) (decodes : Decodes out text) where
  pub percent-Decodes :
      (byte : ℕ) → byte < 256 → Decodes (push_percent out byte) (text ++ (byte ∷ []))
  percent-Decodes byte small = Decodes-append decodes (escaped (hex_byte-hex_digit byte small) done)

  pub kept-Decodes : (byte : ℕ) → byte ≢ b'%' → Decodes (out ++ (byte ∷ [])) (text ++ (byte ∷ []))
  kept-Decodes byte other = Decodes-append decodes (plain other done)

  pub component-Decodes :
      (byte : ℕ)
      → byte < 256
      → Decodes
          (if is_unreserved byte then out ++ (byte ∷ []) else push_percent out byte)
          (text ++ (byte ∷ []))
  component-Decodes byte small = elim (Bool-cases (is_unreserved byte)) [
    | inl kept ↦ rw kept (
        kept-Decodes byte (λ e.
          let sign : is_unreserved b'%' ≡ true = subst (λ b. is_unreserved b ≡ true) e kept in cc))
    | inr other ↦ rw other (percent-Decodes byte small)
  ]

  path-Decodes :
      (byte : ℕ)
      → byte < 256
      → Decodes
          (if byte == b'/'
            then out ++ (b'/' ∷ [])
            else if is_unreserved byte
            then out ++ (byte ∷ [])
            else push_percent out byte)
          (text ++ (byte ∷ []))
  path-Decodes byte small = elim (Bool-cases (byte == b'/')) [
    | inl slash ↦
        rw slash (rw ((nat_beq_iff byte b'/').0 slash) (kept-Decodes b'/' (λ e. omega arith)))
    | inr other ↦ rw other (component-Decodes byte small)
  ]

pub push_component-Decodes :
    (more : Str)
    → All (λ byte. byte < 256) more
    → (out text : Str) → Decodes out text
    → Decodes (push_component out more) (text ++ more)
unfolding push_component
push_component-Decodes [] small out text d = rw (append-nil text) d
push_component-Decodes (byte ∷ more) (fits, small) out text d =
    subst (Decodes _) (append_one text byte more) (
      push_component-Decodes more small _ (text ++ (byte ∷ []))
        (component-Decodes out text d byte fits))

pub push_path-Decodes :
    (more : Str)
    → All (λ byte. byte < 256) more
    → (out text : Str) → Decodes out text
    → Decodes (push_path out more) (text ++ more)
unfolding push_path
push_path-Decodes [] small out text d = rw (append-nil text) d
push_path-Decodes (byte ∷ more) (fits, small) out text d =
    subst (Decodes _) (append_one text byte more)
      (push_path-Decodes more small _ (text ++ (byte ∷ [])) (path-Decodes out text d byte fits))

-- The decoder gives back a text that was encoded as a component or as a path, for every text of bytes
-- that is UTF-8, as its encodings, of ASCII bytes, are.
pub decode_percent-push :
    (is_utf8 : Str → Bool) (text : Str)
    → All (λ byte. byte < 256) text
    → is_utf8 text ≡ true
    → is_utf8 (push_component [] text) ≡ true
    → is_utf8 (push_path [] text) ≡ true
    → (decode_percent is_utf8 (push_component [] text) ≡ ok text)
      × (decode_percent is_utf8 (push_path [] text) ≡ ok text)
decode_percent-push is_utf8 text bytes valid valid_component valid_path = (
  (decode_percent_iff is_utf8 (push_component [] text) text valid_component).1
      (push_component-Decodes text bytes [] [] done, valid),
  (decode_percent_iff is_utf8 (push_path [] text) text valid_path).1
      (push_path-Decodes text bytes [] [] done, valid),
)
