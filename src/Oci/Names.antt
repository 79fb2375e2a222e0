-- ===== src/Oci/Names.antt =====
-- The grammar of names, tags and digests (crates/peryx-ecosystem-oci/src/name.rs).
pub mod Components
pub mod Digests
use velodex.Prelude.{
  ℕ, zero, suc, ◌+◌, Bool, true, false, not, ◌&&◌, ◌||◌, Option, none, some, and_then, List, [],
  ◌∷◌, ◌++◌, Str, codes, any, all, is_empty, is_some_and, length, leb, contains, ◌==◌, nat_eq,
  list_eq, if◌then◌else◌,
}
use velodex.Core.Encoding.{is_within}
use velodex.Core.Routes.{split_once}

pub data Reference : Type 0 where
  tag digest : Str → Reference

abbrev pub is_alnum : ℕ → Bool
is_alnum byte = is_within b'a' b'z' byte || is_within b'0' b'9' byte

-- `is_ascii_alphanumeric`
abbrev pub is_alphanumeric : ℕ → Bool
is_alphanumeric byte = is_within b'A' b'Z' byte || is_alnum byte

-- `slice::first` and `slice::last` under `is_some_and`
abbrev pub first_is : (ℕ → Bool) → Str → Bool
first_is test [] = false
first_is test (byte ∷ text) = test byte

abbrev pub last_is : (ℕ → Bool) → Str → Bool
last_is test [] = false
last_is test (byte ∷ []) = test byte
last_is test (byte ∷ next ∷ text) = last_is test (next ∷ text)

-- The inner loop: the bytes up to the next one that is alphanumeric, and those from there on.
abbrev pub separator_of : Str → Str
separator_of [] = []
separator_of (byte ∷ text) =
    let rest = separator_of text in if is_alnum byte then [] else byte ∷ rest

abbrev pub behind_separator : Str → Str
behind_separator [] = []
behind_separator (byte ∷ text) =
    let rest = behind_separator text in if is_alnum byte then byte ∷ text else rest

abbrev pub is_separator : Str → Bool
is_separator separator =
    (separator == codes ".")
    || ((separator == codes "_") || ((separator == codes "__") || all (λ b. b == b'-') separator))

-- The outer loop, on the bytes from `index` on. A round takes a byte at least, so that their number is
-- fuel enough.
pub scan : ℕ → Str → Bool
scan fuel [] = true
scan zero (byte ∷ text) = false
scan (suc fuel) (byte ∷ text) =
    let rest = scan fuel (if is_alnum byte then text else behind_separator text) in
    if is_alnum byte then rest else is_separator (byte ∷ separator_of text) && rest

unfoldable pub valid_name_component : Str → Bool
unfolding scan
valid_name_component component =
    if not (first_is is_alnum component) || not (last_is is_alnum component)
    then false
    else scan (length component) component

-- `components.join("/")`
abbrev pub join : List Str → Str
join [] = []
join (component ∷ []) = component
join (component ∷ next ∷ components) = component ++ (b'/' ∷ join (next ∷ components))

unfoldable pub join_name : List Str → Option Str
unfolding valid_name_component
join_name components =
    if is_empty components || not (all valid_name_component components)
    then none
    else if leb (length (join components)) 255
    then some (join components)
    else none

unfoldable pub valid_tag : Str → Bool
valid_tag [] = false
valid_tag (first ∷ bytes) =
    leb (length (first ∷ bytes)) 128
    && ((is_alphanumeric first || (first == b'_'))
        && all
            (λ byte. is_alphanumeric byte || ((byte == b'.') || ((byte == b'_') || (byte == b'-'))))
            bytes)

abbrev pub valid_algorithm : Str → Bool
valid_algorithm algorithm =
    not (is_empty algorithm)
    && all
        (λ byte.
          is_alnum byte
          || ((byte == b'+') || ((byte == b'.') || ((byte == b'_') || (byte == b'-')))))
        algorithm

abbrev pub valid_encoded : Str → Bool
valid_encoded encoded =
    not (is_empty encoded)
    && all (λ byte. is_alnum byte || ((byte == b'=') || ((byte == b'_') || (byte == b'-')))) encoded

unfoldable pub parse_digest : Str → Option Str
parse_digest text =
    and_then (split_once b':' text)
      (λ parts. if valid_algorithm parts.0 && valid_encoded parts.1 then some text else none)

unfoldable pub parse_reference : Str → Option Reference
unfolding parse_digest valid_tag
parse_reference reference =
    if contains reference b':'
    then and_then (parse_digest reference) (λ text. some (digest text))
    else if valid_tag reference
    then some (tag reference)
    else none

-- `algorithm.split(['+', '.', '_', '-'])`
abbrev pub splits_algorithm : ℕ → Bool
splits_algorithm byte = (byte == b'+') || ((byte == b'.') || ((byte == b'_') || (byte == b'-')))

abbrev pub first_token : Str → Str
first_token [] = []
first_token (byte ∷ text) =
    let rest = first_token text in if splits_algorithm byte then [] else byte ∷ rest

abbrev pub later_tokens : Str → List Str
later_tokens [] = []
later_tokens (byte ∷ text) =
    let rest = later_tokens text in if splits_algorithm byte then first_token text ∷ rest else rest

abbrev pub is_token : Str → Bool
is_token part = not (is_empty part) && all is_alnum part

abbrev pub is_lower_hex : ℕ → Str → Bool
is_lower_hex size encoded =
    (length encoded == size)
    && all (λ byte. is_within b'0' b'9' byte || is_within b'a' b'f' byte) encoded

abbrev pub is_encoded : Str → Bool
is_encoded encoded =
    not (is_empty encoded)
    && all (λ byte. is_alphanumeric byte || ((byte == b'=') || ((byte == b'_') || (byte == b'-'))))
        encoded

abbrev pub has_registered_form : Str → Str → Bool
has_registered_form algorithm encoded =
    if algorithm == codes "sha256"
    then is_lower_hex 64 encoded
    else if algorithm == codes "sha512"
    then is_lower_hex 128 encoded
    else true

unfoldable pub valid_content_digest : Str → Bool
valid_content_digest text = elim (split_once b':' text) [
  | none ↦ false
  | some (algorithm, encoded) ↦
      if not (all is_token (first_token algorithm ∷ later_tokens algorithm))
        || not (is_encoded encoded)
      then false
      else has_registered_form algorithm encoded
]
