-- ===== src/Identity/Basic.antt =====
-- The Basic header of crates/peryx-identity/src/lib.rs (`parse_basic`, `strip_auth_scheme`). `trim` and
-- the base64 decoder with its check for UTF-8 are arguments. `str::split_at_checked` also refuses to
-- split a character, which cannot be where the bytes before are those of an ASCII scheme.
use velodex.Prelude.{
  ℕ, ◌+◌, ◌<◌, ◌≡◌, ◌≢◌, inl, inr, refl, ap, ◌∙◌, Bool-cases, Option-cases, false, ◌&&◌, Option,
  none, some, and_then, [], ◌∷◌, ◌++◌, Str, codes, leb, All, ◌==◌, nat_eq, list_eq, if◌then◌else◌,
  beq_false,
}

pub record BasicCredentials : Type 0 where
  pub user : Str
  pub password : Str

abbrev pub lower : ℕ → ℕ
lower c = if leb b'A' c && leb c b'Z' then c + 32 else c

-- The header behind the scheme, which is compared without regard to case.
unfoldable pub strip_scheme : Str → Str → Option Str
strip_scheme text [] = some text
strip_scheme [] (c ∷ scheme) = none
strip_scheme (b ∷ text) (c ∷ scheme) =
    let rest = strip_scheme text scheme in if lower b == lower c then rest else none

abbrev pub strip_space : Str → Option Str
strip_space [] = none
strip_space (c ∷ text) = if c == b' ' then some text else none

unfoldable pub strip_auth_scheme : Str → Str → Option Str
unfolding strip_scheme
strip_auth_scheme header scheme = and_then (strip_scheme header scheme) strip_space

-- `str::split_once(':')`
abbrev pub add_to_user : ℕ → Option BasicCredentials → Option BasicCredentials
add_to_user c none = none
add_to_user c (some credentials) = some (record credentials { user = c ∷ credentials.user })

unfoldable pub split_once : Str → Option BasicCredentials
split_once [] = none
split_once (c ∷ text) =
    let rest = add_to_user c (split_once text) in
    if c == b':' then some (record { user = []; password = text }) else rest

module _ (trim : Str → Str) (decode : Str → Option Str) where
  unfoldable pub parse_basic : Str → Option BasicCredentials
  unfolding strip_auth_scheme split_once
  parse_basic header =
      and_then (strip_auth_scheme header (codes "Basic"))
        (λ encoded. and_then (decode (trim encoded)) split_once)

-- The user ends at the first colon, and the password is all that follows.
split_once_lem :
    (user password : Str)
    → All (λ c. c ≢ b':') user
    → split_once (user ++ (b':' ∷ password)) ≡ some (record { user = user; password = password })
unfolding split_once
split_once_lem [] password h = refl
split_once_lem (c ∷ user) password (ne, h) =
    let other : (c == b':') ≡ false = beq_false ne in
    rw (other, split_once_lem user password h) refl

-- A header `Basic ` with an encoded `user:password` is read as these two, where the user has no colon
-- and the decoder gives back what was encoded.
pub parse_basic_lem :
    (trim : Str → Str) (decode : Str → Option Str) (encoded user password : Str)
    → decode (trim encoded) ≡ some (user ++ (b':' ∷ password))
    → All (λ c. c ≢ b':') user
    → parse_basic trim decode (codes "Basic " ++ encoded)
      ≡ some (record { user = user; password = password })
unfolding parse_basic
parse_basic_lem trim decode encoded user password decoded h =
    ap (λ o. and_then o split_once) decoded ∙ split_once_lem user password h

-- What is split at a colon has only bytes if the text has.
abbrev pub HasBytes : Option BasicCredentials → Type 0
HasBytes none = Unit
HasBytes (some credentials) = All (λ b. b < 256) credentials.password

split_once-HasBytes : (text : Str) → All (λ b. b < 256) text → HasBytes (split_once text)
unfolding split_once
split_once-HasBytes [] h = tt
split_once-HasBytes (c ∷ text) (first, h) = elim (Bool-cases (c == b':')) [
  | inl colon ↦ rw colon h
  | inr other ↦ rw other (added (split_once text) (split_once-HasBytes text h))
]
  where
    added : (o : Option BasicCredentials) → HasBytes o → HasBytes (add_to_user c o)
    added none h = tt
    added (some credentials) h = h

pub parse_basic-HasBytes :
    (trim : Str → Str) (decode : Str → Option Str) (header : Str)
    → ((encoded text : Str) → decode encoded ≡ some text → All (λ b. b < 256) text)
    → HasBytes (parse_basic trim decode header)
unfolding parse_basic
parse_basic-HasBytes trim decode header decodes =
    elim (Option-cases (strip_auth_scheme header (codes "Basic"))) [
      | inl e ↦ rw e tt
      | inr (encoded, e) ↦ elim (Option-cases (decode (trim encoded))) [
        | inl e' ↦ rw (e, e') tt
        | inr (text, e') ↦ rw (e, e') (split_once-HasBytes text (decodes (trim encoded) text e'))
      ]
    ]
