-- ===== src/Core/Routes/FileUrls.antt =====
-- The file URLs of crates/peryx-core/src/path.rs (`local_file_url`, `is_local_file_url`).
use velodex.Prelude.{
  ℕ, ◌≡◌, ◌≢◌, inl, inr, refl, sym, ap, ◌∙◌, true, some, [], ◌∷◌, ◌++◌, Str, codes, is_some, nat_eq,
  if◌then◌else◌, All, beq_refl, beq_false, Bool-cases,
}
use mathlib.Core.List.{append-nil}
use velodex.Core.Encoding.{is_unreserved, push_component, push_path, push_percent}
use velodex.Core.Encoding.Decoding.{append_one}
use velodex.Core.Routes.{split_once, strip_prefix, local_file_url, is_local_file_url}

append_assoc : (xs ys zs : Str) → (xs ++ ys) ++ zs ≡ xs ++ (ys ++ zs)
append_assoc [] ys zs = refl
append_assoc (x ∷ xs) ys zs = ap (λ rest. x ∷ rest) (append_assoc xs ys zs)

-- What is encoded is appended.
push_component-out : (text out : Str) → push_component out text ≡ out ++ push_component [] text
unfolding push_component
push_component-out [] out = sym (append-nil out)
push_component-out (byte ∷ text) out =
    push_component-out text (pushed out)
    ∙ ap (λ x. x ++ push_component [] text) one
    ∙ append_assoc out (pushed []) (push_component [] text)
    ∙ ap (λ x. out ++ x) (sym (push_component-out text (pushed [])))
  where
    pushed : Str → Str
    pushed x = if is_unreserved byte then x ++ (byte ∷ []) else push_percent x byte

    one : pushed out ≡ out ++ pushed []
    one = elim (Bool-cases (is_unreserved byte)) [
      | inl kept ↦ rw kept refl
      | inr other ↦ rw other refl
    ]

strip_prefix-append : (prefix text : Str) → strip_prefix prefix (prefix ++ text) ≡ some text
strip_prefix-append [] text = refl
strip_prefix-append (c ∷ prefix) text = rw (beq_refl c) (strip_prefix-append prefix text)

split_once-append :
    (c : ℕ) (before after : Str)
    → All (λ x. x ≢ c) before
    → split_once c (before ++ (c ∷ after)) ≡ some (before, after)
split_once-append c [] after none_in = rw (beq_refl c) refl
split_once-append c (x ∷ before) after (other, none_in) =
    rw (beq_false other, split_once-append c before after none_in) refl

abbrev pub file_prefix : Str → Str
file_prefix route = push_path (codes "/") route ++ codes "/files/"

-- The URL of a file is a local one of its route, and behind the route it has the digest, up to the
-- first slash, and the encoded name; the digest has no slash.
pub local_file_url-parts :
    (route sha256 filename : Str)
    → All (λ x. x ≢ b'/') sha256
    → (is_local_file_url route (local_file_url route sha256 filename) ≡ true)
      × (rest : Str) × (strip_prefix (file_prefix route) (local_file_url route sha256 filename)
          ≡ some rest)
      × (split_once b'/' rest ≡ some (sha256, push_component [] filename))
unfolding local_file_url is_local_file_url
local_file_url-parts route sha256 filename no_slash =
    let rest = sha256 ++ (b'/' ∷ push_component [] filename) in
    let found =
      ap (strip_prefix (file_prefix route)) whole ∙ strip_prefix-append (file_prefix route) rest in
    (
      ap is_some found,
      rest,
      found,
      split_once-append b'/' sha256 (push_component [] filename) no_slash,
    )
  where
    whole :
        local_file_url route sha256 filename
        ≡ file_prefix route ++ (sha256 ++ (b'/' ∷ push_component [] filename))
    whole =
        push_component-out filename (file_prefix route ++ (sha256 ++ codes "/"))
        ∙ append_assoc (file_prefix route) (sha256 ++ codes "/") (push_component [] filename)
        ∙ ap (λ x. file_prefix route ++ x) (append_one sha256 b'/' (push_component [] filename))
