-- ===== src/Core/Encoding/Decoding.antt =====
-- What the decoder accepts: `decode_percent` of crates/peryx-core/src/path.rs.
use velodex.Prelude.{
  ℕ, zero, suc, ◌≤◌, ◌≡◌, ◌≢◌, ◌↔◌, inl, inr, refl, sym, ap, subst, ◌∙◌, Bool, true, false, Option,
  some, [], ◌∷◌, ◌++◌, Str, arith, length, contains, ◌==◌, nat_eq, nat_beq_iff, Bool-cases,
  Option-cases, beq_false,
}
use mathlib.Core.List.{append-nil}
use velodex.Prelude.Results.{Result, ok}
use velodex.Core.Encoding.{
  hex_byte, PathSafetyError, escape, next_byte, decode_loop, decode_percent,
}

-- The bytes that a text stands for: an escape for the byte that its two digits are, every other byte
-- but the percent sign for itself.
pub data Decodes : Str → Str → Type 0 where
  done : Decodes [] []
  plain :
      {byte : ℕ} {text out : Str}
      → byte ≢ b'%'
      → Decodes text out
      → Decodes (byte ∷ text) (byte ∷ out)
  escaped :
      {high low byte : ℕ} {text out : Str}
      → hex_byte high low ≡ some byte
      → Decodes text out
      → Decodes (b'%' ∷ high ∷ low ∷ text) (byte ∷ out)

-- Without a percent sign a text stands for itself.
pub Decodes-itself : {text out : Str} → Decodes text out → contains text b'%' ≡ false → text ≡ out
Decodes-itself done absent = refl
Decodes-itself (plain {byte = byte} other d) absent =
    ap (λ rest. byte ∷ rest) (Decodes-itself d (ground (arith, absent)))
Decodes-itself (escaped h d) absent = cc

pub itself-Decodes : (text : Str) → contains text b'%' ≡ false → Decodes text text
itself-Decodes [] absent = done
itself-Decodes (byte ∷ text) absent =
    plain (ground (arith, absent)) (itself-Decodes text (ground (arith, absent)))

pub Decodes-append :
    {text out rest more : Str}
    → Decodes text out
    → Decodes rest more
    → Decodes (text ++ rest) (out ++ more)
Decodes-append done e = e
Decodes-append (plain other d) e = plain other (Decodes-append d e)
Decodes-append (escaped h d) e = escaped h (Decodes-append d e)

pub append_one :
    (out : Str) (byte : ℕ) (more : Str) → (out ++ (byte ∷ [])) ++ more ≡ out ++ (byte ∷ more)
append_one [] byte more = refl
append_one (x ∷ out) byte more = ap (λ rest. x ∷ rest) (append_one out byte more)

pub decode_loop_complete :
    {text more : Str} (fuel : ℕ) (out : Str)
    → Decodes text more
    → length text ≤ fuel
    → decode_loop fuel text out ≡ some (out ++ more)
unfolding decode_loop
decode_loop_complete fuel out done enough = ap some (sym (append-nil out))
decode_loop_complete zero out (plain other d) enough = absurd (omega arith)
decode_loop_complete zero out (escaped h d) enough = absurd (omega arith)
decode_loop_complete (suc fuel) out (plain {byte = byte} {text = text} {out = more} other d)
      enough =
    let kept : (byte == b'%') ≡ false = beq_false other in
    rw (kept, decode_loop)
      (decode_loop_complete fuel (out ++ (byte ∷ [])) d (omega arith)
        ∙ ap some (append_one out byte more))
decode_loop_complete (suc fuel) out (escaped {byte = byte} {out = more} h d) enough =
    rw (h, decode_loop)
      (decode_loop_complete fuel (out ++ (byte ∷ [])) d (omega arith)
        ∙ ap some (append_one out byte more))

escape-Decodes :
    (text : Str) (byte : ℕ) (left more : Str)
    → escape text ≡ some (byte, left)
    → Decodes left more
    → Decodes (b'%' ∷ text) (byte ∷ more)
escape-Decodes [] byte left more h d = cc
escape-Decodes (high ∷ []) byte left more h d = cc
escape-Decodes (high ∷ low ∷ text) byte left more h d = elim (Option-cases (hex_byte high low)) [
  | inl bad ↦ let h' = rw bad at h in cc
  | inr (value, good) ↦
      let h' : ◌≡◌ {A = Option (ℕ × Str)} (some (value, text)) (some (byte, left)) = rw good at h in
      let same_byte : value ≡ byte = cc in
      let same_text : text ≡ left = cc in
      escaped (good ∙ ap some same_byte) (subst (λ x. Decodes x more) (sym same_text) d)
]

next_byte-Decodes :
    (first : ℕ) (text : Str) (byte : ℕ) (left more : Str)
    → next_byte first text ≡ some (byte, left)
    → Decodes left more
    → Decodes (first ∷ text) (byte ∷ more)
next_byte-Decodes first text byte left more h d = elim (Bool-cases (first == b'%')) [
  | inl sign ↦
      let h' : escape text ≡ some (byte, left) = rw sign at h in
      subst (λ x. Decodes (x ∷ text) (byte ∷ more)) (sym ((nat_beq_iff first b'%').0 sign))
        (escape-Decodes text byte left more h' d)
  | inr other ↦
      let h' : ◌≡◌ {A = Option (ℕ × Str)} (some (first, text)) (some (byte, left)) =
        rw other at h in
      let same_byte : first ≡ byte = cc in
      let same_text : text ≡ left = cc in
      subst (λ x. Decodes (first ∷ x) (byte ∷ more)) (sym same_text)
        (subst (λ x. Decodes (first ∷ left) (x ∷ more)) same_byte
          (plain (λ e. ground (arith, e, other)) d))
]

pub decode_loop_sound :
    (fuel : ℕ) (text out result : Str)
    → decode_loop fuel text out ≡ some result
    → (more : Str) × (result ≡ out ++ more) × Decodes text more
unfolding decode_loop
decode_loop_sound fuel [] out result h =
    let same : out ≡ result = cc in ([], sym same ∙ sym (append-nil out), done)
decode_loop_sound zero (byte ∷ text) out result h = cc
decode_loop_sound (suc fuel) (first ∷ text) out result h =
    elim (Option-cases (next_byte first text)) [
      | inl bad ↦ let h' = rw (bad, decode_loop) at h in cc
      | inr ((byte, left), good) ↦
          let h' : decode_loop fuel left (out ++ (byte ∷ [])) ≡ some result =
            rw (good, decode_loop) at h in
          let (more, e, d) = decode_loop_sound fuel left (out ++ (byte ∷ [])) result h' in
          (
            byte ∷ more,
            e ∙ append_one out byte more,
            next_byte-Decodes first text byte left more good d,
          )
    ]

-- A text is decoded exactly if it has a decoding that is UTF-8, and that is then the result: an escape
-- stands for the byte of its two digits, every other byte for itself. The input itself is UTF-8.
pub decode_percent_iff :
    (is_utf8 : Str → Bool) (input out : Str)
    → is_utf8 input ≡ true
    → (decode_percent is_utf8 input ≡ ok out) ↔ (Decodes input out × (is_utf8 out ≡ true))
unfolding decode_percent
decode_percent_iff is_utf8 input out valid = elim (Bool-cases (contains input b'%')) [
  | inr absent ↦ (
    λ h.
        let h' : decoded input ≡ decoded out = rw absent at h in
        let same : input ≡ out = cc in
        subst (λ x. Decodes input x × (is_utf8 x ≡ true)) same (itself-Decodes input absent, valid),
    λ (d, u). rw absent (ap decoded (Decodes-itself d absent)),
  )
  | inl present ↦ (
    λ h. elim (Option-cases (decode_loop (length input) input [])) [
      | inl bad ↦ let h' = rw (present, bad) at h in cc
      | inr (result, good) ↦ elim (Bool-cases (is_utf8 result)) [
        | inr broken ↦ let h' = rw (present, good, broken) at h in cc
        | inl fine ↦
            let h' : decoded result ≡ decoded out = rw (present, good, fine) at h in
            let same : result ≡ out = cc in
            let (more, e, d) = decode_loop_sound (length input) input [] result good in
            (subst (λ x. Decodes input x) (sym e ∙ same) d, subst (λ x. is_utf8 x ≡ true) same fine)
      ]
    ],
    λ (d, u). rw (present, decode_loop_complete (length input) [] d (omega arith), u) refl,
  )
]
  where
    decoded : Str → Result PathSafetyError Str
    decoded x = ok x
