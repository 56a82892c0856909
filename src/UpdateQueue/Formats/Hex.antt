-- ===== src/UpdateQueue/Formats/Hex.antt =====
-- The hexadecimal round trip behind `_require_uid` in rightmemory/update_queue.py.
use mathlib.Core.List.{append_assoc, append-nil}
use native.Mathlib.Nat.{zero-add}
use mathlib.Core.Path.{subst}
use right_memory.Common.{
  ℕ, suc, ◌+◌, ◌*◌, ◌/◌, ◌%◌, String, ◌≡◌, true, [], ◌∷◌, ◌++◌, length, all, Text, text_eq_refl,
  arith, if◌then◌else◌, ok, err, Bool-cases, inl, inr,
}
use right_memory.UpdateQueue.Formats.{
  is_hex, hex_text, hex_value, int_hex, hex_digit, format_hex, uuid_hex, require_uid, format_error,
}

-- One digit more is divided off again.
digit-hex_value : (acc c : ℕ) → is_hex c ≡ true → hex_digit ((acc * 16 + hex_value c) % 16) ≡ c
unfolding is_hex hex_value hex_digit
digit-hex_value acc c h = ground arith

div-hex_value : (acc c : ℕ) → is_hex c ≡ true → (acc * 16 + hex_value c) / 16 ≡ acc
unfolding is_hex hex_value
div-hex_value acc c h = ground arith

format_hex-int_hex :
    (width acc : ℕ) (cs : Text)
    → all is_hex cs ≡ true
    → format_hex (length cs + width) (int_hex acc cs) ≡ format_hex width acc ++ cs
unfolding format_hex int_hex
format_hex-int_hex width acc [] h = simp (zero-add, append-nil)
format_hex-int_hex width acc (c ∷ cs) h =
    let e : suc (length cs) + width ≡ length cs + suc width = omega arith in
    rw (e, format_hex-int_hex (suc width) (acc * 16 + hex_value c) cs (ground arith))
      (rw (digit-hex_value acc c (ground arith), div-hex_value acc c (ground arith))
        (append_assoc (format_hex width acc) (c ∷ []) cs))

-- Reading hex digits as a number and printing it at the same width gives the digits back, so
-- the comparison with `uuid.UUID(hex=value).hex` refuses nothing that the pattern let through.
pub uuid_hex_fixed : (value : Text) → hex_text 32 value ≡ true → uuid_hex value ≡ value
unfolding uuid_hex hex_text
uuid_hex_fixed value h =
    let e : length value + 0 ≡ 32 = ground arith in
    subst (λ width. format_hex width (int_hex 0 value) ≡ value) e
      (format_hex-int_hex 0 0 value (ground arith))

-- `_require_uid` accepts exactly the texts of 32 lowercase hex digits, and returns them as given.
pub require_uid_lem :
    (label : String) (value : Text)
    → require_uid label value ≡ (
        if hex_text 32 value
        then ok value
        else err (format_error label "must be lowercase UUID hex"))
unfolding require_uid
require_uid_lem label value = elim (Bool-cases (hex_text 32 value)) [
  | inl h ↦ rw (h, uuid_hex_fixed value h, text_eq_refl value)
  | inr h ↦ rw h
]
