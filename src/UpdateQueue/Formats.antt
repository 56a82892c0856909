-- ===== src/UpdateQueue/Formats.antt =====
-- rightmemory/update_queue.py: the exceptions of the module and the checks of single fields, each
-- of which returns its value or raises.
pub mod Hex
pub mod Uids
use mathlib.Core.List.{reverse}
use right_memory.Common.{
  after_prefix, ℕ, zero, suc, ◌+◌, ◌-◌, ◌*◌, ◌/◌, ◌%◌, String, ◌≡◌, Bool, true, false, not, ◌&&◌,
  ◌||◌, Option, none, some, List, [], ◌∷◌, ◌++◌, length, all, any, Text, codes, text_eq, text_in,
  strip, is_space, leb, ◌==◌, if◌then◌else◌, Result, ok, err, require, traverse, ◌>>=◌, ◌>>◌,
  sorted_set,
}
use right_memory.Common.Json.{ℤ, pos, negsuc}

-- `format_error label reason` is the `UpdateQueueFormatError` whose message is the two in a row.
pub data QueueError : Type 0 where
  format_error : String → String → QueueError
  missing_fields : String → List String → QueueError
  unsupported_fields : String → List String → QueueError
  duplicate_field : String → QueueError
  invalid_number : Text → QueueError
  diagnostics : QueueError
  key_error : String → QueueError
  json_error : QueueError
  overflow_error : QueueError
  file_not_found : QueueError
  file_exists : QueueError
  os_error : QueueError

-- What `datetime.fromisoformat(value)`, and `.astimezone(UTC).isoformat()` after it, do.
pub data IsoTime : Type 0 where
  not_iso naive out_of_range : IsoTime
  in_utc : Text → IsoTime

-- `[0-9a-f]`
unfoldable pub is_hex : ℕ → Bool
is_hex c = leb b'0' c && leb c b'9' || leb b'a' c && leb c b'f'

-- `[0-9a-f]{n}`, the whole text
unfoldable pub hex_text : ℕ → Text → Bool
hex_text n t = length t == n && all is_hex t

-- `int(value, 16)` of lowercase digits, from the digits already read
hex_value : ℕ → ℕ
hex_value c = if leb c b'9' then c - b'0' else c - 87

unfoldable pub int_hex : ℕ → Text → ℕ
unfolding hex_value
int_hex acc [] = acc
int_hex acc (c ∷ cs) = int_hex (acc * 16 + hex_value c) cs

-- The last `width` digits of `n` in lowercase hex, so all of `'%032x' % n` for an `n` below 16^32.
hex_digit : ℕ → ℕ
hex_digit d = if leb d 9 then d + b'0' else d + 87

unfoldable pub format_hex : ℕ → ℕ → Text
unfolding hex_digit
format_hex zero n = []
format_hex (suc width) n = format_hex width (n / 16) ++ hex_digit (n % 16) ∷ []

-- `uuid.UUID(hex=value).hex` of 32 hex digits, where the marks that `UUID` strips cannot stand.
unfoldable pub uuid_hex : Text → Text
unfolding int_hex format_hex
uuid_hex value = format_hex 32 (int_hex 0 value)

unfoldable pub require_uid : String → Text → Result QueueError Text
require_uid label value =
    if not (hex_text 32 value)
    then err (format_error label "must be lowercase UUID hex")
    else if not (text_eq (uuid_hex value) value)
    then err (format_error label "must be lowercase UUID hex")
    else ok value

-- `result != tuple(sorted(set(result)))`
unfoldable pub texts_eq : List Text → List Text → Bool
texts_eq [] [] = true
texts_eq [] (y ∷ ys) = false
texts_eq (x ∷ xs) [] = false
texts_eq (x ∷ xs) (y ∷ ys) = text_eq x y && texts_eq xs ys

unfoldable pub require_uid_tuple : String → List Text → Result QueueError (List Text)
unfolding texts_eq
require_uid_tuple label [] = err (format_error label "must contain at least one uid")
require_uid_tuple label values = do
  result ← traverse (require_uid label) values
  if texts_eq result (sorted_set result)
      then ok result
      else err (format_error label "must be unique and sorted")

unfoldable pub require_oid : String → Text → Result QueueError Text
require_oid label value =
    if hex_text 40 value || hex_text 64 value
    then ok value
    else err (format_error label "must be a lowercase Git object id")

unfoldable pub require_sha256 : String → Text → Result QueueError Text
require_sha256 label value =
    if hex_text 64 value then ok value else err (format_error label "must be lowercase SHA-256 hex")

-- `update-batch-[0-9a-f]{64}`
unfoldable pub is_batch_id : Text → Bool
unfolding after_prefix
is_batch_id value = elim (after_prefix (codes "update-batch-") value) [
  | none ↦ false
  | some digest ↦ hex_text 64 digest
]

unfoldable pub require_batch_id : Text → Result QueueError Text
require_batch_id value =
    if is_batch_id value
    then ok value
    else err (format_error "batch_id" "must use update-batch- followed by lowercase SHA-256 hex")

-- `[a-z][a-z0-9_]{0,63}`
is_code_start : ℕ → Bool
is_code_start c = leb b'a' c && leb c b'z'

is_code_part : ℕ → Bool
is_code_part c = leb b'a' c && leb c b'z' || leb b'0' c && leb c b'9' || c == b'_'

unfoldable pub is_reason_code : Text → Bool
unfolding is_code_start is_code_part
is_reason_code [] = false
is_reason_code (c ∷ cs) = is_code_start c && leb (length cs) 63 && all is_code_part cs

is_separator : ℕ → Bool
is_separator c = c == 47 || c == 92

unfoldable pub require_session_id : Text → Result QueueError Text
unfolding is_separator
require_session_id value =
    if text_eq value [] || not (text_eq value (strip value))
    then err (format_error "candidate session_id" "must be a non-empty canonical string")
    else if text_in value (codes "." ∷ codes ".." ∷ []) || any is_separator value
    then err (format_error "candidate session_id" "must be one safe path segment")
    else ok value

unfoldable pub require_nonempty_string : String → Text → Result QueueError Text
require_nonempty_string label value =
    if text_eq (strip value) []
    then err (format_error label "must be a non-empty string")
    else ok value

unfoldable pub require_positive_int : String → ℤ → Result QueueError ℤ
require_positive_int label (pos (suc n)) = ok (pos (suc n))
require_positive_int label value = err (format_error label "must be a positive integer")

unfoldable pub require_nonnegative_int : String → ℤ → Result QueueError ℤ
require_nonnegative_int label (pos n) = ok (pos n)
require_nonnegative_int label value = err (format_error label "must be a nonnegative integer")

module _ (utc_iso : Text → IsoTime) where
  unfoldable pub require_utc_time : String → Text → Result QueueError Text
  require_utc_time label value = elim (utc_iso value) [
    | not_iso ↦ err (format_error label "must be a canonical UTC datetime")
    | naive ↦ err (format_error label "must be a canonical UTC datetime")
    | out_of_range ↦ err overflow_error
    | in_utc canonical ↦
        if text_eq canonical value
        then ok value
        else err (format_error label "must be a canonical UTC datetime")
  ]
