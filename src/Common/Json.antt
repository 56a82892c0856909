-- ===== src/Common/Json.antt =====
-- The values that `json.loads` gives and `json.dumps` takes. Keys are Python literals of the
-- program, so they are native texts; the strings among the values are `Text`.
use Prim.Native.Nat.{ℕ}
use Prim.Native.String.{String}
use mathlib.Core.Bool.{Bool, false, ◌||◌}
use mathlib.Core.Option.{Option, none, some}
use mathlib.Core.List.{List, [], ◌∷◌}
use text.Mathlib.Text.{◌==◌ as str_eq}
use right_memory.Common.Tests.{if◌then◌else◌}
use right_memory.Common.Texts.{Text}

-- A Python `int`: `negsuc n` is -(n + 1).
pub data ℤ : Type 0 where
  pos : ℕ → ℤ
  negsuc : ℕ → ℤ

-- `constant` is one of `NaN`, `Infinity` and `-Infinity`, which the text may hold; `real` is any
-- other number with a fraction or an exponent, by its literal.
mutual
  pub data Json : Type 0 where
    null : Json
    boolean : Bool → Json
    integer : ℤ → Json
    real : Text → Json
    constant : Text → Json
    string : Text → Json
    array : Items → Json
    object : Fields → Json

  pub data Items : Type 0 where
    nil : Items
    cons : Json → Items → Items

  pub data Fields : Type 0 where
    end : Fields
    field : String → Json → Fields → Fields

-- `data[key]` of an object, and `data.get(key)`
unfoldable pub lookup : String → Fields → Option Json
lookup k end = none
lookup k (field j v fs) = if str_eq j k then some v else lookup k fs

-- The keys of an object, in the order of the text.
unfoldable pub keys : Fields → List String
keys end = []
keys (field k v fs) = k ∷ keys fs

-- `k in value`
unfoldable pub has_key : String → List String → Bool
has_key k [] = false
has_key k (j ∷ ks) = str_eq j k || has_key k ks

-- A list of strings as a JSON array.
unfoldable pub texts : List Text → Items
texts [] = nil
texts (t ∷ ts) = cons (string t) (texts ts)
