-- ===== src/Workflows/Json.antt =====
-- The dynamic values of an event payload (map[string]any), and what the program uses of float64.
use qeet_notify.Base.{Bool, Option, if◌then◌else◌}
use qeet_notify.Base.Int.{ℤ}
use qeet_notify.Base.Text.{Str, str_eq}

-- The floating-point numbers are a type `F`; JSON decoding produces `number`, never `int`.
mutual
  pub data Value (F : Type 0) : Type 0 where
    null : Value F
    boolean : Bool → Value F
    number : F → Value F
    int : ℤ → Value F
    int64 : ℤ → Value F
    text : Str → Value F
    array : Items F → Value F
    object : Fields F → Value F

  pub data Items (F : Type 0) : Type 0 where
    nil : Items F
    cons : Value F → Items F → Items F

  pub data Fields (F : Type 0) : Type 0 where
    end : Fields F
    field : Str → Value F → Fields F → Fields F

-- What the code calls of strconv, fmt and the float64 operators, which are not part of it.
pub record Floats (F : Type 0) : Type 0 where
  pub parse_float : Str → Option F
  pub format_float : F → Str
  pub of_int : ℤ → F
  pub is_zero : F → Bool
  pub eq_float : F → F → Bool
  pub lt_float : F → F → Bool
  pub le_float : F → F → Bool
  pub sprint : Value F → Str

-- m[k] of a map[string]any; a missing key gives nil.
unfoldable pub get_key : {F : Type 0} → Str → Fields F → Value F
get_key k end = null
get_key k (field j v m) = if str_eq j k then v else get_key k m
