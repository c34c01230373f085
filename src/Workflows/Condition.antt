-- ===== src/Workflows/Condition.antt =====
-- domains/workflows/engine/condition.go: the expressions of condition steps.
pub mod Printing
pub mod Comparing
mod Tests
use qeet_notify.Base.{
  ℕ, ◌+◌, Bool, true, false, not, ◌&&◌, ◌||◌, Option, none, some, List, [], ◌∷◌, if◌then◌else◌, ltb,
  leb, ◌==◌, length, take, drop,
}
use qeet_notify.Base.Int.{ℤ, pos, negsuc}
use qeet_notify.Base.Text.{Str, str, str_eq, is_empty}
use qeet_notify.Base.Text.Search.{index, trim_space, split}
use qeet_notify.Workflows.Json.{
  Value, null, boolean, number, int, int64, text, array, object, Fields, Floats, get_key,
}

-- The six operator strings of the grammar.
pub data Op : Type 0 where
  eq ne ge le gt lt : Op

abbrev pub op_text : Op → Str
op_text eq = str "=="
op_text ne = str "!="
op_text ge = str ">="
op_text le = str "<="
op_text gt = str ">"
op_text lt = str "<"

-- Where an operator was found: the operator, the trimmed path and the trimmed literal.
pub record Split : Type 0 where
  pub op : Option Op
  pub path : Str
  pub lit : Str

abbrev split_at : Op → Str → ℕ → Split
split_at o expr idx = record {
  op = some o;
  path = trim_space (take idx expr);
  lit = trim_space (drop (idx + length (op_text o)) expr);
}

-- The two loops over the operators, in their order.
unfoldable pub split_by : List Op → Str → Split
split_by [] expr = record { op = none; path = trim_space expr; lit = [] }
split_by (o ∷ os) expr = elim (index expr (op_text o)) [
  | some idx ↦ split_at o expr idx
  | none ↦ split_by os expr
]

unfoldable pub split_expr : Str → Split
split_expr expr = split_by (eq ∷ ne ∷ ge ∷ le ∷ gt ∷ lt ∷ []) expr

abbrev step_into : {F : Type 0} → Value F → Str → Value F
step_into (object m) p = get_key p m
step_into _ p = null

-- The loop of lookupPath; a value that is no map gives nil for the rest of the path.
unfoldable pub walk_path : {F : Type 0} → Value F → List Str → Value F
walk_path cur [] = cur
walk_path cur (p ∷ ps) = walk_path (step_into cur p) ps

unfoldable pub lookup_path : {F : Type 0} → Fields F → Str → Value F
unfolding walk_path
lookup_path payload path =
    if is_empty path then null else walk_path (object payload) (split 46 path)

abbrev is_zero_int : ℤ → Bool
is_zero_int (pos n) = n == 0
is_zero_int (negsuc n) = false

-- Go's < on strings, by bytes.
unfoldable pub str_lt : Str → Str → Bool
str_lt [] [] = false
str_lt [] (y ∷ ys) = true
str_lt (x ∷ xs) [] = false
str_lt (x ∷ xs) (y ∷ ys) = ltb x y || (x == y && str_lt xs ys)

abbrev last_or : ℕ → Str → ℕ
last_or d [] = d
last_or d (c ∷ s) = last_or c s

abbrev init : Str → Str
init [] = []
init (c ∷ []) = []
init (c ∷ d ∷ s) = c ∷ init (d ∷ s)

-- Strips one pair of equal quotes, '"' or '\''.
unfoldable pub unquote : Str → Str
unquote (c ∷ d ∷ s) =
    let ends = last_or d s in
    if (c == 34 && ends == 34) || (c == 39 && ends == 39) then init (d ∷ s) else c ∷ d ∷ s
unquote s = s

-- Text of a Boolean by strconv.FormatBool.
abbrev format_bool : Bool → Str
format_bool true = str "true"
format_bool false = str "false"

module _ {F : Type 0} (fl : Floats F) where
  unfoldable pub truthy : Value F → Bool
  truthy null = false
  truthy (boolean b) = b
  truthy (text s) = not (is_empty s)
  truthy (number x) = not (fl.is_zero x)
  truthy (int n) = not (is_zero_int n)
  truthy _ = true

  unfoldable pub to_number : Value F → Option F
  to_number (number x) = some x
  to_number (int n) = some (fl.of_int n)
  to_number (int64 n) = some (fl.of_int n)
  to_number (text s) = fl.parse_float s
  to_number _ = none

  unfoldable pub to_string : Value F → Str
  to_string null = []
  to_string (text s) = s
  to_string (number x) = fl.format_float x
  to_string (boolean b) = format_bool b
  to_string v = fl.sprint v

  abbrev pub compare_number : F → Op → F → Bool
  compare_number v eq l = fl.eq_float v l
  compare_number v ne l = not (fl.eq_float v l)
  compare_number v gt l = fl.lt_float l v
  compare_number v lt l = fl.lt_float v l
  compare_number v ge l = fl.le_float l v
  compare_number v le l = fl.le_float v l

  abbrev pub compare_text : Str → Op → Str → Bool
  compare_text v eq l = str_eq v l
  compare_text v ne l = not (str_eq v l)
  compare_text v gt l = str_lt l v
  compare_text v lt l = str_lt v l
  compare_text v ge l = not (str_lt v l)
  compare_text v le l = not (str_lt l v)

  -- The middle part of compare: only == and != on a Boolean are decided here.
  abbrev same_bool : Bool → Bool → Bool
  same_bool true b = b
  same_bool false b = not b

  abbrev compare_bool : Value F → Op → Str → Option Bool
  compare_bool (boolean b) eq lit = some (same_bool b (str_eq lit (str "true")))
  compare_bool (boolean b) ne lit = some (not (same_bool b (str_eq lit (str "true"))))
  compare_bool _ _ lit = none

  abbrev both_numbers : Option F → Option F → Option (F × F)
  both_numbers (some l) (some v) = some (l, v)
  both_numbers _ _ = none

  -- Numeric when both sides are numbers, then Boolean, then by text.
  unfoldable pub compare : Value F → Op → Str → Bool
  unfolding to_number to_string
  compare val op lit = elim (both_numbers (fl.parse_float lit) (to_number val)) [
    | some (l, v) ↦ compare_number v op l
    | none ↦
        elim (if str_eq lit (str "true") || str_eq lit (str "false")
          then compare_bool val op lit
          else none) [ some b ↦ b | none ↦ compare_text (to_string val) op (unquote lit) ]
  ]

  abbrev apply_op : Value F → Option Op → Str → Bool
  apply_op val none lit = truthy val
  apply_op val (some o) lit = compare val o lit

  -- `none` is the error "empty condition", the only one that EvalCondition returns.
  unfoldable pub eval_condition : Str → Fields F → Option Bool
  unfolding split_expr split_by lookup_path
  eval_condition expr payload =
      let e = trim_space expr in
      let s = split_expr e in
      if is_empty e then none else some (apply_op (lookup_path payload s.path) s.op s.lit)
