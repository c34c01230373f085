-- ===== src/Workflows/Condition/Tests.antt =====
-- The cases of condition_test.go, and the theorems about conditions at concrete inputs.
use qeet_notify.Base.{ℕ, ◌≡◌, refl, Bool, true, false, Option, none, some, [], ◌∷◌, arith}
use qeet_notify.Base.Text.{Str, str, str_eq}
use qeet_notify.Base.Text.Search.{index, trim_space, split}
use qeet_notify.Workflows.Json.{boolean, number, text, object, Fields, end, field, get_key}
use qeet_notify.Workflows.Samples.{nat_floats}
use qeet_notify.Workflows.Condition.{
  ne, op_text, split_by, split_expr, lookup_path, compare, truthy, unquote, str_lt, eval_condition,
}
use qeet_notify.Workflows.Condition.Printing.{print_with, IsOperand}
use qeet_notify.Workflows.Condition.Comparing.{eval_condition-print, join_dots, get_nested}

opened : Unit {0}
unfolding eval_condition compare truthy unquote str_lt split_expr split_by lookup_path split
    trim_space index str_eq get_key
opened = tt

abbrev user : Fields ℕ
user = field (str "age") (number 21) (
    field (str "active") (boolean true)
      (field (str "user") (object (field (str "tier") (text (str "gold")) end)) end))

abbrev eval : Str → Option Bool
eval expr = eval_condition nat_floats expr user

evaluations :
    (eval (str "user.tier == \"gold\"") ≡ some true)
    × (eval (str "user.tier != 'gold'") ≡ some false)
    × (eval (str "age > 18") ≡ some true)
    × (eval (str "age <= 20") ≡ some false)
    × (eval (str "active == true") ≡ some true)
    × (eval (str " active ") ≡ some true)
    × (eval (str "missing.key") ≡ some false)
    × (eval (str "  ") ≡ none)
unfolding opened
evaluations = (refl, refl, refl, refl, refl, refl, refl, refl)

abbrev IsOperand_example : IsOperand (str "user.tier")
IsOperand_example = record { plain = omega arith; starts = refl; ends = refl }

abbrev IsOperand_literal : IsOperand (str "'gold'")
IsOperand_literal = record { plain = omega arith; starts = refl; ends = refl }

eval_condition-print_example :
    eval_condition nat_floats
      (print_with (op_text ne) (join_dots (str "user") (str "tier" ∷ [])) (str "'gold'"))
      user
    ≡ some (
        compare nat_floats
          (get_nested (object user) (str "user" ∷ str "tier" ∷ []))
          ne
          (str "'gold'"))
eval_condition-print_example =
    eval_condition-print nat_floats ne (str "user") (str "tier" ∷ []) (str "'gold'") user
      (omega arith) IsOperand_example IsOperand_literal (λ e. cc) (λ e. cc)
