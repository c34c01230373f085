-- ===== src/Workflows/Condition/Comparing.antt =====
-- What EvalCondition decides, for every value and every literal (condition.go).
use qeet_notify.Base.{
  ◌≡◌, refl, ap, ◌∙◌, ◌≢◌, ◌↔◌, false, not, none, some, List, [], ◌∷◌, ◌++◌, arith, All,
}
use qeet_notify.Base.Text.{Str, is_empty}
use qeet_notify.Base.Text.Search.{
  Lacks, trim_space, split, split_from, split_from-join, split_from-none,
}
use qeet_notify.Workflows.Json.{Value, object, Fields, Floats}
use qeet_notify.Workflows.Condition.{
  Op, eq, ne, op_text, Split, apply_op, split_expr, step_into, walk_path, lookup_path, compare,
  eval_condition,
}
use qeet_notify.Workflows.Condition.Printing.{
  print_with, IsOperand, trim_space-print, split_expr-print,
}

-- On every payload value and literal, != answers the opposite of ==, whichever of the numeric, the
-- Boolean and the text comparison decides.
compare-ne :
    {F : Type 0} (fl : Floats F) (v : Value F) (lit : Str)
    → compare fl v ne lit ≡ not (compare fl v eq lit)
unfolding compare
compare-ne fl v lit = ground arith

-- The path a.b.c of the parts a, b, c.
abbrev pub join_dots : Str → List Str → Str
join_dots p [] = p
join_dots p (q ∷ qs) = p ++ (46 ∷ join_dots q qs)

abbrev pub get_nested : {F : Type 0} → Value F → List Str → Value F
get_nested v [] = v
get_nested v (p ∷ ps) = get_nested (step_into v p) ps

split-join_dots :
    (p : Str) (ps : List Str) → All (Lacks 46) (p ∷ ps) → split_from 46 [] (join_dots p ps) ≡ p ∷ ps
split-join_dots p [] h = split_from-none 46 [] p h.0
split-join_dots p (q ∷ qs) h =
    split_from-join 46 [] p (join_dots q qs) h.0 ∙ ap (λ t. p ∷ t) (split-join_dots q qs h.1)

walk_path-nested : {F : Type 0} (v : Value F) (ps : List Str) → walk_path v ps ≡ get_nested v ps
unfolding walk_path
walk_path-nested v [] = refl
walk_path-nested v (p ∷ ps) = walk_path-nested (step_into v p) ps

-- EvalCondition fails exactly on an expression that is empty or all white space.
eval_condition-none_iff :
    {F : Type 0} (fl : Floats F) (expr : Str) (payload : Fields F)
    → (eval_condition fl expr payload ≡ none) ↔ (trim_space expr ≡ [])
unfolding eval_condition
eval_condition-none_iff fl expr payload = (λ e. ground arith, λ e. rw e)

is_empty-append : (s t : Str) → s ≢ [] → is_empty (s ++ t) ≡ false
is_empty-append [] t n = absurd (n refl)
is_empty-append (c ∷ s) t n = refl

is_empty-ne : (s : Str) → s ≢ [] → is_empty s ≡ false
is_empty-ne [] n = absurd (n refl)
is_empty-ne (c ∷ s) n = refl

-- A dotted path reads the nested maps key by key.
lookup_path-join_dots :
    {F : Type 0} (payload : Fields F) (p : Str) (ps : List Str)
    → All (Lacks 46) (p ∷ ps)
    → join_dots p ps ≢ []
    → lookup_path payload (join_dots p ps) ≡ get_nested (object payload) (p ∷ ps)
unfolding lookup_path split
lookup_path-join_dots payload p ps dots n =
    rw (is_empty-ne (join_dots p ps) n, split-join_dots p ps dots)
      (walk_path-nested (object payload) (p ∷ ps))

eval_condition-split :
    {F : Type 0} (fl : Floats F) (expr : Str) (payload : Fields F) {s : Split}
    → trim_space expr ≡ expr
    → is_empty expr ≡ false
    → split_expr expr ≡ s
    → eval_condition fl expr payload ≡ some (apply_op fl (lookup_path payload s.path) s.op s.lit)
unfolding eval_condition
eval_condition-split fl expr payload trimmed full e = rw (trimmed, full, e)

-- A condition "path op lit" over a dotted path compares the nested payload value, nil where a key
-- is missing or a value on the way is no map, with the literal. The operands hold no operator byte,
-- have no white space at their ends and are not empty; the parts of the path hold no dot.
pub eval_condition-print :
    {F : Type 0} (fl : Floats F) (o : Op) (p : Str) (ps : List Str) (lit : Str) (payload : Fields F)
    → All (Lacks 46) (p ∷ ps)
    → IsOperand (join_dots p ps)
    → IsOperand lit
    → join_dots p ps ≢ []
    → lit ≢ []
    → eval_condition fl (print_with (op_text o) (join_dots p ps) lit) payload
      ≡ some (compare fl (get_nested (object payload) (p ∷ ps)) o lit)
eval_condition-print fl o p ps lit payload dots hp hl np nl =
    eval_condition-split fl _ payload
      (trim_space-print (op_text o) (join_dots p ps) lit hp hl np nl)
      (is_empty-append (join_dots p ps) _ np) (split_expr-print o (join_dots p ps) lit hp hl)
    ∙ ap (λ v. some (compare fl v o lit)) (lookup_path-join_dots payload p ps dots np)
