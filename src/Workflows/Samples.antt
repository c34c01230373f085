-- ===== src/Workflows/Samples.antt =====
-- For tests: floating-point numbers as natural numbers, written in decimal, and a small workflow.
use qeet_notify.Base.{
  ℕ, zero, suc, ◌+◌, ◌-◌, ◌*◌, ◌/◌, ◌%◌, ◌&&◌, Option, none, some, List, [], ◌∷◌, ◌++◌, ltb, leb,
  ◌==◌, if◌then◌else◌,
}
use qeet_notify.Base.Int.{ℤ, pos, negsuc}
use qeet_notify.Base.Text.{Str, str}
use qeet_notify.Workflows.Json.{Floats, end}
use qeet_notify.Workflows.Types.{StepType, channel, delay, Step, Event}

abbrev parse_from : ℕ → Str → Option ℕ
parse_from n [] = some n
parse_from n (c ∷ s) =
    let rest = parse_from (n * 10 + (c - 48)) s in if leb 48 c && leb c 57 then rest else none

abbrev parse_nat : Str → Option ℕ
parse_nat [] = none
parse_nat (c ∷ s) = parse_from 0 (c ∷ s)

abbrev digits_of : ℕ → ℕ → Str
digits_of zero n = []
digits_of (suc f) n =
    let rest = digits_of f (n / 10) in
    if ltb n 10 then (48 + n) ∷ [] else rest ++ (48 + n % 10) ∷ []

abbrev nat_of : ℤ → ℕ
nat_of (pos n) = n
nat_of (negsuc n) = 0

abbrev pub nat_floats : Floats ℕ
nat_floats = record {
  parse_float = parse_nat;
  format_float = digits_of 20;
  of_int = nat_of;
  is_zero = λ n. n == 0;
  eq_float = λ a b. a == b;
  lt_float = λ a b. ltb a b;
  le_float = λ a b. leb a b;
  sprint = λ v. [];
}

-- An event and two steps.
abbrev pub uuid : ℕ → Str
uuid n = 48 ∷ n ∷ []

abbrev pub step : StepType → Str → Step
step type next = record {
  id = str "s";
  type = type;
  channel = str "email";
  template_id = str "tmpl";
  delay_seconds = pos 60;
  condition = [];
  true_step = [];
  false_step = [];
  next_step = next;
}

abbrev pub order : Event ℕ
order = record {
  tenant_id = str "t";
  subscriber_id = str "u";
  event = str "order";
  payload = end;
  run_id = [];
}

abbrev pub send_wait : List Step
send_wait = step channel [] ∷ step delay [] ∷ []
