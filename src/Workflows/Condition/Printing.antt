-- ===== src/Workflows/Condition/Printing.antt =====
-- Splitting a printed comparison gives its parts back (splitExpr of condition.go).
use mathlib.Core.List.{reverse, reverse-append, reverse-reverse, append_assoc}
use qeet_notify.Base.{
  ℕ, suc, ◌+◌, ◌≡◌, refl, ap, sym, ◌∙◌, ◌≢◌, false, none, some, List, [], ◌∷◌, ◌++◌, arith, length,
  take, drop, All, All-append,
}
use qeet_notify.Base.Text.{Str}
use qeet_notify.Base.Text.Search.{
  index, shift, Lacks, index-append, index-none, is_space, trim_left, trim_right, trim_space,
  trim_space-cons, trim_space-snoc,
}
use qeet_notify.Workflows.Condition.{
  Op, eq, ne, ge, le, gt, lt, op_text, Split, split_at, split_by, split_expr,
}

-- "path op lit", with one space on each side of the operator.
abbrev pub print_with : Str → Str → Str → Str
print_with o path lit = path ++ (32 ∷ (o ++ (32 ∷ lit)))

abbrev pub IsPlainByte : ℕ → Type 0
IsPlainByte c = (c ≢ 33) × (c ≢ 60) × (c ≢ 61) × (c ≢ 62)

abbrev StartsPlain : Str → Type 0
StartsPlain [] = Unit
StartsPlain (c ∷ s) = is_space c ≡ false

-- A text with none of the bytes ! < = > and no white space at its ends.
pub record IsOperand (s : Str) : Type 0 where
  pub plain : All IsPlainByte s
  pub starts : StartsPlain s
  pub ends : StartsPlain (reverse s)

Lacks-bang : (s : Str) → All IsPlainByte s → Lacks 33 s
Lacks-bang [] h = tt
Lacks-bang (c ∷ s) h = (h.0.0, Lacks-bang s h.1)

Lacks-less : (s : Str) → All IsPlainByte s → Lacks 60 s
Lacks-less [] h = tt
Lacks-less (c ∷ s) h = (h.0.1, Lacks-less s h.1)

Lacks-equal : (s : Str) → All IsPlainByte s → Lacks 61 s
Lacks-equal [] h = tt
Lacks-equal (c ∷ s) h = (h.0.2, Lacks-equal s h.1)

Lacks-greater : (s : Str) → All IsPlainByte s → Lacks 62 s
Lacks-greater [] h = tt
Lacks-greater (c ∷ s) h = (h.0.3, Lacks-greater s h.1)

trim_left_plain : (s : Str) → StartsPlain s → trim_left s ≡ s
unfolding trim_left
trim_left_plain [] h = refl
trim_left_plain (c ∷ s) h = rw h

trim_right_plain : (s : Str) → StartsPlain (reverse s) → trim_right s ≡ s
unfolding trim_right
trim_right_plain s h = ap reverse (trim_left_plain (reverse s) h) ∙ reverse-reverse s

trim_path : (s : Str) → IsOperand s → trim_space (s ++ 32 ∷ []) ≡ s
trim_path [] h = unfold trim_space in refl
trim_path (c ∷ s) h = trim_space-snoc c s h.starts ∙ trim_right_plain (c ∷ s) h.ends

trim_literal : (s : Str) → IsOperand s → trim_space (32 ∷ s) ≡ s
trim_literal s h = trim_space-cons s (trim_left_plain s h.starts) ∙ trim_right_plain s h.ends

take_past : (p : Str) (c : ℕ) (s : Str) → take (suc (length p)) (p ++ c ∷ s) ≡ p ++ c ∷ []
take_past [] c s = refl
take_past (d ∷ p) c s = ap (λ t. d ∷ t) (take_past p c s)

drop_past : (p : Str) (n : ℕ) (s : Str) → drop (length p + n) (p ++ s) ≡ drop n s
drop_past [] n s = ap (λ k. drop k s) (omega arith)
drop_past (c ∷ p) n s =
    let step : length (c ∷ p) + n ≡ suc (length p + n) = omega arith in rw step (drop_past p n s)

trim_after : (o lit : Str) → IsOperand lit → trim_space (drop (length o) (o ++ (32 ∷ lit))) ≡ lit
trim_after [] lit h = trim_literal lit h
trim_after (c ∷ o) lit h = trim_after o lit h

split-path :
    (path s : Str) → IsOperand path → trim_space (take (suc (length path)) (path ++ 32 ∷ s)) ≡ path
split-path path s h = ap trim_space (take_past path 32 s) ∙ trim_path path h

split-lit :
    (path o lit : Str)
    → IsOperand lit
    → trim_space (drop (suc (length path) + length o) (print_with o path lit)) ≡ lit
split-lit path o lit h =
    let step : suc (length path) + length o ≡ length path + suc (length o) = omega arith in
    rw step (ap trim_space (drop_past path (suc (length o)) _) ∙ trim_after o lit h)

split_by-hit :
    (o : Op) (os : List Op) (expr : Str) (n : ℕ)
    → index expr (op_text o) ≡ some n
    → split_by (o ∷ os) expr ≡ split_at o expr n
unfolding split_by
split_by-hit o os expr n h = rw (h, split_by)

split_by-miss :
    (o : Op) (os : List Op) (expr : Str)
    → index expr (op_text o) ≡ none
    → split_by (o ∷ os) expr ≡ split_by os expr
unfolding split_by
split_by-miss o os expr h = rw (h, split_by)

module _ (path lit : Str) (hp : IsOperand path) (hl : IsOperand lit) where
  found :
      (o : Op)
      → split_at o (print_with (op_text o) path lit) (suc (length path))
        ≡ record { op = some o; path = path; lit = lit }
  found o = λ i. record {
    op = some o;
    path = split-path path (op_text o ++ (32 ∷ lit)) hp i;
    lit = split-lit path (op_text o) lit hl i;
  }

  -- The search passes over the path and the space.
  index-print :
      (b : ℕ) (o rest : Str)
      → Lacks b path
      → b ≢ 32
      → index (path ++ (32 ∷ rest)) (b ∷ o) ≡ shift (length path) (shift 1 (index rest (b ∷ o)))
  unfolding index
  index-print b o rest h n =
      index-append path (32 ∷ rest) b o h ∙ ap (shift (length path)) (ground arith)

  hit-at :
      (b : ℕ) (o rest : Str)
      → Lacks b path
      → b ≢ 32
      → index rest (b ∷ o) ≡ some 0
      → index (path ++ (32 ∷ rest)) (b ∷ o) ≡ some (suc (length path))
  hit-at b o rest h n e = rw (index-print b o rest h n, e) (ground arith)

  miss-at :
      (b : ℕ) (o rest : Str)
      → Lacks b path
      → b ≢ 32
      → index rest (b ∷ o) ≡ none
      → index (path ++ (32 ∷ rest)) (b ∷ o) ≡ none
  miss-at b o rest h n e = rw (index-print b o rest h n, e)

  hit : (o : Op) → index (print_with (op_text o) path lit) (op_text o) ≡ some (suc (length path))
  unfolding index
  hit eq = hit-at 61 (61 ∷ []) _ (Lacks-equal path hp.plain) (omega arith) refl
  hit ne = hit-at 33 (61 ∷ []) _ (Lacks-bang path hp.plain) (omega arith) refl
  hit ge = hit-at 62 (61 ∷ []) _ (Lacks-greater path hp.plain) (omega arith) refl
  hit le = hit-at 60 (61 ∷ []) _ (Lacks-less path hp.plain) (omega arith) refl
  hit gt = hit-at 62 [] _ (Lacks-greater path hp.plain) (omega arith) refl
  hit lt = hit-at 60 [] _ (Lacks-less path hp.plain) (omega arith) refl

  -- Looked for before its turn, an operator is absent: nothing before the printed one occurs.
  absent-equal : (o : Op) → o ≢ eq → index (print_with (op_text o) path lit) (op_text eq) ≡ none
  unfolding index
  absent-equal eq n = absurd (n refl)
  absent-equal _ n =
      miss-at 61 (61 ∷ []) _ (Lacks-equal path hp.plain) (omega arith)
        (ground (arith, index-none lit 61 (61 ∷ []) (Lacks-equal lit hl.plain)))

  absent-bang : (o : Op) → o ≢ ne → index (print_with (op_text o) path lit) (op_text ne) ≡ none
  unfolding index
  absent-bang ne n = absurd (n refl)
  absent-bang _ n =
      miss-at 33 (61 ∷ []) _ (Lacks-bang path hp.plain) (omega arith)
        (ground (arith, index-none lit 33 (61 ∷ []) (Lacks-bang lit hl.plain)))

  absent-ge : (o : Op) → o ≢ ge → index (print_with (op_text o) path lit) (op_text ge) ≡ none
  unfolding index
  absent-ge ge n = absurd (n refl)
  absent-ge _ n =
      miss-at 62 (61 ∷ []) _ (Lacks-greater path hp.plain) (omega arith)
        (ground (arith, index-none lit 62 (61 ∷ []) (Lacks-greater lit hl.plain)))

  absent-le : (o : Op) → o ≢ le → index (print_with (op_text o) path lit) (op_text le) ≡ none
  unfolding index
  absent-le le n = absurd (n refl)
  absent-le _ n =
      miss-at 60 (61 ∷ []) _ (Lacks-less path hp.plain) (omega arith)
        (ground (arith, index-none lit 60 (61 ∷ []) (Lacks-less lit hl.plain)))

  absent-gt : index (print_with (op_text lt) path lit) (op_text gt) ≡ none
  unfolding index
  absent-gt =
      miss-at 62 [] _ (Lacks-greater path hp.plain) (omega arith)
        (ground (arith, index-none lit 62 [] (Lacks-greater lit hl.plain)))

reverse-ne-nil : (s : Str) → s ≢ [] → reverse s ≢ []
reverse-ne-nil s n e = n (sym (reverse-reverse s) ∙ ap reverse e)

StartsPlain-append : (s t : Str) → StartsPlain s → s ≢ [] → StartsPlain (s ++ t)
StartsPlain-append [] t h n = absurd (n refl)
StartsPlain-append (c ∷ s) t h n = h

-- A printed comparison has no white space at its ends.
pub trim_space-print :
    (o path lit : Str)
    → IsOperand path
    → IsOperand lit
    → path ≢ []
    → lit ≢ []
    → trim_space (print_with o path lit) ≡ print_with o path lit
unfolding trim_space
trim_space-print o path lit hp hl np nl =
    ap trim_right (trim_left_plain _ (StartsPlain-append path _ hp.starts np))
    ∙ trim_right_plain _ ends
  where
    front : Str
    front = path ++ (32 ∷ (o ++ (32 ∷ [])))

    regroup : print_with o path lit ≡ front ++ lit
    regroup = simp append_assoc

    ends : StartsPlain (reverse (print_with o path lit))
    ends =
        rw (regroup, reverse-append front lit)
          (StartsPlain-append (reverse lit) (reverse front) hl.ends (reverse-ne-nil lit nl))

-- For each of the six operators and operands with no operator byte and no white space at their
-- ends, splitting "path op lit" gives the operator, the path and the literal.
pub split_expr-print :
    (o : Op) (path lit : Str)
    → IsOperand path
    → IsOperand lit
    → split_expr (print_with (op_text o) path lit) ≡ record { op = some o; path = path; lit = lit }
unfolding split_expr
split_expr-print eq path lit hp hl =
    split_by-hit eq _ _ _ (hit path lit hp hl eq) ∙ found path lit hp hl eq
split_expr-print ne path lit hp hl =
    split_by-miss eq _ _ (absent-equal path lit hp hl ne (λ e. cc))
    ∙ split_by-hit ne _ _ _ (hit path lit hp hl ne)
    ∙ found path lit hp hl ne
split_expr-print ge path lit hp hl =
    split_by-miss eq _ _ (absent-equal path lit hp hl ge (λ e. cc))
    ∙ split_by-miss ne _ _ (absent-bang path lit hp hl ge (λ e. cc))
    ∙ split_by-hit ge _ _ _ (hit path lit hp hl ge)
    ∙ found path lit hp hl ge
split_expr-print le path lit hp hl =
    split_by-miss eq _ _ (absent-equal path lit hp hl le (λ e. cc))
    ∙ split_by-miss ne _ _ (absent-bang path lit hp hl le (λ e. cc))
    ∙ split_by-miss ge _ _ (absent-ge path lit hp hl le (λ e. cc))
    ∙ split_by-hit le _ _ _ (hit path lit hp hl le)
    ∙ found path lit hp hl le
split_expr-print gt path lit hp hl =
    split_by-miss eq _ _ (absent-equal path lit hp hl gt (λ e. cc))
    ∙ split_by-miss ne _ _ (absent-bang path lit hp hl gt (λ e. cc))
    ∙ split_by-miss ge _ _ (absent-ge path lit hp hl gt (λ e. cc))
    ∙ split_by-miss le _ _ (absent-le path lit hp hl gt (λ e. cc))
    ∙ split_by-hit gt _ _ _ (hit path lit hp hl gt)
    ∙ found path lit hp hl gt
split_expr-print lt path lit hp hl =
    split_by-miss eq _ _ (absent-equal path lit hp hl lt (λ e. cc))
    ∙ split_by-miss ne _ _ (absent-bang path lit hp hl lt (λ e. cc))
    ∙ split_by-miss ge _ _ (absent-ge path lit hp hl lt (λ e. cc))
    ∙ split_by-miss le _ _ (absent-le path lit hp hl lt (λ e. cc))
    ∙ split_by-miss gt _ _ (absent-gt path lit hp hl)
    ∙ split_by-hit lt _ _ _ (hit path lit hp hl lt)
    ∙ found path lit hp hl lt

-- A literal that holds "==" moves the split: if neither the path, nor the operator, nor the literal
-- before that place has a "=", the expression is split at the "==" of the literal, as an equality.
split_expr-misplaced :
    (o : Op) (path u w : Str)
    → Lacks 61 path
    → Lacks 61 (op_text o)
    → Lacks 61 u
    → (split_expr (print_with (op_text o) path (u ++ (61 ∷ 61 ∷ w)))).op ≡ some eq
unfolding split_expr
split_expr-misplaced o path u w hp ho hu =
    ap (λ (s : Split). s.op)
      (split_by-hit eq (ne ∷ ge ∷ le ∷ gt ∷ lt ∷ []) _ (length (front ++ u))
        (rw regroup at-literal))
  where
    front : Str
    front = path ++ (32 ∷ (op_text o ++ (32 ∷ [])))

    regroup : print_with (op_text o) path (u ++ (61 ∷ 61 ∷ w)) ≡ (front ++ u) ++ (61 ∷ 61 ∷ w)
    regroup = simp append_assoc

    lacking : Lacks 61 (front ++ u)
    lacking =
        All-append _ front u
          (All-append _ path _ hp (omega arith, All-append _ (op_text o) _ ho (omega arith, tt))) hu

    at-literal : index ((front ++ u) ++ (61 ∷ 61 ∷ w)) (op_text eq) ≡ some (length (front ++ u))
    at-literal =
        index-append (front ++ u) (61 ∷ 61 ∷ w) 61 (61 ∷ []) lacking
        ∙ (unfold index in ground arith)
