-- ===== src/Base/Text/Search.antt =====
-- strings.Index, strings.HasPrefix, strings.HasSuffix, strings.TrimSpace and strings.Split, on bytes.
use Prim.Native.Nat.{ℕ, zero, suc, ◌+◌, ◌-◌}
use mathlib.Core.Path.{◌≡◌, refl, ap}
use mathlib.Core.Logic.{◌≢◌}
use mathlib.Core.Bool.{Bool, true, false, ◌&&◌, ◌||◌}
use mathlib.Core.Option.{Option, none, some}
use mathlib.Core.List.{List, [], ◌∷◌, ◌++◌, reverse, reverse-append, append-nil, append_assoc}
use native.Mathlib.Omega.{arith}
use qeet_notify.Base.Tests.{leb, ltb, ◌==◌, if◌then◌else◌}
use qeet_notify.Base.Lists.{length, drop, All}
use qeet_notify.Base.Text.{Str, str_eq}

unfoldable pub has_prefix : Str → Str → Bool
has_prefix s [] = true
has_prefix [] (p ∷ ps) = false
has_prefix (c ∷ s) (p ∷ ps) = c == p && has_prefix s ps

-- strings.TrimPrefix.
abbrev pub trim_prefix : Str → Str → Str
trim_prefix s p = if has_prefix s p then drop (length p) s else s

-- The whole tail of the right length is compared with the suffix.
unfoldable pub has_suffix : Str → Str → Bool
unfolding str_eq
has_suffix s t =
    if ltb (length s) (length t) then false else str_eq (drop (length s - length t) s) t

-- A position found `n` bytes further on.
abbrev pub shift : ℕ → Option ℕ → Option ℕ
shift n none = none
shift n (some k) = some (n + k)

-- `none` is the -1 of strings.Index.
unfoldable pub index : Str → Str → Option ℕ
unfolding has_prefix
index [] o = if has_prefix [] o then some 0 else none
index (c ∷ s) o = if has_prefix (c ∷ s) o then some 0 else shift 1 (index s o)

-- The ASCII white space of unicode.IsSpace.
abbrev pub is_space : ℕ → Bool
is_space c = c == 32 || (leb 9 c && leb c 13)

unfoldable pub trim_left : Str → Str
trim_left [] = []
trim_left (c ∷ s) = if is_space c then trim_left s else c ∷ s

unfoldable pub trim_right : Str → Str
unfolding trim_left
trim_right s = reverse (trim_left (reverse s))

unfoldable pub trim_space : Str → Str
unfolding trim_left trim_right
trim_space s = trim_right (trim_left s)

-- The parts between the separators; there is always at least one.
unfoldable pub split_from : ℕ → Str → Str → List Str
split_from sep cur [] = cur ∷ []
split_from sep cur (c ∷ s) =
    let closed = cur ∷ split_from sep [] s in
    let longer = split_from sep (cur ++ c ∷ []) s in if c == sep then closed else longer

unfoldable pub split : ℕ → Str → List Str
unfolding split_from
split sep s = split_from sep [] s

-- The parts of at most `k` cuts: strings.SplitN(s, sep, k + 1).
unfoldable pub split_n_from : ℕ → ℕ → Str → Str → List Str
split_n_from sep zero cur s = (cur ++ s) ∷ []
split_n_from sep (suc k) cur [] = cur ∷ []
split_n_from sep (suc k) cur (c ∷ s) =
    let closed = cur ∷ split_n_from sep k [] s in
    let longer = split_n_from sep (suc k) (cur ++ c ∷ []) s in if c == sep then closed else longer

abbrev pub Lacks : ℕ → Str → Type 0
Lacks b = All (λ c. c ≢ b)

shift-zero : (r : Option ℕ) → r ≡ shift 0 r
shift-zero none = refl
shift-zero (some k) = ground arith

shift-suc : (n : ℕ) (r : Option ℕ) → shift 1 (shift n r) ≡ shift (suc n) r
shift-suc n none = refl
shift-suc n (some k) = ground arith

-- A search passes over text that lacks the first byte of what is looked for.
pub index-append :
    (p s : Str) (b : ℕ) (o : Str)
    → Lacks b p
    → index (p ++ s) (b ∷ o) ≡ shift (length p) (index s (b ∷ o))
unfolding index
index-append [] s b o h = shift-zero (index s (b ∷ o))
index-append (c ∷ p) s b o h =
    ground (arith, index-append p s b o, shift-suc (length p) (index s (b ∷ o)))

pub index-none : (s : Str) (b : ℕ) (o : Str) → Lacks b s → index s (b ∷ o) ≡ none
unfolding index
index-none [] b o h = refl
index-none (c ∷ s) b o h = ground (arith, index-none s b o)

pub trim_space-cons : (s : Str) → trim_left s ≡ s → trim_space (32 ∷ s) ≡ trim_right s
unfolding trim_space
trim_space-cons s h = ap trim_right h

pub trim_right-snoc : (s : Str) → trim_right (s ++ 32 ∷ []) ≡ trim_right s
unfolding trim_right
trim_right-snoc s = rw reverse-append

pub trim_space-snoc :
    (c : ℕ) (s : Str) → is_space c ≡ false → trim_space (c ∷ s ++ 32 ∷ []) ≡ trim_right (c ∷ s)
unfolding trim_space
trim_space-snoc c s h = rw h (trim_right-snoc (c ∷ s))

pub split_from-join :
    (sep : ℕ) (cur p s : Str)
    → Lacks sep p
    → split_from sep cur (p ++ sep ∷ s) ≡ (cur ++ p) ∷ split_from sep [] s
unfolding split_from
split_from-join sep cur [] s h = ground (arith, append-nil cur)
split_from-join sep cur (c ∷ p) s h =
    ground (arith, append_assoc cur (c ∷ []) p, split_from-join sep (cur ++ c ∷ []) p s)

pub split_from-none : (sep : ℕ) (cur p : Str) → Lacks sep p → split_from sep cur p ≡ (cur ++ p) ∷ []
unfolding split_from
split_from-none sep cur [] h = ground (arith, append-nil cur)
split_from-none sep cur (c ∷ p) h =
    ground (arith, append_assoc cur (c ∷ []) p, split_from-none sep (cur ++ c ∷ []) p)

pub split_n_from-join :
    (sep k : ℕ) (cur p s : Str)
    → Lacks sep p
    → split_n_from sep (suc k) cur (p ++ sep ∷ s) ≡ (cur ++ p) ∷ split_n_from sep k [] s
unfolding split_n_from
split_n_from-join sep k cur [] s h = ground (arith, append-nil cur)
split_n_from-join sep k cur (c ∷ p) s h =
    ground (arith, append_assoc cur (c ∷ []) p, split_n_from-join sep k (cur ++ c ∷ []) p s)
