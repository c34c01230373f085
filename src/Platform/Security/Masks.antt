-- ===== src/Platform/Security/Masks.antt =====
-- What the masks hide, and where one of them panics (pii.go).
use qeet_notify.Base.{
  ℕ, suc, ◌+◌, ◌≤◌, ◌≡◌, refl, ◌↔◌, none, some, [], ◌∷◌, ◌++◌, arith, length, take, drop,
}
use qeet_notify.Base.Text.{Str}
use qeet_notify.Base.Text.Search.{Lacks, index-append}
use qeet_notify.Platform.Security.{mask_at, mask_local, mask_email, mask_phone}

take-append : (xs ys : Str) → take (length xs) (xs ++ ys) ≡ xs
take-append [] ys = refl
take-append (x ∷ xs) ys = rw (take-append xs ys)

drop-append : (xs ys : Str) → drop (length xs) (xs ++ ys) ≡ ys
drop-append [] ys = refl
drop-append (x ∷ xs) ys = drop-append xs ys

-- Of an address, MaskEmail shows the first two characters of the part before the "@", or none of
-- them where it has two at most, a star for each hidden one of a longer part, and all behind. The
-- part before the "@" is not empty and holds no other "@".
mask_email-parts :
    (c : ℕ) (name domain : Str)
    → Lacks 64 (c ∷ name)
    → mask_email ((c ∷ name) ++ (64 ∷ domain)) ≡ mask_local (c ∷ name) (64 ∷ domain)
unfolding mask_email
mask_email-parts c name domain h =
    rw (index-append (c ∷ name) (64 ∷ domain) 64 [] h)
      (at_length (suc (length name) + 0) (omega arith))
  where
    at_length :
        (k : ℕ)
        → k ≡ suc (length name)
        → mask_at (some k) ((c ∷ name) ++ (64 ∷ domain)) ≡ mask_local (c ∷ name) (64 ∷ domain)
    at_length k e = rw (e, take-append name (64 ∷ domain), drop-append name (64 ∷ domain))

-- MaskPhone panics exactly on texts of five or six characters.
mask_phone-none_iff :
    (phone : Str) → (mask_phone phone ≡ none) ↔ ((5 ≤ length phone) × (length phone ≤ 6))
unfolding mask_phone
mask_phone-none_iff phone = (λ e. ground arith, λ e. ground arith)
