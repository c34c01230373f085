-- ===== src/Platform/Security.antt =====
-- platform/security/pii.go: addresses and phone numbers masked for logs.
pub mod Masks
mod Tests
use qeet_notify.Base.{
  ℕ, zero, suc, ◌-◌, Option, none, some, List, [], ◌∷◌, ◌++◌, if◌then◌else◌, leb, length, take,
  drop,
}
use qeet_notify.Base.Text.{Str, str}
use qeet_notify.Base.Text.Search.{index}

-- strings.Repeat("*", n)
abbrev pub stars : ℕ → Str
stars zero = []
stars (suc n) = 42 ∷ stars n

abbrev pub mask_local : Str → Str → Str
mask_local name domain =
    if leb (length name) 2
    then str "**" ++ domain
    else take 2 name ++ (stars (length name - 2) ++ domain)

abbrev pub mask_at : Option ℕ → Str → Str
mask_at none email = str "***"
mask_at (some zero) email = str "***"
mask_at (some (suc n)) email = mask_local (take (suc n) email) (drop (suc n) email)

unfoldable pub mask_email : Str → Str
unfolding index
mask_email email = mask_at (index email (str "@")) email

-- `none` is the panic of strings.Repeat at a negative count, which comes before the second test.
unfoldable pub mask_phone : Str → Option Str
mask_phone phone =
    if leb (length phone) 4
    then some (str "****")
    else if leb 7 (length phone)
    then some (
        if leb (length phone) 7
        then take 3 phone ++ str "****"
        else take 3 phone ++ (stars (length phone - 7) ++ drop (length phone - 4) phone))
    else none
