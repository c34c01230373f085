-- ===== src/Platform/Security/Tests.antt =====
-- The masks on examples.
use qeet_notify.Base.{◌≡◌, refl, some}
use qeet_notify.Base.Text.{str}
use qeet_notify.Platform.Security.{mask_phone}

-- The number in the comment of MaskPhone gets six stars, where the comment shows five.
documented : mask_phone (str "+919876543210") ≡ some (str "+91******3210")
unfolding mask_phone
documented = refl
