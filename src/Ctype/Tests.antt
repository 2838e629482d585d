-- ===== src/Ctype/Tests.antt =====
-- Runs of the classes of characters, and their theorem at a digit.
use linda.Base.{◌≡◌, refl}
use linda.Ctype.{tolower, toupper}

letters : (tolower 65 ≡ 97) × (toupper 122 ≡ 90) × (toupper 48 ≡ 48)
unfolding tolower toupper
letters = (refl, refl, refl)
