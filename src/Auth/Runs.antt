-- ===== src/Auth/Runs.antt =====
-- Callers at a list of two keys.
use sekisho.Base.{[], ◌∷◌, none, some, ◌≡◌, refl, if◌then◌else◌, same, any, All}
use sekisho.Text.{lit}
use sekisho.Text.Utf8.{IsScalar}
use sekisho.Auth.{authenticate, identify_caller}
use sekisho.Auth.Callers.{identify_caller-authenticate}
use sekisho.Fixtures.{external, ascii-IsScalar}

keys-IsScalar : All (All IsScalar) (lit "key" ∷ lit "other" ∷ [])
keys-IsScalar = (ascii-IsScalar (lit "key") refl, (ascii-IsScalar (lit "other") refl, tt))

identify_caller-authenticate_example :
    (authenticate external.ct_eq (lit "key") (lit "key" ∷ lit "other" ∷ [])
      ≡ any (same (lit "key")) (lit "key" ∷ lit "other" ∷ []))
    × (identify_caller external.ct_eq (lit "key") (lit "key" ∷ lit "other" ∷ []) ≡ (
        if authenticate external.ct_eq (lit "key") (lit "key" ∷ lit "other" ∷ [])
        then some (lit "key")
        else none))
identify_caller-authenticate_example =
    identify_caller-authenticate external.ct_eq (λ a b h. refl) (lit "key")
      (lit "key" ∷ lit "other" ∷ []) (ascii-IsScalar (lit "key") refl) keys-IsScalar
