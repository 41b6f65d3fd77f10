-- ===== src/Http/Client/Method.antt =====
-- What `SetMethod` leaves of the method set before it.
use mathlib.Core.Logic.{◌⊎◌, inl, inr}
use s3client.Common.{
  ℕ, Bytes, some, Bool, true, ◌||◌, codes, same_text, same_text-eq, ◌≡◌, refl, arith,
}
use s3client.Text.Url.{to_upper, is_lower}
use s3client.Http.Client.{Options, method_options}

-- The methods that are set by name.
unfoldable pub is_custom : Bytes → Bool
is_custom m =
    same_text m (codes "HEAD") || same_text m (codes "DELETE") || same_text m (codes "POST")

unfoldable pub is_plain : Bytes → Bool
is_plain m = same_text m (codes "GET") || same_text m (codes "PUT")

is_custom_cases :
    (m : Bytes)
    → is_custom m ≡ true
    → (m ≡ codes "HEAD") ⊎ ((m ≡ codes "DELETE") ⊎ (m ≡ codes "POST"))
unfolding is_custom
is_custom_cases m h = ground (
  arith,
  same_text-eq m (codes "HEAD"),
  same_text-eq m (codes "DELETE"),
  same_text-eq m (codes "POST"),
)

is_plain_cases : (m : Bytes) → is_plain m ≡ true → (m ≡ codes "GET") ⊎ (m ≡ codes "PUT")
unfolding is_plain
is_plain_cases m h = ground (arith, same_text-eq m (codes "GET"), same_text-eq m (codes "PUT"))

pub sets_custom :
    (m post : Bytes) (size : ℕ) (o : Options)
    → is_custom m ≡ true
    → (method_options m size post o).custom_request ≡ some m
unfolding method_options same_text to_upper is_lower
sets_custom m post size o h = elim (is_custom_cases m h) [
  | inl e ↦ rw e refl
  | inr (inl e) ↦ rw e refl
  | inr (inr e) ↦ rw e refl
]

pub keeps_custom :
    (m post : Bytes) (size : ℕ) (o : Options)
    → is_plain m ≡ true
    → (method_options m size post o).custom_request ≡ o.custom_request
unfolding method_options same_text to_upper is_lower
keeps_custom m post size o h = elim (is_plain_cases m h) [ inl e ↦ rw e refl | inr e ↦ rw e refl ]
