-- ===== src/Transfer/Values.antt =====
-- Values of the type `unknown` that packages/transaction-pipeline inspects: objects are lists of
-- own keys with their values. `other` is every value that `===` tells apart from a text and a
-- number, such as a boolean or an object nested in the provenance, which is compared by reference
-- with a fresh one.
use Prim.Native.Nat.{Ordering}
use crip_wallet.Base.{
  ℕ, ◌≡◌, Bool, true, false, ◌&&◌, List, [], ◌∷◌, map, all, length, ◌==◌, Option, none, some,
  if◌then◌else◌, arith,
}
use crip_wallet.Schemas.Money.{Text, text_compare}
use crip_wallet.Schemas.Common.{same_text, same_text_iff}

pub data Scalar : Type 0 where
  text : Text → Scalar
  number : ℕ → Scalar
  other : Scalar

pub data Value : Type 0 where
  scalar : Scalar → Value
  dictionary : List (Text × Scalar) → Value

-- The own value of a key, if there is one
unfoldable pub own {ℓ} : {A : Type ℓ} → Text → List (Text × A) → Option A
own key [] = none
own key (e ∷ rest) = let found = own key rest in if same_text key e.0 then some e.1 else found

-- `Object.keys`
abbrev pub keys {ℓ} : {A : Type ℓ} → List (Text × A) → List Text
keys o = map (λ e. e.0) o

-- `left === right` where right is a text or a number
unfoldable pub same_scalar : Scalar → Scalar → Bool
same_scalar (text s) (text t) = same_text s t
same_scalar (number m) (number n) = m == n
same_scalar _ _ = false

-- `o.key === t` where t is a text; a missing key gives `undefined`.
unfoldable pub is_text : Option Value → Text → Bool
is_text (some (scalar (text s))) t = same_text s t
is_text _ t = false

pub is_text_lem : (v : Option Value) (t : Text) → is_text v t ≡ true → v ≡ some (scalar (text t))
unfolding is_text
is_text_lem none t h = cc
is_text_lem (some (scalar (text s))) t h = ground (arith, same_text_iff s t)
is_text_lem (some (scalar (number n))) t h = cc
is_text_lem (some (scalar other)) t h = cc
is_text_lem (some (dictionary d)) t h = cc

-- The place of a key among sorted ones
insert_key : Text → List Text → List Text
insert_key k [] = k ∷ []
insert_key k (l ∷ rest) =
    let inserted = insert_key k rest in
    elim (text_compare k l) [ Ordering.gt ↦ l ∷ inserted | _ ↦ k ∷ l ∷ rest ]

-- `keys.sort()`, which compares the UTF-16 units
unfoldable pub sort_keys : List Text → List Text
unfolding insert_key
sort_keys [] = []
sort_keys (k ∷ rest) = insert_key k (sort_keys rest)

unfoldable pub same_keys : List Text → List Text → Bool
same_keys [] [] = true
same_keys (k ∷ s) (l ∷ t) = same_text k l && same_keys s t
same_keys _ _ = false

-- `hasExactKeys`
unfoldable pub has_exact_keys {ℓ} : {A : Type ℓ} → List (Text × A) → List Text → Bool
has_exact_keys o expected = same_keys (sort_keys (keys o)) expected

unfoldable pub entry_agrees : List (Text × Scalar) → Text × Scalar → Bool
entry_agrees right e = elim (own e.0 right) [ none ↦ false | some v ↦ same_scalar e.1 v ]

-- `sameRecord`
unfoldable pub same_record : Option Value → List (Text × Scalar) → Bool
unfolding entry_agrees
same_record (some (dictionary left)) right =
    length left == length right && all (entry_agrees right) left
same_record _ right = false
