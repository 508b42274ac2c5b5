-- ===== src/Daemon/Accept/Places.antt =====
-- Places in lists.
use ignibyte_bridge.Prelude.{◌≡◌, refl, ap, ◌∙◌, List, [], ◌∷◌, ◌++◌, map, All}

-- A list that is mapped to one with an element in it has its origin at that place.
pub record Origin {ℓ κ} {A : Type ℓ} {B : Type κ} (f : A → B) (xs : List A) (before : List B)
    (y : B) (after : List B) : Type (ℓ ⊔ κ) where
  pub earlier : List A
  pub origin : A
  pub later : List A
  pub splits : xs ≡ earlier ++ origin ∷ later
  pub is_origin : f origin ≡ y
  pub earlier_mapped : map f earlier ≡ before
  pub later_mapped : map f later ≡ after

pub map-Origin {ℓ κ} :
    {A : Type ℓ} {B : Type κ} (f : A → B) (xs : List A) (before : List B) (y : B) (after : List B)
    → map f xs ≡ before ++ y ∷ after
    → Origin f xs before y after
map-Origin f [] [] y after h = absurd cc
map-Origin f [] (b ∷ before) y after h = absurd cc
map-Origin f (x ∷ xs) [] y after h = record {
  earlier = [];
  origin = x;
  later = xs;
  splits = refl;
  is_origin = cc;
  earlier_mapped = refl;
  later_mapped = cc;
}
map-Origin f (x ∷ xs) (b ∷ before) y after h =
    let o = map-Origin f xs before y after cc in
    let e : f x ≡ b = cc in
    record {
      earlier = x ∷ o.earlier;
      origin = o.origin;
      later = o.later;
      splits = ap (◌∷◌ x) o.splits;
      is_origin = o.is_origin;
      earlier_mapped = ap (λ c. c ∷ map f o.earlier) e ∙ ap (◌∷◌ b) o.earlier_mapped;
      later_mapped = o.later_mapped;
    }

pub All-at {ℓ κ} :
    {A : Type ℓ} (P : A → Type κ) (xs : List A) (x : A) (ys : List A) → All P (xs ++ x ∷ ys) → P x
All-at P [] x ys h = h.0
All-at P (y ∷ xs) x ys h = All-at P xs x ys h.1

pub All-replace {ℓ κ} :
    {A : Type ℓ} (P : A → Type κ) (xs : List A) (x y : A) (ys : List A)
    → All P (xs ++ x ∷ ys)
    → P y
    → All P (xs ++ y ∷ ys)
All-replace P [] x y ys h k = (k, h.1)
All-replace P (z ∷ xs) x y ys h k = (h.0, All-replace P xs x y ys h.1 k)
