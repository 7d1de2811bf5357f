-- ===== src/Storage/Rows.antt =====
-- Searches in a table of src/storage.py after an INSERT, an UPDATE or a DELETE.
use clash_config_gen.Prelude.{
  ◌≡◌, refl, inl, inr, Bool, true, false, none, some, List, [], ◌∷◌, ◌++◌, arith, if◌then◌else◌,
  Bool-cases, filter, any, find,
}
use clash_config_gen.Storage.{update_where, delete_where}

pub find-some_append {ℓ} :
    {A : Type ℓ} (p : A → Bool) (xs ys : List A) (a : A)
    → find p xs ≡ some a
    → find p (xs ++ ys) ≡ some a
find-some_append p [] ys a h = cc
find-some_append p (x ∷ xs) ys a h = ground (arith, find-some_append p xs ys a)

pub find-update_where_apart {ℓ} :
    {A : Type ℓ} (p q : A → Bool) (f : A → A) (xs : List A)
    → ((a : A) → q a ≡ true → (p a ≡ false) × (p (f a) ≡ false))
    → find p (update_where q f xs) ≡ find p xs
find-update_where_apart p q f [] h = refl
find-update_where_apart p q f (x ∷ xs) h = ground (arith, h x, find-update_where_apart p q f xs h)

pub find-delete_where_apart {ℓ} :
    {A : Type ℓ} (p q : A → Bool) (xs : List A)
    → ((a : A) → q a ≡ true → p a ≡ false)
    → find p (delete_where q xs) ≡ find p xs
find-delete_where_apart p q [] h = refl
find-delete_where_apart p q (x ∷ xs) h = ground (arith, h x, find-delete_where_apart p q xs h)

pub filter-delete_where_apart {ℓ} :
    {A : Type ℓ} (p q : A → Bool) (xs : List A)
    → ((a : A) → q a ≡ true → p a ≡ false)
    → filter p (delete_where q xs) ≡ filter p xs
filter-delete_where_apart p q [] h = refl
filter-delete_where_apart p q (x ∷ xs) h = ground (arith, h x, filter-delete_where_apart p q xs h)

pub find-delete_where_self {ℓ} :
    {A : Type ℓ} (p : A → Bool) (xs : List A)
    → (find p (delete_where p xs) ≡ none) × (any p (delete_where p xs) ≡ false)
find-delete_where_self p [] = (refl, refl)
find-delete_where_self p (x ∷ xs) = ground (arith, find-delete_where_self p xs)

-- An UPDATE that keeps the search's condition changes the row that is found, if it matches.
pub find-update_where_keeps {ℓ} :
    {A : Type ℓ} (p q : A → Bool) (f : A → A) (xs : List A) (a : A)
    → ((x : A) → p (f x) ≡ p x)
    → find p xs ≡ some a
    → find p (update_where q f xs) ≡ some (if q a then f a else a)
find-update_where_keeps p q f [] a k h = cc
find-update_where_keeps p q f (x ∷ xs) a k h = elim (Bool-cases (p x)) [
  | inl t ↦
      let is : x ≡ a = ground (arith, h) in
      elim (Bool-cases (q x)) [ inl e ↦ rw (← is, e, k x, t) refl | inr e ↦ rw (← is, e, t) refl ]
  | inr t ↦
      let rest = find-update_where_keeps p q f xs a k (ground (arith, h)) in
      elim (Bool-cases (q x)) [ inl e ↦ rw (e, k x, t) rest | inr e ↦ rw (e, t) rest ]
]

pub find-none-update_where_keeps {ℓ} :
    {A : Type ℓ} (p q : A → Bool) (f : A → A) (xs : List A)
    → ((x : A) → p (f x) ≡ p x)
    → find p xs ≡ none
    → find p (update_where q f xs) ≡ none
find-none-update_where_keeps p q f [] k h = refl
find-none-update_where_keeps p q f (x ∷ xs) k h =
    ground (arith, k x, find-none-update_where_keeps p q f xs k)

pub find-append_none {ℓ} :
    {A : Type ℓ} (p : A → Bool) (xs : List A) (x : A)
    → p x ≡ false
    → find p (xs ++ x ∷ []) ≡ find p xs
find-append_none p [] x h = rw h refl
find-append_none p (y ∷ xs) x h = ground (arith, find-append_none p xs x h)

pub find-any {ℓ} :
    {A : Type ℓ} (p : A → Bool) (xs : List A) (a : A) → find p xs ≡ some a → any p xs ≡ true
find-any p [] a h = cc
find-any p (x ∷ xs) a h = ground (arith, find-any p xs a)
