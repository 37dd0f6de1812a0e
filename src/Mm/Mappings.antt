-- ===== src/Mm/Mappings.antt =====
-- The list of mappings as a list of addresses and lengths, and where an address stands in it.
use operating_system_challen.Base.{
  ℕ, ◌==◌, ◌≡◌, refl, ap, Bool, true, false, List, [], ◌∷◌, ◌++◌, map, All, if◌then◌else◌,
  Bool-cases, inl, inr,
}
use operating_system_challen.Mm.State.{Ptr, null, State}
use operating_system_challen.Mm.Find.{first_with, mapping}

abbrev pub Mapping : Type 0
Mapping = Ptr × ℕ

unfoldable pub is_mapped : Ptr → List Mapping → Bool
is_mapped a [] = false
is_mapped a (m ∷ ms) = let rest = is_mapped a ms in if m.0 == a then true else rest

-- The length of the first mapping at the address.
unfoldable pub length_at : Ptr → List Mapping → ℕ
length_at a [] = 0
length_at a (m ∷ ms) = let rest = length_at a ms in if m.0 == a then m.1 else rest

unfoldable pub remove_first : Ptr → List Mapping → List Mapping
remove_first a [] = []
remove_first a (m ∷ ms) = let rest = remove_first a ms in if m.0 == a then ms else m ∷ rest

-- Whether an item holds the address: the first one that does, between its neighbours.
pub data Place (f : Ptr → Ptr) (a : Ptr) (xs : List Ptr) : Type 0 where
  absent : first_with f a xs ≡ null → All (λ x. (f x == a) ≡ false) xs → Place f a xs
  found :
      (ys : List Ptr) (x : Ptr) (zs : List Ptr)
      → xs ≡ ys ++ x ∷ zs
      → first_with f a xs ≡ x
      → (f x == a) ≡ true
      → All (λ y. (f y == a) ≡ false) ys
      → Place f a xs

pub place : (f : Ptr → Ptr) (a : Ptr) (xs : List Ptr) → Place f a xs
unfolding first_with
place f a [] = absent refl tt
place f a (x ∷ xs) =
    let rest = place f a xs in
    elim (Bool-cases (f x == a)) [
      | inl e ↦ found [] x xs refl (rw e refl) e tt
      | inr e ↦ elim rest [
        | absent n o ↦ absent (rw e n) (e, o)
        | found ys y zs p g t o ↦ found (x ∷ ys) y zs (ap (λ ws. x ∷ ws) p) (rw e g) t (e, o)
      ]
    ]

module _ {W : Type 0} (s : State W) (a : Ptr) where
  abbrev Elsewhere : Ptr → Type 0
  Elsewhere x = (s.start x == a) ≡ false

  pub is_mapped-absent :
      (xs : List Ptr) → All Elsewhere xs → is_mapped a (map (mapping s) xs) ≡ false
  unfolding is_mapped
  is_mapped-absent [] o = refl
  is_mapped-absent (x ∷ xs) o = rw o.0 (is_mapped-absent xs o.1)

  pub remove_first-absent :
      (xs : List Ptr) → All Elsewhere xs → remove_first a (map (mapping s) xs) ≡ map (mapping s) xs
  unfolding remove_first
  remove_first-absent [] o = refl
  remove_first-absent (x ∷ xs) o = rw o.0 (ap (λ ms. mapping s x ∷ ms) (remove_first-absent xs o.1))

  module _ (x : Ptr) (zs : List Ptr) (t : (s.start x == a) ≡ true) where
    pub is_mapped-found :
        (ys : List Ptr) → All Elsewhere ys → is_mapped a (map (mapping s) (ys ++ x ∷ zs)) ≡ true
    unfolding is_mapped
    is_mapped-found [] o = rw t refl
    is_mapped-found (y ∷ ys) o = rw o.0 (is_mapped-found ys o.1)

    pub length_at-found :
        (ys : List Ptr) → All Elsewhere ys → length_at a (map (mapping s) (ys ++ x ∷ zs)) ≡ s.len x
    unfolding length_at
    length_at-found [] o = rw t refl
    length_at-found (y ∷ ys) o = rw o.0 (length_at-found ys o.1)

    pub remove_first-found :
        (ys : List Ptr)
        → All Elsewhere ys
        → remove_first a (map (mapping s) (ys ++ x ∷ zs)) ≡ map (mapping s) (ys ++ zs)
    unfolding remove_first
    remove_first-found [] o = rw t refl
    remove_first-found (y ∷ ys) o = rw o.0 (ap (λ ms. mapping s y ∷ ms) (remove_first-found ys o.1))
