-- ===== src/Base/Map.antt =====
-- Go's maps with string keys, as association lists. A key that is put or deleted has no other entry
-- left, so the order of the entries does not show.
use tailclip.Base.Strings.{Bytes, same, same_iff}
use tailclip.Base.Tests.{if◌then◌else◌, Bool-cases}
use mathlib.Core.Path.{◌≡◌, subst}
use mathlib.Core.Logic.{inl, inr}
use mathlib.Core.Bool.{Bool, true}
use mathlib.Core.Option.{Option, none, some}
use mathlib.Core.List.{List, [], ◌∷◌}
use native.Mathlib.Omega.{arith}

abbrev pub Map {ℓ} : Type ℓ → Type ℓ
Map V = List (Bytes × V)

module _ {ℓ} {V : Type ℓ} where
  unfoldable pub get : Bytes → Map V → Option V
  get k [] = none
  get k ((j, v) ∷ m) = if same j k then some v else get k m

  unfoldable pub delete : Bytes → Map V → Map V
  delete k [] = []
  delete k ((j, v) ∷ m) = let rest = delete k m in if same j k then rest else (j, v) ∷ rest

  unfoldable pub put : Bytes → V → Map V → Map V
  put k v m = (k, v) ∷ delete k m

  -- Deletes the entries whose value fails the test, as a `range` loop with `delete` does.
  unfoldable pub keep : (V → Bool) → Map V → Map V
  keep p [] = []
  keep p ((j, v) ∷ m) = let rest = keep p m in if p v then (j, v) ∷ rest else rest

  abbrev pub Each {κ} : (Bytes → V → Type κ) → Map V → Type κ
  Each P [] = Unit
  Each P ((k, v) ∷ m) = P k v × Each P m

  pub get-delete :
      (k j : Bytes) (m : Map V) → get j (delete k m) ≡ (if same k j then none else get j m)
  unfolding get delete
  get-delete k j [] = ground arith
  get-delete k j ((i, v) ∷ m) =
      ground (arith, same_iff i k, same_iff k j, same_iff i j, get-delete k j m)

  pub get-put :
      (k j : Bytes) (v : V) (m : Map V) → get j (put k v m) ≡ (if same k j then some v else get j m)
  unfolding get put
  get-put k j v m = ground (arith, get-delete k j m)

  pub get-put_self : (k : Bytes) (v : V) (m : Map V) → get k (put k v m) ≡ some v
  get-put_self k v m = ground (arith, get-put k k v m, same_iff k k)

  pub get-keep :
      (p : V → Bool) (k : Bytes) (m : Map V) (v : V)
      → get k m ≡ some v
      → p v ≡ true
      → get k (keep p m) ≡ some v
  unfolding get keep
  get-keep p k [] v h t = cc
  get-keep p k ((i, w) ∷ m) v h t = ground (arith, get-keep p k m v)

module _ {ℓ κ} {V : Type ℓ} (P : Bytes → V → Type κ) where
  pub get-Each : (k : Bytes) (m : Map V) (v : V) → Each P m → get k m ≡ some v → P k v
  unfolding get
  get-Each k [] v h e = cc
  get-Each k ((j, w) ∷ m) v h e = elim (Bool-cases (same j k)) [
    | inl t ↦
        let found : w ≡ v = ground arith in
        subst (λ x. P x v) ((same_iff j k).0 t) (subst (λ x. P j x) found h.0)
    | inr t ↦ get-Each k m v h.1 (ground arith)
  ]

  pub delete-Each : (k : Bytes) (m : Map V) → Each P m → Each P (delete k m)
  unfolding delete
  delete-Each k [] h = h
  delete-Each k ((j, w) ∷ m) h = elim (Bool-cases (same j k)) [
    | inl t ↦ rw t (delete-Each k m h.1)
    | inr t ↦ rw t (h.0, delete-Each k m h.1)
  ]

  pub put-Each : (k : Bytes) (v : V) (m : Map V) → P k v → Each P m → Each P (put k v m)
  unfolding put
  put-Each k v m x h = (x, delete-Each k m h)

  pub keep-Each : (p : V → Bool) (m : Map V) → Each P m → Each P (keep p m)
  unfolding keep
  keep-Each p [] h = h
  keep-Each p ((j, w) ∷ m) h = elim (Bool-cases (p w)) [
    | inl t ↦ rw t (h.0, keep-Each p m h.1)
    | inr t ↦ rw t (keep-Each p m h.1)
  ]
