-- ===== src/Common/Assoc.antt =====
-- Go maps with byte-string keys, as association lists in the order of insertion.
use gigaquizz.Common.Tests.{if◌then◌else◌, Bool-cases}
use gigaquizz.Common.Lists.{length}
use gigaquizz.Common.Bytes.{Bytes, bytes_eq, bytes_eq_sound, bytes_eq_refl}
use Prim.Native.Nat.{◌≤◌}
use mathlib.Core.Path.{◌≡◌, refl, ap, ◌∙◌}
use mathlib.Core.Logic.{inl, inr}
use mathlib.Core.Bool.{true, false}
use mathlib.Core.Option.{Option, none, some}
use mathlib.Core.List.{List, [], ◌∷◌, ◌++◌}
use native.Mathlib.Omega.{arith}

abbrev pub Assoc {ℓ} : Type ℓ → Type ℓ
Assoc V = List (Bytes × V)

module _ {ℓ} {V : Type ℓ} where
  unfoldable pub lookup : Bytes → Assoc V → Option V
  lookup k [] = none
  lookup k ((j, v) ∷ m) = if bytes_eq j k then some v else lookup k m

  -- `m[k] = v`
  unfoldable pub put : Bytes → V → Assoc V → Assoc V
  put k v [] = (k, v) ∷ []
  put k v ((j, w) ∷ m) = if bytes_eq j k then (j, v) ∷ m else (j, w) ∷ put k v m

  -- `delete(m, k)`
  unfoldable pub delete : Bytes → Assoc V → Assoc V
  delete k [] = []
  delete k ((j, w) ∷ m) = let rest = delete k m in if bytes_eq j k then rest else (j, w) ∷ rest

  pub lookup-put :
      (k j : Bytes) (v : V) (m : Assoc V)
      → lookup j (put k v m) ≡ (if bytes_eq k j then some v else lookup j m)
  unfolding lookup put
  lookup-put k j v [] = refl
  lookup-put k j v ((i, w) ∷ m) = elim (Bool-cases (bytes_eq i k)) [
    | inl e ↦ rw e (rw (← bytes_eq_sound i k e) (ground arith))
    | inr e ↦ rw e (elim (Bool-cases (bytes_eq i j)) [
      | inl f ↦ elim (Bool-cases (bytes_eq k j)) [
        | inl g ↦ cc (bytes_eq_sound k j g)
        | inr g ↦ rw (f, g)
      ]
      | inr f ↦ rw f (lookup-put k j v m)
    ])
  ]

  pub put_fresh :
      (k : Bytes) (v : V) (m : Assoc V) → lookup k m ≡ none → put k v m ≡ m ++ (k, v) ∷ []
  unfolding lookup put
  put_fresh k v [] h = refl
  put_fresh k v ((j, w) ∷ m) h = elim (Bool-cases (bytes_eq j k)) [
    | inl e ↦ absurd (impossible e)
    | inr e ↦ rw e (ap (λ t. (j, w) ∷ t) (put_fresh k v m (later e)))
  ]
    where
      impossible : bytes_eq j k ≡ true → ⊥
      impossible e = ground arith

      later : bytes_eq j k ≡ false → lookup k m ≡ none
      later e = ground arith

  pub lookup-append :
      (k : Bytes) (m n : Assoc V) (v : V) → lookup k m ≡ some v → lookup k (m ++ n) ≡ some v
  unfolding lookup
  lookup-append k [] n v h = ground arith
  lookup-append k ((j, w) ∷ m) n v h = ground (arith, lookup-append k m n v)

  pub lookup-append_none :
      (k : Bytes) (m n : Assoc V) → lookup k m ≡ none → lookup k (m ++ n) ≡ lookup k n
  unfolding lookup
  lookup-append_none k [] n h = refl
  lookup-append_none k ((j, w) ∷ m) n h = ground (arith, lookup-append_none k m n)

  pub lookup-delete :
      (k j : Bytes) (m : Assoc V)
      → lookup j (delete k m) ≡ (if bytes_eq k j then none else lookup j m)
  unfolding lookup delete
  lookup-delete k j [] = ground arith
  lookup-delete k j ((i, w) ∷ m) = elim (Bool-cases (bytes_eq i k)) [
    | inl e ↦ rw e (lookup-delete k j m ∙ rw (← bytes_eq_sound i k e) (ground arith))
    | inr e ↦ rw e (elim (Bool-cases (bytes_eq i j)) [
      | inl f ↦ elim (Bool-cases (bytes_eq k j)) [
        | inl g ↦ cc (bytes_eq_sound k j g)
        | inr g ↦ rw (f, g)
      ]
      | inr f ↦ rw f (lookup-delete k j m)
    ])
  ]

  pub length-delete-le : (k : Bytes) (m : Assoc V) → length (delete k m) ≤ length m
  unfolding delete
  length-delete-le k [] = omega arith
  length-delete-le k ((j, w) ∷ m) = ground (arith, length-delete-le k m)

  -- No key is listed twice.
  abbrev pub UniqueKeys : Assoc V → Type ℓ
  UniqueKeys [] = Unit {ℓ}
  UniqueKeys ((k, v) ∷ m) = (lookup k m ≡ none) × UniqueKeys m

  lookup-snoc_ne :
      (k j : Bytes) (v : V) (m : Assoc V)
      → lookup j m ≡ none
      → bytes_eq k j ≡ false
      → lookup j (m ++ (k, v) ∷ []) ≡ none
  unfolding lookup
  lookup-snoc_ne k j v m h e = lookup-append_none j m ((k, v) ∷ []) h ∙ rw e

  pub UniqueKeys-snoc :
      (k : Bytes) (v : V) (m : Assoc V)
      → UniqueKeys m
      → lookup k m ≡ none
      → UniqueKeys (m ++ (k, v) ∷ [])
  unfolding lookup
  UniqueKeys-snoc k v [] u h = (refl, tt)
  UniqueKeys-snoc k v ((j, w) ∷ m) u h = elim (Bool-cases (bytes_eq j k)) [
    | inl e ↦ absurd (ground arith)
    | inr e ↦ (lookup-snoc_ne k j v m u.0 (bytes_ne k j e), UniqueKeys-snoc k v m u.1 (rw e at h))
  ]
    where
      bytes_ne : (a b : Bytes) → bytes_eq b a ≡ false → bytes_eq a b ≡ false
      bytes_ne a b e = elim (Bool-cases (bytes_eq a b)) [
        | inl f ↦ cc (bytes_eq_sound a b f, bytes_eq_refl a)
        | inr f ↦ f
      ]
