-- ===== src/Httpapi/Auth/Sessions.antt =====
-- The session table: what a sweep, an entry and a deletion do to the sessions that are honoured.
use gigaquizz.Common.{
  ℕ, suc, ◌≤◌, ◌≡◌, refl, sym, ◌∙◌, Bool, false, [], ◌∷◌, Option, none, some, ltb, if◌then◌else◌,
  length, arith, Bool-cases, inl, inr,
}
use gigaquizz.Common.Bytes.{Bytes, bytes_eq, bytes_eq_sound, bytes_eq_refl}
use gigaquizz.Common.Assoc.{Assoc, lookup, put, delete, lookup-put, lookup-delete, UniqueKeys}
use gigaquizz.GoTime.{before}
use gigaquizz.Httpapi.Auth.{sweep, unexpired}

-- A session of the table that is honoured at `now`.
abbrev pub live : Bytes → ℕ → Assoc ℕ → Bool
live key now m = unexpired now (lookup key m)

expired_later :
    (now later expiry : ℕ) → now ≤ later → ltb now expiry ≡ false → ltb later expiry ≡ false
expired_later now later expiry h e = ground arith

lookup-sweep-none :
    (now : ℕ) (k : Bytes) (m : Assoc ℕ) → lookup k m ≡ none → lookup k (sweep now m) ≡ none
unfolding lookup sweep
lookup-sweep-none now k [] h = refl
lookup-sweep-none now k ((j, e) ∷ m) h = ground (arith, lookup-sweep-none now k m)

pub UniqueKeys-sweep : (now : ℕ) (m : Assoc ℕ) → UniqueKeys m → UniqueKeys (sweep now m)
unfolding sweep
UniqueKeys-sweep now [] u = tt
UniqueKeys-sweep now ((j, e) ∷ m) u = elim (Bool-cases (before now e)) [
  | inl h ↦ rw h (lookup-sweep-none now j m u.0, UniqueKeys-sweep now m u.1)
  | inr h ↦ rw h (UniqueKeys-sweep now m u.1)
]

-- A sweep takes nothing away that would be honoured later.
pub live-sweep :
    (now later : ℕ) (k : Bytes) (m : Assoc ℕ)
    → now ≤ later
    → UniqueKeys m
    → live k later (sweep now m) ≡ live k later m
unfolding lookup sweep
live-sweep now later k [] h u = refl
live-sweep now later k ((j, e) ∷ m) h u = elim (Bool-cases (before now e)) [
  | inl f ↦ rw f (elim (Bool-cases (bytes_eq j k)) [
    | inl g ↦ rw g refl
    | inr g ↦ rw g (live-sweep now later k m h u.1)
  ])
  | inr f ↦ rw f (elim (Bool-cases (bytes_eq j k)) [
    | inl g ↦ rw g (
        rw (lookup-sweep-none now k m (rw (← bytes_eq_sound j k g) u.0))
          (sym (expired_later now later e h f)))
    | inr g ↦ rw g (live-sweep now later k m h u.1)
  ])
]

bytes_ne : (a b : Bytes) → bytes_eq b a ≡ false → bytes_eq a b ≡ false
bytes_ne a b e = elim (Bool-cases (bytes_eq a b)) [
  | inl f ↦ cc (bytes_eq_sound a b f, bytes_eq_refl a)
  | inr f ↦ f
]

pub UniqueKeys-put : (k : Bytes) (v : ℕ) (m : Assoc ℕ) → UniqueKeys m → UniqueKeys (put k v m)
unfolding put lookup
UniqueKeys-put k v [] u = (refl, tt)
UniqueKeys-put k v ((j, w) ∷ m) u = elim (Bool-cases (bytes_eq j k)) [
  | inl e ↦ rw e u
  | inr e ↦ rw e (lookup-put k j v m ∙ rw (bytes_ne k j e) u.0, UniqueKeys-put k v m u.1)
]

pub UniqueKeys-delete : (k : Bytes) (m : Assoc ℕ) → UniqueKeys m → UniqueKeys (delete k m)
unfolding delete lookup
UniqueKeys-delete k [] u = tt
UniqueKeys-delete k ((j, w) ∷ m) u = elim (Bool-cases (bytes_eq j k)) [
  | inl e ↦ rw e (UniqueKeys-delete k m u.1)
  | inr e ↦ rw e (lookup-delete k j m ∙ rw (bytes_ne k j e) u.0, UniqueKeys-delete k m u.1)
]

pub length-sweep-le : (now : ℕ) (m : Assoc ℕ) → length (sweep now m) ≤ length m
unfolding sweep
length-sweep-le now [] = omega arith
length-sweep-le now ((j, e) ∷ m) = ground (arith, length-sweep-le now m)

pub length-put-le : (k : Bytes) (v : ℕ) (m : Assoc ℕ) → length (put k v m) ≤ suc (length m)
unfolding put
length-put-le k v [] = omega arith
length-put-le k v ((j, e) ∷ m) = ground (arith, length-put-le k v m)

pub live-put :
    (k j : Bytes) (now v : ℕ) (m : Assoc ℕ)
    → live j now (put k v m) ≡ (if bytes_eq k j then before now v else live j now m)
live-put k j now v m = elim (Bool-cases (bytes_eq k j)) [
  | inl e ↦ rw (lookup-put k j v m, e) refl
  | inr e ↦ rw (lookup-put k j v m, e) refl
]

pub live-delete :
    (k j : Bytes) (now : ℕ) (m : Assoc ℕ)
    → live j now (delete k m) ≡ (if bytes_eq k j then false else live j now m)
live-delete k j now m = elim (Bool-cases (bytes_eq k j)) [
  | inl e ↦ rw (lookup-delete k j m, e) refl
  | inr e ↦ rw (lookup-delete k j m, e) refl
]

-- To delete a key that is not honoured takes nothing away that would be honoured later.
pub live-delete_expired :
    (k j : Bytes) (now later : ℕ) (m : Assoc ℕ)
    → now ≤ later
    → live k now m ≡ false
    → live j later (delete k m) ≡ live j later m
live-delete_expired k j now later m h e = elim (Bool-cases (bytes_eq k j)) [
  | inl f ↦ live-delete k j later m ∙ rw f (sym (rw (← bytes_eq_sound k j f) (gone (lookup k m) e)))
  | inr f ↦ live-delete k j later m ∙ rw f refl
]
  where
    gone : (o : Option ℕ) → unexpired now o ≡ false → unexpired later o ≡ false
    gone none e = refl
    gone (some expiry) e = expired_later now later expiry h e
