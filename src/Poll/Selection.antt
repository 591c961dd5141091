-- ===== src/Poll/Selection.antt =====
-- NormalizeChoices: which selections pass, and what comes out.
use gigaquizz.Common.{
  ◌≤◌, ◌≡◌, ◌≢◌, ◌↔◌, inl, inr, refl, sym, Bool, true, false, List, [], ◌∷◌, Option, none, some,
  length, All, arith, Bool-cases,
}
use gigaquizz.Common.Int.{ℤ, ◌≤b◌, ◌=b◌, le_total, le_trans, le_antisymm, eq_sound, eq_false}
use gigaquizz.Poll.{insert, sort, is_option_id, check_ids, ok, normalize_choices}
use mathlib.Core.List.{Perm}
use mathlib.Core.List.Perm

abbrev pub IsOptionId : ℤ → Type 0
IsOptionId v = is_option_id v ≡ true

abbrev pub Distinct : List ℤ → Type 0
Distinct [] = Unit {0}
Distinct (x ∷ xs) = All (λ y. x ≢ y) xs × Distinct xs

-- Strictly increasing.
abbrev pub Increasing : List ℤ → Type 0
Increasing [] = Unit {0}
Increasing (x ∷ xs) = All (λ y. (x ≤b y ≡ true) × (x ≢ y)) xs × Increasing xs

abbrev Sorted : List ℤ → Type 0
Sorted [] = Unit {0}
Sorted (x ∷ xs) = All (λ y. x ≤b y ≡ true) xs × Sorted xs

insert-perm : (a : ℤ) (xs : List ℤ) → Perm (insert a xs) (a ∷ xs)
unfolding insert
insert-perm a [] = Perm.refl (a ∷ [])
insert-perm a (b ∷ bs) = elim (Bool-cases (a ≤b b)) [
  | inl h ↦ rw h (Perm.refl (a ∷ b ∷ bs))
  | inr h ↦ rw h (Perm.trans (Perm.cons b (insert-perm a bs)) (Perm.swap a b bs))
]

sort-perm : (xs : List ℤ) → Perm (sort xs) xs
unfolding sort
sort-perm [] = Perm.refl []
sort-perm (x ∷ xs) = Perm.trans (insert-perm x (sort xs)) (Perm.cons x (sort-perm xs))

module _ (P : ℤ → Type 0) where
  All-insert : (a : ℤ) (xs : List ℤ) → All P (insert a xs) ↔ (P a × All P xs)
  unfolding insert
  All-insert a [] = ((λ h. h), λ h. h)
  All-insert a (b ∷ bs) = elim (Bool-cases (a ≤b b)) [
    | inl h ↦ rw h ((λ k. k), λ k. k)
    | inr h ↦ rw h (
      (λ k. let (p, q) = (All-insert a bs).0 k.1 in (p, (k.0, q))),
      λ k. (k.1.0, (All-insert a bs).1 (k.0, k.1.1)),
    )
  ]

  All-sort : (xs : List ℤ) → All P (sort xs) ↔ All P xs
  unfolding sort
  All-sort [] = ((λ h. h), λ h. h)
  All-sort (x ∷ xs) = (
    (λ h. let (p, q) = (All-insert x (sort xs)).0 h in (p, (All-sort xs).0 q)),
    λ h. (All-insert x (sort xs)).1 (h.0, (All-sort xs).1 h.1),
  )

  All-weaken : (Q : ℤ → Type 0) → ((x : ℤ) → P x → Q x) → (xs : List ℤ) → All P xs → All Q xs
  All-weaken Q f [] h = tt
  All-weaken Q f (x ∷ xs) h = (f x h.0, All-weaken Q f xs h.1)

insert-Sorted : (a : ℤ) (xs : List ℤ) → Sorted xs → Sorted (insert a xs)
unfolding insert
insert-Sorted a [] s = (tt, tt)
insert-Sorted a (b ∷ bs) s = elim (Bool-cases (a ≤b b)) [
  | inl h ↦ rw h (((h, All-weaken (λ y. b ≤b y ≡ true) _ (λ y k. le_trans a b y h k) bs s.0), s))
  | inr h ↦
      rw h ((All-insert (λ y. b ≤b y ≡ true) a bs).1 (le_total a b h, s.0), insert-Sorted a bs s.1)
]

sort-Sorted : (xs : List ℤ) → Sorted (sort xs)
unfolding sort
sort-Sorted [] = tt
sort-Sorted (x ∷ xs) = insert-Sorted x (sort xs) (sort-Sorted xs)

insert-Distinct :
    (a : ℤ) (xs : List ℤ) → Distinct (insert a xs) ↔ (All (λ y. a ≢ y) xs × Distinct xs)
unfolding insert
insert-Distinct a [] = ((λ h. h), λ h. h)
insert-Distinct a (b ∷ bs) = elim (Bool-cases (a ≤b b)) [
  | inl h ↦ rw h ((λ k. k), λ k. k)
  | inr h ↦ rw h (
    (λ k.
        let (p, q) = (All-insert (λ y. b ≢ y) a bs).0 k.0 in
        let (u, v) = (insert-Distinct a bs).0 k.1 in (((λ e. p (sym e)), u), (q, v))),
    λ k. (
      (All-insert (λ y. b ≢ y) a bs).1 ((λ e. k.0.0 (sym e)), k.1.0),
      (insert-Distinct a bs).1 (k.0.1, k.1.1),
    ),
  )
]

sort-Distinct : (xs : List ℤ) → Distinct (sort xs) ↔ Distinct xs
unfolding sort
sort-Distinct [] = ((λ h. h), λ h. h)
sort-Distinct (x ∷ xs) = (
  (λ h.
      let (p, q) = (insert-Distinct x (sort xs)).0 h in
      ((All-sort (λ y. x ≢ y) xs).0 p, (sort-Distinct xs).0 q)),
  λ h. (insert-Distinct x (sort xs)).1 ((All-sort (λ y. x ≢ y) xs).1 h.0, (sort-Distinct xs).1 h.1),
)

Increasing-of : (xs : List ℤ) → Sorted xs → Distinct xs → Increasing xs
Increasing-of [] s d = tt
Increasing-of (x ∷ xs) s d = (both xs s.0 d.0, Increasing-of xs s.1 d.1)
  where
    both :
        (ys : List ℤ)
        → All (λ y. x ≤b y ≡ true) ys
        → All (λ y. x ≢ y) ys
        → All (λ y. (x ≤b y ≡ true) × (x ≢ y)) ys
    both [] h k = tt
    both (y ∷ ys) h k = ((h.0, k.0), both ys h.1 k.1)

-- The loop passes an ordered list exactly when every id is in range and no id is like the next one.
abbrev After : Option ℤ → List ℤ → Type 0
After none xs = Unit {0}
After (some u) xs = All (λ y. (u ≤b y ≡ true) × (u ≢ y)) xs

abbrev FromOn : Option ℤ → List ℤ → Type 0
FromOn none xs = Unit {0}
FromOn (some u) xs = All (λ y. u ≤b y ≡ true) xs

-- The loop's test against the id before.
abbrev repeats : Option ℤ → ℤ → Bool
repeats previous v = elim previous [ none ↦ false | some u ↦ u =b v ]

check_ids_step :
    (previous : Option ℤ) (v : ℤ) (vs : List ℤ)
    → (check_ids previous (v ∷ vs) ≡ none)
      ↔ (IsOptionId v × (repeats previous v ≡ false) × (check_ids (some v) vs ≡ none))
unfolding check_ids
check_ids_step previous v vs = ground arith

check_ids_complete :
    (previous : Option ℤ) (xs : List ℤ)
    → All IsOptionId xs
    → After previous xs
    → Increasing xs
    → check_ids previous xs ≡ none
check_ids_complete previous [] h a i = unfold check_ids in refl
check_ids_complete previous (v ∷ vs) h a i =
    (check_ids_step previous v vs).1
      (h.0, new previous a, check_ids_complete (some v) vs h.1 i.0 i.1)
  where
    new : (p : Option ℤ) → After p (v ∷ vs) → repeats p v ≡ false
    new none a = refl
    new (some u) a = elim (Bool-cases (u =b v)) [
      | inl e ↦ absurd (a.0.1 (eq_sound u v e))
      | inr e ↦ e
    ]

-- Strictly above an id, from above the next one, in an ordered list.
check_ids_sound :
    (previous : Option ℤ) (xs : List ℤ)
    → Sorted xs
    → FromOn previous xs
    → check_ids previous xs ≡ none
    → All IsOptionId xs × Increasing xs × After previous xs
check_ids_sound none [] s f h = (tt, tt, tt)
check_ids_sound (some u) [] s f h = (tt, tt, tt)
check_ids_sound previous (v ∷ vs) s f h =
    let (id, new, rest) = (check_ids_step previous v vs).0 h in
    let (ids, inc, above) = check_ids_sound (some v) vs s.1 s.0 rest in
    ((id, ids), (above, inc), after previous f new above)
  where
    lifted :
        (u : ℤ) (ys : List ℤ)
        → u ≤b v ≡ true
        → u ≢ v
        → All (λ y. (v ≤b y ≡ true) × (v ≢ y)) ys
        → All (λ y. (u ≤b y ≡ true) × (u ≢ y)) ys
    lifted u [] h n k = tt
    lifted u (y ∷ ys) h n k =
        ((le_trans u v y h k.0.0, λ e. n (le_antisymm u v h (rw e k.0.0))), lifted u ys h n k.1)

    after :
        (p : Option ℤ)
        → FromOn p (v ∷ vs)
        → repeats p v ≡ false
        → All (λ y. (v ≤b y ≡ true) × (v ≢ y)) vs
        → After p (v ∷ vs)
    after none f n k = tt
    after (some u) f n k = ((f.0, eq_false u v n), lifted u vs f.0 (eq_false u v n) k)

Increasing-Distinct : (xs : List ℤ) → Increasing xs → Distinct xs
Increasing-Distinct [] i = tt
Increasing-Distinct (x ∷ xs) i =
    (All-weaken (λ y. (x ≤b y ≡ true) × (x ≢ y)) _ (λ y h. h.1) xs i.0, Increasing-Distinct xs i.1)

-- The selections that a vote may make: 1 to 20 ids, each in 1 to 20, no id twice.
pub record IsSelection (choices : List ℤ) : Type 0 where
  pub some_ids : 1 ≤ length choices
  pub few_ids : length choices ≤ 20
  pub ids : All IsOptionId choices
  pub distinct : Distinct choices

normalize_choices_ok :
    (choices result : List ℤ)
    → normalize_choices choices ≡ ok result
    → (result ≡ sort choices)
      × (1 ≤ length choices)
      × (length choices ≤ 20)
      × (check_ids none (sort choices) ≡ none)
unfolding normalize_choices
normalize_choices_ok choices result h = (ground arith, ground arith, ground arith, ground arith)

-- An accepted selection comes out as a permutation of itself in strictly increasing order, and it was
-- 1 to 20 distinct ids, each in 1 to 20.
pub normalize_choices_sound :
    (choices result : List ℤ)
    → normalize_choices choices ≡ ok result
    → Perm result choices × Increasing result × IsSelection choices
normalize_choices_sound choices result h =
    let (r, lo, hi, c) = normalize_choices_ok choices result h in
    let (ids, inc, _) = check_ids_sound none (sort choices) (sort-Sorted choices) tt c in
    rw r (
      sort-perm choices,
      inc,
      record {
        some_ids = lo;
        few_ids = hi;
        ids = (All-sort IsOptionId choices).0 ids;
        distinct = (sort-Distinct choices).0 (Increasing-Distinct (sort choices) inc);
      },
    )

-- Every selection of 1 to 20 distinct ids, each in 1 to 20, is accepted.
pub normalize_choices_complete :
    (choices : List ℤ) → IsSelection choices → normalize_choices choices ≡ ok (sort choices)
unfolding normalize_choices
normalize_choices_complete choices v =
    let s =
      Increasing-of (sort choices) (sort-Sorted choices) ((sort-Distinct choices).1 v.distinct) in
    let c = check_ids_complete none (sort choices) ((All-sort IsOptionId choices).1 v.ids) tt s in
    ground (arith, c)
