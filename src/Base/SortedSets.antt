-- ===== src/Base/SortedSets.antt =====
-- Sets of strings as the lists that sets.List gives: sorted, each item once.
use Prim.Native.String.{String, [], ◌∷◌}
use mathlib.Core.List.{List, Memᴰ}
use mathlib.Core.List.Memᴰ
use mathlib.Core.Path.{◌≡◌, refl, sym, ◌∙◌, subst}
use mathlib.Core.Logic.{◌⊎◌, ◌↔◌, inl, inr}
use mathlib.Core.Bool.{true, false, ◌||◌}
use native.Mathlib.Omega.{arith}
use text.Mathlib.Text.{◌==◌}
use text.Mathlib.TextEquality.{codes_equal}
use cluster_authentication_o.Base.Tests.{if◌then◌else◌, Bool-cases}
use cluster_authentication_o.Base.Text.{less}
use cluster_authentication_o.Base.Lists.{All, has}

less_irrefl : (s : String) → less s s ≡ false
unfolding less
less_irrefl [] = refl
less_irrefl (c ∷ s) = ground (arith, less_irrefl s)

less_trans : (r s t : String) → less r s ≡ true → less s t ≡ true → less r t ≡ true
unfolding less
less_trans [] [] t h k = absurd (ground (arith, h))
less_trans [] (d ∷ s) [] h k = absurd (ground (arith, k))
less_trans [] (d ∷ s) (e ∷ t) h k = refl
less_trans (c ∷ r) [] t h k = absurd (ground (arith, h))
less_trans (c ∷ r) (d ∷ s) [] h k = absurd (ground (arith, k))
less_trans (c ∷ r) (d ∷ s) (e ∷ t) h k = ground (arith, less_trans r s t, h, k)

less_total : (s t : String) → less s t ≡ false → less t s ≡ false → s ≡ t
unfolding less
less_total [] [] h k = refl
less_total [] (d ∷ t) h k = absurd (ground (arith, h))
less_total (c ∷ s) [] h k = absurd (ground (arith, k))
less_total (c ∷ s) (d ∷ t) h k =
    let first : c ≡ d = codes_equal c d (ground (arith, h, k)) in
    let rest = less_total s t (ground (arith, h, k)) (ground (arith, h, k)) in λ i. first i ∷ rest i

unfoldable pub insert : String → List String → List String
insert x List.[] = List.◌∷◌ x List.[]
insert x (List.◌∷◌ y ys) =
    let rest = insert x ys in
    if less x y
    then List.◌∷◌ x (List.◌∷◌ y ys)
    else if less y x
    then List.◌∷◌ y rest
    else List.◌∷◌ y ys

unfoldable pub insert_all : List String → List String → List String
insert_all List.[] set = set
insert_all (List.◌∷◌ x xs) set = insert_all xs (insert x set)

abbrev pub IsSorted : List String → Type 0
IsSorted List.[] = Unit
IsSorted (List.◌∷◌ x xs) = All (λ y. less x y ≡ true) xs × IsSorted xs

insert_mem : (x z : String) (ys : List String) → Memᴰ z (insert x ys) → (z ≡ x) ⊎ Memᴰ z ys
unfolding insert
insert_mem x z List.[] m = elim (Memᴰ.cases_cons m) [ inl e ↦ inl e | inr m' ↦ elim m' [ ] ]
insert_mem x z (List.◌∷◌ y ys) m = elim (Bool-cases (less x y)) [
  | inl t ↦ Memᴰ.cases_cons (rw t at m)
  | inr f ↦ elim (Bool-cases (less y x)) [
    | inr g ↦ inr (rw (f, g) at m)
    | inl u ↦ elim (Memᴰ.cases_cons (rw (f, u) at m)) [
      | inl e ↦ inr (Memᴰ.head e)
      | inr m' ↦ elim (insert_mem x z ys m') [ inl e ↦ inl e | inr n ↦ inr (Memᴰ.tail n) ]
    ]
  ]
]

mem_insert : (x z : String) (ys : List String) → (z ≡ x) ⊎ Memᴰ z ys → Memᴰ z (insert x ys)
unfolding insert
mem_insert x z List.[] (inl e) = Memᴰ.head e
mem_insert x z List.[] (inr m) = elim m [ ]
mem_insert x z (List.◌∷◌ y ys) (inl e) = elim (Bool-cases (less x y)) [
  | inl t ↦ rw t (Memᴰ.head e)
  | inr f ↦ elim (Bool-cases (less y x)) [
    | inl u ↦ rw (f, u) (Memᴰ.tail (mem_insert x z ys (inl e)))
    | inr g ↦ rw (f, g) (Memᴰ.head (e ∙ less_total x y f g))
  ]
]
mem_insert x z (List.◌∷◌ y ys) (inr m) = elim (Bool-cases (less x y)) [
  | inl t ↦ rw t (Memᴰ.tail m)
  | inr f ↦ elim (Bool-cases (less y x)) [
    | inr g ↦ rw (f, g) m
    | inl u ↦
        rw (f, u)
          (elim (Memᴰ.cases_cons m) [
            | inl e ↦ Memᴰ.head e
            | inr m' ↦ Memᴰ.tail (mem_insert x z ys (inr m'))
          ])
  ]
]

-- All of a list, from its members and back.
All-of_mem : (P : String → Type 0) (xs : List String) → ((x : String) → Memᴰ x xs → P x) → All P xs
All-of_mem P List.[] f = tt
All-of_mem P (List.◌∷◌ x xs) f = (f x (Memᴰ.head refl), All-of_mem P xs (λ y m. f y (Memᴰ.tail m)))

mem-All : (P : String → Type 0) (xs : List String) → All P xs → (x : String) → Memᴰ x xs → P x
mem-All P List.[] all x m = elim m [ ]
mem-All P (List.◌∷◌ y xs) all x m = elim (Memᴰ.cases_cons m) [
  | inl e ↦ subst P (sym e) all.0
  | inr m' ↦ mem-All P xs all.1 x m'
]

insert-IsSorted : (x : String) (ys : List String) → IsSorted ys → IsSorted (insert x ys)
unfolding insert
insert-IsSorted x List.[] s = (tt, tt)
insert-IsSorted x (List.◌∷◌ y ys) s = elim (Bool-cases (less x y)) [
  | inl t ↦ rw t (
    (
      t,
      All-of_mem (λ z. less x z ≡ true) ys
          (λ z m. less_trans x y z t (mem-All (λ w. less y w ≡ true) ys s.0 z m)),
    ),
    s,
  )
  | inr f ↦ elim (Bool-cases (less y x)) [
    | inr g ↦ rw (f, g) s
    | inl u ↦
        rw (f, u)
          (
            All-of_mem (λ z. less y z ≡ true) (insert x ys)
                (λ z m. elim (insert_mem x z ys m) [
                  | inl e ↦ subst (λ w. less y w ≡ true) (sym e) u
                  | inr n ↦ mem-All (λ w. less y w ≡ true) ys s.0 z n
                ]),
            insert-IsSorted x ys s.1,
          )
  ]
]

pub insert_all-IsSorted : (xs set : List String) → IsSorted set → IsSorted (insert_all xs set)
unfolding insert_all
insert_all-IsSorted List.[] set s = s
insert_all-IsSorted (List.◌∷◌ x xs) set s =
    insert_all-IsSorted xs (insert x set) (insert-IsSorted x set s)

pub insert_all_mem :
    (xs set : List String) (z : String) → Memᴰ z (insert_all xs set) ↔ (Memᴰ z xs ⊎ Memᴰ z set)
unfolding insert_all
insert_all_mem List.[] set z = (λ m. inr m, λ m. elim m [ inl n ↦ elim n [ ] | inr n ↦ n ])
insert_all_mem (List.◌∷◌ x xs) set z = (
  λ m. elim ((insert_all_mem xs (insert x set) z).0 m) [
    | inl n ↦ inl (Memᴰ.tail n)
    | inr n ↦ elim (insert_mem x z set n) [ inl e ↦ inl (Memᴰ.head e) | inr k ↦ inr k ]
  ],
  λ m. (insert_all_mem xs (insert x set) z).1 (elim m [
    | inr k ↦ inr (mem_insert x z set (inr k))
    | inl n ↦ elim (Memᴰ.cases_cons n) [ inl e ↦ inr (mem_insert x z set (inl e)) | inr k ↦ inl k ]
  ]),
)

same_head :
    (x y : String) (xs ys : List String)
    → All (λ z. less x z ≡ true) xs
    → All (λ z. less y z ≡ true) ys
    → (x ≡ y) ⊎ Memᴰ x ys
    → (y ≡ x) ⊎ Memᴰ y xs
    → x ≡ y
same_head x y xs ys sx sy (inl e) m = e
same_head x y xs ys sx sy (inr m) (inl e) = sym e
same_head x y xs ys sx sy (inr m) (inr n) = absurd (
    ground (
      arith,
      less_irrefl x,
      less_trans x y x (mem-All (λ z. less x z ≡ true) xs sx y n)
          (mem-All (λ z. less y z ≡ true) ys sy x m),
    ))

-- a member of a tail is no copy of the head
in_tail :
    (x y z : String) (xs ys : List String)
    → All (λ w. less x w ≡ true) xs
    → x ≡ y
    → Memᴰ z xs
    → Memᴰ z (List.◌∷◌ y ys)
    → Memᴰ z ys
in_tail x y z xs ys sx e m n = elim (Memᴰ.cases_cons n) [
  | inr k ↦ k
  | inl d ↦ absurd (
      ground (
        arith,
        less_irrefl x,
        subst (λ w. less x w ≡ true) (d ∙ sym e) (mem-All (λ w. less x w ≡ true) xs sx z m),
      ))
]

-- A sorted list is known by its members.
pub sorted_unique :
    (xs ys : List String)
    → IsSorted xs
    → IsSorted ys
    → ((z : String) → Memᴰ z xs ↔ Memᴰ z ys)
    → xs ≡ ys
sorted_unique List.[] List.[] sx sy same = refl
sorted_unique List.[] (List.◌∷◌ y ys) sx sy same = elim ((same y).1 (Memᴰ.head refl)) [ ]
sorted_unique (List.◌∷◌ x xs) List.[] sx sy same = elim ((same x).0 (Memᴰ.head refl)) [ ]
sorted_unique (List.◌∷◌ x xs) (List.◌∷◌ y ys) sx sy same =
    let heads =
      same_head x y xs ys sx.0 sy.0 (Memᴰ.cases_cons ((same x).0 (Memᴰ.head refl)))
        (Memᴰ.cases_cons ((same y).1 (Memᴰ.head refl))) in
    let tails = sorted_unique xs ys sx.1 sy.1 (λ z. (
      λ m. in_tail x y z xs ys sx.0 heads m ((same z).0 (Memᴰ.tail m)),
      λ m. in_tail y x z ys xs sy.0 (sym heads) m ((same z).1 (Memᴰ.tail m)),
    )) in
    λ i. List.◌∷◌ (heads i) (tails i)

-- Membership as a test.
pub has-insert :
    (x y : String) (set : List String)
    → has (λ h. h == x) (insert y set) ≡ (y == x || has (λ h. h == x) set)
unfolding insert
has-insert x y List.[] = refl
has-insert x y (List.◌∷◌ z zs) = elim (Bool-cases (less y z)) [
  | inl p ↦ ground (arith, p)
  | inr p ↦ elim (Bool-cases (less z y)) [
    | inl q ↦ ground (arith, p, q, has-insert x y zs)
    | inr q ↦ ground (arith, p, q, less_total y z p q)
  ]
]

pub has-insert_all :
    (x : String) (items set : List String)
    → has (λ h. h == x) (insert_all items set) ≡ (has (λ h. h == x) items || has (λ h. h == x) set)
unfolding insert_all
has-insert_all x List.[] set = refl
has-insert_all x (List.◌∷◌ y items) set =
    ground (arith, has-insert_all x items (insert y set), has-insert x y set)
