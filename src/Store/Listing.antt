-- ===== src/Store/Listing.antt =====
-- ListPaged and ListFiltered: the order, the filter and the pages.
use pdag.Common.{
  ℕ, zero, suc, ◌+◌, ◌≤◌, ◌≡◌, refl, ap, sym, ◌∙◌, Bool, ◌&&◌, Text, text_eq, List, [], ◌∷◌, ◌++◌,
  arith, true, ◌⊎◌, inl, inr, ◌↔◌, some, any, get_elem?, text_eq_iff, Bool-cases, &&-eq-true,
  ||-eq-true, ||-true, ◌||◌, length, filter, take, drop, ℤ, pos, pos_part, All,
}
use pdag.Store.{
  KeyRecord, Keys, records, insert, sort, page, clamp_paging, matches, list_paged, list_filtered,
}

-- No record is older than one before it.
abbrev pub Sorted : List KeyRecord → Type 0
Sorted [] = Unit
Sorted (r ∷ rs) = All (λ s. r.created_at ≤ s.created_at) rs × Sorted rs

-- How many records pass a test.
abbrev pub count : (KeyRecord → Bool) → List KeyRecord → ℕ
count test rs = length (filter test rs)

All-weaken :
    (a b : ℕ) (rs : List KeyRecord)
    → a ≤ b
    → All (λ s. b ≤ s.created_at) rs
    → All (λ s. a ≤ s.created_at) rs
All-weaken a b [] h hs = tt
All-weaken a b (r ∷ rs) h hs = (omega (arith, h, hs.0), All-weaken a b rs h hs.1)

insert-All :
    (a : ℕ) (r : KeyRecord) (rs : List KeyRecord)
    → a ≤ r.created_at
    → All (λ s. a ≤ s.created_at) rs
    → All (λ s. a ≤ s.created_at) (insert r rs)
unfolding insert
insert-All a r [] h hs = (h, tt)
insert-All a r (s ∷ rs) h hs = let later = insert-All a r rs h hs.1 in ground arith

insert-Sorted : (r : KeyRecord) (rs : List KeyRecord) → Sorted rs → Sorted (insert r rs)
unfolding insert
insert-Sorted r [] h = (tt, tt)
insert-Sorted r (s ∷ rs) h =
    let rest = insert-Sorted r rs h.1 in
    let behind = insert-All s.created_at r rs in
    let ahead = All-weaken r.created_at s.created_at rs in ground arith

insert-count :
    (test : KeyRecord → Bool) (r : KeyRecord) (rs : List KeyRecord)
    → count test (insert r rs) ≡ count test (r ∷ rs)
unfolding insert
insert-count test r [] = refl
insert-count test r (s ∷ rs) = ground (arith, insert-count test r rs)

sort-Sorted : (rs : List KeyRecord) → Sorted (sort rs)
unfolding sort
sort-Sorted [] = tt
sort-Sorted (r ∷ rs) = insert-Sorted r (sort rs) (sort-Sorted rs)

sort-count : (test : KeyRecord → Bool) (rs : List KeyRecord) → count test (sort rs) ≡ count test rs
unfolding sort
sort-count test [] = refl
sort-count test (r ∷ rs) = ground (arith, insert-count test r (sort rs), sort-count test rs)

count-filter :
    (test p : KeyRecord → Bool) (rs : List KeyRecord)
    → count test (filter p rs) ≡ count (λ r. test r && p r) rs
count-filter test p [] = refl
count-filter test p (r ∷ rs) = ground (arith, count-filter test p rs)

filter-all : (rs : List KeyRecord) → filter (matches [] []) rs ≡ rs
unfolding matches text_eq
filter-all [] = refl
filter-all (r ∷ rs) = rw (filter-all rs)

module _ {ℓ} {A : Type ℓ} where
  take-all : (n : ℕ) (xs : List A) → length xs ≤ n → take n xs ≡ xs
  take-all zero [] h = refl
  take-all zero (x ∷ xs) h = ground arith
  take-all (suc n) [] h = refl
  take-all (suc n) (x ∷ xs) h = ground (arith, take-all n xs)

  drop-all : (n : ℕ) (xs : List A) → length xs ≤ n → drop n xs ≡ []
  drop-all zero [] h = refl
  drop-all zero (x ∷ xs) h = ground arith
  drop-all (suc n) [] h = refl
  drop-all (suc n) (x ∷ xs) h = drop-all n xs (omega (arith, h))

  take-nil : (n : ℕ) → take {A = A} n [] ≡ []
  take-nil zero = refl
  take-nil (suc n) = refl

  drop-nil : (n : ℕ) → drop {A = A} n [] ≡ []
  drop-nil zero = refl
  drop-nil (suc n) = refl

  take-append : (a b : ℕ) (xs : List A) → take a xs ++ take b (drop a xs) ≡ take (a + b) xs
  take-append zero b xs = let same : b ≡ 0 + b = omega arith in ap (λ n. take n xs) same
  take-append (suc a) b [] = take-nil b ∙ sym (take-nil (suc a + b))
  take-append (suc a) b (x ∷ xs) =
      let same : suc (a + b) ≡ suc a + b = omega arith in
      ap (λ ys. x ∷ ys) (take-append a b xs) ∙ ap (λ n. take n (x ∷ xs)) same

  drop-drop : (o a : ℕ) (xs : List A) → drop (o + a) xs ≡ drop a (drop o xs)
  drop-drop zero a xs = let same : 0 + a ≡ a = omega arith in ap (λ n. drop n xs) same
  drop-drop (suc o) a [] = drop-nil (suc o + a) ∙ sym (drop-nil a)
  drop-drop (suc o) a (x ∷ xs) =
      let same : suc o + a ≡ suc (o + a) = omega arith in
      ap (λ n. drop n (x ∷ xs)) same ∙ drop-drop o a xs

  -- Two pages that meet are one.
  take-join :
      (a b o : ℕ) (xs : List A)
      → take a (drop o xs) ++ take b (drop (o + a) xs) ≡ take (a + b) (drop o xs)
  take-join a b o xs = rw (drop-drop o a xs) (take-append a b (drop o xs))

page-take :
    (limit offset : ℕ) (rs : List KeyRecord) → page limit offset rs ≡ take limit (drop offset rs)
unfolding page
page-take limit offset rs =
    ground
      (arith, take-all limit (drop offset rs), drop-all offset rs, take-nil {A = KeyRecord} limit)

-- Two pages of ListPaged that meet are the page over both: a client that adds the number of records it
-- got to its offset sees each record of the listing once, in the order of their creation.
pub pages_join :
    (keys : Keys) (a b o : ℕ)
    → Sorted (sort (records keys))
      × (list_paged keys (pos a) (pos o) ++ list_paged keys (pos b) (pos (o + a))
          ≡ list_paged keys (pos (a + b)) (pos o))
unfolding list_paged clamp_paging
pages_join keys a b o =
    let rs = sort (records keys) in
    (
      sort-Sorted (records keys),
      rw (page-take a o rs, page-take b (o + a) rs, page-take (a + b) o rs) (take-join a b o rs),
    )

-- What ListFiltered is asked for: an empty principal or role stands for any.
abbrev pub Wanted : Text → Text → KeyRecord → Type 0
Wanted principal role rec =
    ((principal ≡ []) ⊎ (rec.principal ≡ principal))
    × ((role ≡ []) ⊎ ((i : ℕ) × (get_elem? rec.roles i ≡ some role)))

any-get_elem? :
    (role : Text) (roles : List Text) (i : ℕ)
    → get_elem? roles i ≡ some role
    → any (λ r. text_eq r role) roles ≡ true
any-get_elem? role [] i e = absurd (ground arith)
any-get_elem? role (r ∷ roles) zero e =
    let same : r ≡ role = cc in rw ((text_eq_iff r role).1 same) refl
any-get_elem? role (r ∷ roles) (suc i) e = elim (Bool-cases (text_eq r role)) [
  | inl t ↦ rw t refl
  | inr f ↦ rw (f, any-get_elem? role roles i e) refl
]

index_of :
    (role : Text) (roles : List Text)
    → any (λ r. text_eq r role) roles ≡ true
    → (i : ℕ) × (get_elem? roles i ≡ some role)
index_of role [] e = absurd (ground arith)
index_of role (r ∷ roles) e = elim (Bool-cases (text_eq r role)) [
  | inl t ↦ (0, ap some ((text_eq_iff r role).0 t))
  | inr f ↦ (let p = index_of role roles (rw f at e) in (suc p.0, p.1))
]

matches_iff :
    (principal role : Text) (rec : KeyRecord)
    → (matches principal role rec ≡ true) ↔ Wanted principal role rec
unfolding matches
matches_iff principal role rec =
    let a = text_eq_iff principal [] in
    let b = text_eq_iff rec.principal principal in
    let c = text_eq_iff role [] in
    let found = any-get_elem? role rec.roles in
    let place = index_of role rec.roles in
    (
      λ e.
          (let parts = &&-eq-true _ _ e in
            (
              elim (||-eq-true _ _ parts.0) [ inl x ↦ inl (a.0 x) | inr x ↦ inr (b.0 x) ],
              elim (||-eq-true _ _ parts.1) [ inl x ↦ inl (c.0 x) | inr x ↦ inr (place x) ],
            )),
      λ w.
          (let named : (text_eq principal [] || text_eq rec.principal principal) ≡ true = elim w.0 [
            | inl x ↦ rw (a.1 x) refl
            | inr x ↦ rw (b.1 x) (||-true (text_eq principal []))
          ] in
            let granted : (text_eq role [] || any (λ r. text_eq r role) rec.roles) ≡ true =
              elim w.1 [
                | inl x ↦ rw (c.1 x) refl
                | inr (i, x) ↦ rw (found i x) (||-true (text_eq role []))
              ] in
            rw (named, granted) refl),
    )

-- ListFiltered returns the part from offset on, of at most limit records, of a list, oldest first, that has
-- each record of the store as often as the store has it, if its principal is the one asked for and the role
-- asked for is among its roles, and no other record. A negative offset or limit counts as 0, and an empty
-- principal or role stands for any.
pub list_filtered_lem :
    (keys : Keys) (limit offset : ℤ) (principal role : Text)
    → (all : List KeyRecord) × (wanted : KeyRecord → Bool) × (Sorted all
        × ((rec : KeyRecord) → (wanted rec ≡ true) ↔ Wanted principal role rec)
        × ((test : KeyRecord → Bool)
            → count test all ≡ count (λ r. test r && wanted r) (records keys))
        × (list_filtered keys limit offset principal role
            ≡ take (pos_part limit) (drop (pos_part offset) all)))
unfolding list_filtered clamp_paging
list_filtered_lem keys limit offset principal role =
    let found = filter (matches principal role) (records keys) in
    (
      sort found,
      matches principal role,
      (
        sort-Sorted found,
        matches_iff principal role,
        (λ test. sort-count test found ∙ count-filter test (matches principal role) (records keys)),
        page-take (pos_part limit) (pos_part offset) (sort found),
      ),
    )

-- With no principal and no role ListFiltered is ListPaged.
pub list_filtered-list_paged :
    (keys : Keys) (limit offset : ℤ)
    → list_filtered keys limit offset [] [] ≡ list_paged keys limit offset
unfolding list_filtered list_paged clamp_paging
list_filtered-list_paged keys limit offset = rw (filter-all (records keys))
