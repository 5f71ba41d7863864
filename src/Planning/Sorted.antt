-- ===== src/Planning/Sorted.antt =====
-- The first elements of a sort are a matter of the first elements of its sorted parts.
use altr_stream.Base.{
  ℕ, zero, suc, ◌≤◌, false, List, [], ◌∷◌, ◌++◌, length, map, All, All-map, ◌⊎◌, ◌≡◌, refl, sym, ap,
  ◌∙◌, inl, inr, Bool-cases, arith,
}
use altr_stream.Merger.{Sign}
use altr_stream.Merger.Merge.{drop, take, is_negative, insert_row, sort_rows}
use altr_stream.Merger.Ordering.{Follows, Ordered}

-- The rows of all sources, one source after the other.
unfoldable pub joined : {A : Type 0} → List (List A) → List A
joined [] = []
joined (xs ∷ xss) = xs ++ joined xss

All-of : {A : Type 0} {P : A → Type 0} (xs : List A) → ((x : A) → P x) → All P xs
All-of [] f = tt
All-of (x ∷ xs) f = (f x, All-of xs f)

All-both :
    {A : Type 0} (P Q : A → Type 0) (xs : List A) → All P xs → All Q xs → All (λ x. P x × Q x) xs
All-both P Q [] h g = tt
All-both P Q (x ∷ xs) h g = ((h.0, g.0), All-both P Q xs h.1 g.1)

All-drop : {A : Type 0} (P : A → Type 0) (k : ℕ) (xs : List A) → All P xs → All P (drop k xs)
unfolding drop
All-drop P zero xs h = h
All-drop P (suc k) [] h = tt
All-drop P (suc k) (x ∷ xs) h = All-drop P k xs h.1

take-append-drop : {A : Type 0} (k : ℕ) (xs : List A) → (take k xs ++ drop k xs) ≡ xs
unfolding take drop
take-append-drop zero xs = refl
take-append-drop (suc k) [] = refl
take-append-drop (suc k) (x ∷ xs) = ap (λ ys. x ∷ ys) (take-append-drop k xs)

-- A list has `k` elements, or it is its first `k`.
take_cases : {A : Type 0} (k : ℕ) (xs : List A) → (take k xs ≡ xs) ⊎ (k ≤ length (take k xs))
unfolding take
take_cases zero xs = inr (omega arith)
take_cases (suc k) [] = inl refl
take_cases (suc k) (x ∷ xs) = elim (take_cases k xs) [
  | inl few ↦ inl (ap (λ ys. x ∷ ys) few)
  | inr enough ↦ inr (omega (arith, enough))
]

-- `take j` of `take k`, where `j` is not more.
take-take : {A : Type 0} (j k : ℕ) (xs : List A) → j ≤ k → take j (take k xs) ≡ take j xs
unfolding take
take-take zero k xs h = refl
take-take (suc j) zero xs h = absurd (omega arith)
take-take (suc j) (suc k) [] h = refl
take-take (suc j) (suc k) (x ∷ xs) h = ap (λ ys. x ∷ ys) (take-take j k xs (omega (arith, h)))

take-cons : {A : Type 0} (k : ℕ) (s : A) (zs : List A) → take k (s ∷ zs) ≡ take k (s ∷ take k zs)
unfolding take
take-cons zero s zs = refl
take-cons (suc k) s zs = ap (λ ys. s ∷ ys) (sym (take-take k (suc k) zs (omega arith)))

module _ {A : Type 0} (cmp : A → A → Sign) where
  -- `b` is not less than `a`.
  abbrev pub NotLess : A → A → Type 0
  NotLess a b = is_negative (cmp b a) ≡ false

  -- `longer` is `shorter` with `w` put in after `n` elements or more, in front of what is not less.
  data Extra (w : A) : ℕ → List A → List A → Type 0 where
    here : {zs : List A} → Follows cmp w zs → Extra w zero (w ∷ zs) zs
    there :
        {n : ℕ} {a : A} {longer shorter : List A}
        → Extra w n longer shorter
        → Extra w (suc n) (a ∷ longer) (a ∷ shorter)

  take-Extra :
      {w : A} (k n : ℕ) {longer shorter : List A}
      → k ≤ n
      → Extra w n longer shorter
      → take k longer ≡ take k shorter
  unfolding take
  take-Extra zero n h e = refl
  take-Extra (suc k) zero h e = absurd (omega arith)
  take-Extra (suc k) (suc n) h (there {a} e) =
      ap (λ xs. a ∷ xs) (take-Extra k n (omega (arith, h)) e)

  insert_first : (x : A) (zs : List A) → Follows cmp x zs → insert_row cmp x zs ≡ x ∷ zs
  unfolding insert_row Follows
  insert_first x [] h = refl
  insert_first x (s ∷ zs) h = rw h refl

  module _ (trans : (a b c : A) → NotLess a b → NotLess b c → NotLess a c) where
    Follows-trans : (x w : A) (zs : List A) → NotLess x w → Follows cmp w zs → Follows cmp x zs
    unfolding Follows
    Follows-trans x w [] h f = tt
    Follows-trans x w (s ∷ zs) h f = trans x w s h f

    -- What is inserted afterwards and is not greater goes in front.
    insert-Extra :
        {w : A} {n : ℕ} {longer shorter : List A} (x : A)
        → NotLess x w
        → Extra w n longer shorter
        → Extra w (suc n) (insert_row cmp x longer) (insert_row cmp x shorter)
    unfolding insert_row
    insert-Extra {w} x h (here {zs} f) =
        rw (h, insert_first x zs (Follows-trans x w zs h f)) (there (here f))
    insert-Extra x h (there {a} e) = elim (Bool-cases (is_negative (cmp a x))) [
      | inl less ↦ rw less (there (insert-Extra x h e))
      | inr more ↦ rw more (there (there e))
    ]

    -- The elements of a list are put in, from its end.
    unfoldable inserted : List A → List A → List A
    inserted [] zs = zs
    inserted (x ∷ xs) zs = insert_row cmp x (inserted xs zs)

    sort_rows-append : (xs ys : List A) → sort_rows cmp (xs ++ ys) ≡ inserted xs (sort_rows cmp ys)
    unfolding inserted sort_rows
    sort_rows-append [] ys = refl
    sort_rows-append (x ∷ xs) ys = ap (insert_row cmp x) (sort_rows-append xs ys)

    insert_row-Extra : (w : A) (zs : List A) → (n : ℕ) × Extra w n (insert_row cmp w zs) zs
    unfolding insert_row Follows
    insert_row-Extra w [] = (0, here tt)
    insert_row-Extra w (s ∷ zs) = elim (Bool-cases (is_negative (cmp s w))) [
      | inl less ↦ let (n, e) = insert_row-Extra w zs in rw less (suc n, there e)
      | inr more ↦ rw more (0, here more)
    ]

    inserted-Extra :
        {w : A} {n : ℕ} {longer shorter : List A} (xs : List A)
        → All (λ x. NotLess x w) xs
        → Extra w n longer shorter
        → (m : ℕ) × (length xs ≤ m) × Extra w m (inserted xs longer) (inserted xs shorter)
    unfolding inserted
    inserted-Extra {n} [] h e = (n, omega arith, e)
    inserted-Extra (x ∷ xs) h e =
        let (m, below, rest) = inserted-Extra xs h.1 e in
        (suc m, omega (arith, below), insert-Extra x h.0 rest)

    -- An element that is not less than `k` others, or more, is not among the first `k`.
    take-inserted_one :
        (k : ℕ) (xs : List A) (w : A) (zs : List A)
        → k ≤ length xs
        → All (λ x. NotLess x w) xs
        → take k (inserted xs (insert_row cmp w zs)) ≡ take k (inserted xs zs)
    take-inserted_one k xs w zs h all =
        let (n, e) = insert_row-Extra w zs in
        let (m, below, extra) = inserted-Extra xs all e in
        take-Extra k m (omega (arith, h, below)) extra

    take-inserted_rest :
        (k : ℕ) (xs ws zs : List A)
        → k ≤ length xs
        → All (λ w. All (λ x. NotLess x w) xs) ws
        → take k (inserted xs (inserted ws zs)) ≡ take k (inserted xs zs)
    unfolding inserted
    take-inserted_rest k xs [] zs h all = refl
    take-inserted_rest k xs (w ∷ ws) zs h all =
        take-inserted_one k xs w (inserted ws zs) h all.0 ∙ take-inserted_rest k xs ws zs h all.1

    Ordered-All : (x : A) (xs : List A) → Ordered cmp (x ∷ xs) → All (NotLess x) xs
    unfolding Ordered Follows
    Ordered-All x [] h = tt
    Ordered-All x (y ∷ xs) h = (h.0, All-map (λ z g. trans x y z h.0 g) xs (Ordered-All y xs h.1))

    -- The rest of an ordered list is not less than its first elements.
    Ordered-split :
        (k : ℕ) (xs : List A)
        → Ordered cmp xs
        → All (λ w. All (λ x. NotLess x w) (take k xs)) (drop k xs)
    unfolding take drop Ordered
    Ordered-split zero xs h = All-of xs (λ w. tt)
    Ordered-split (suc k) [] h = tt
    Ordered-split (suc k) (x ∷ xs) h =
        All-both _ _ (drop k xs) (All-drop _ k xs (Ordered-All x xs h)) (Ordered-split k xs h.1)

    inserted-append : (xs ys zs : List A) → inserted (xs ++ ys) zs ≡ inserted xs (inserted ys zs)
    unfolding inserted
    inserted-append [] ys zs = refl
    inserted-append (x ∷ xs) ys zs = ap (insert_row cmp x) (inserted-append xs ys zs)

    -- Of an ordered list the first `k` elements are enough.
    take-inserted :
        (k : ℕ) (xs zs : List A)
        → Ordered cmp xs
        → take k (inserted xs zs) ≡ take k (inserted (take k xs) zs)
    take-inserted k xs zs h = elim (take_cases k xs) [
      | inl few ↦ rw few refl
      | inr enough ↦
          ap (λ ys. take k (inserted ys zs)) (sym (take-append-drop k xs))
          ∙ ap (take k) (inserted-append (take k xs) (drop k xs) zs)
          ∙ take-inserted_rest k (take k xs) (drop k xs) zs enough (Ordered-split k xs h)
    ]

    take-insert_row :
        (k : ℕ) (x : A) (zs : List A)
        → take k (insert_row cmp x zs) ≡ take k (insert_row cmp x (take k zs))
    unfolding insert_row take
    take-insert_row zero x zs = refl
    take-insert_row (suc k) x [] = refl
    take-insert_row (suc k) x (s ∷ zs) = elim (Bool-cases (is_negative (cmp s x))) [
      | inl less ↦ rw less (ap (λ ys. s ∷ ys) (take-insert_row k x zs))
      | inr more ↦ rw more (ap (λ ys. x ∷ ys) (take-cons k s zs))
    ]

    -- The first `k` elements depend on the first `k` that were there.
    take-inserted_cong :
        (k : ℕ) (xs before after : List A)
        → take k before ≡ take k after
        → take k (inserted xs before) ≡ take k (inserted xs after)
    unfolding inserted
    take-inserted_cong k [] before after h = h
    take-inserted_cong k (x ∷ xs) before after h =
        take-insert_row k x (inserted xs before)
        ∙ ap (λ ys. take k (insert_row cmp x ys)) (take-inserted_cong k xs before after h)
        ∙ sym (take-insert_row k x (inserted xs after))

    pub take-sort_rows :
        (k : ℕ) (sources : List (List A))
        → All (Ordered cmp) sources
        → take k (sort_rows cmp (joined sources))
          ≡ take k (sort_rows cmp (joined (map (take k) sources)))
    unfolding joined
    take-sort_rows k [] h = refl
    take-sort_rows k (xs ∷ sources) h =
        ap (take k) (sort_rows-append xs (joined sources))
        ∙ take-inserted_cong k xs (sort_rows cmp (joined sources))
            (sort_rows cmp (joined (map (take k) sources))) (take-sort_rows k sources h.1)
        ∙ take-inserted k xs (sort_rows cmp (joined (map (take k) sources))) h.0
        ∙ ap (take k) (sym (sort_rows-append (take k xs) (joined (map (take k) sources))))
