-- ===== src/Tx/Reserved/Trimmed.antt =====
-- Encoding trims, and decoding takes what is trimmed.
use rmit.Prelude.{
  ℕ, zero, suc, ◌-◌, ◌≡◌, ◌⊎◌, inl, inr, refl, true, false, some, List, [], ◌∷◌, ◌++◌, nat_beq,
  if◌then◌else◌, length, get_elem?, take, Bool-cases, arith, ap, sym, ◌∙◌, get_elem?-append_next,
}
use rmit.Tx.Reserved.{
  Reserved, FeatureCodec, is_empty_raw, pop_empty, encode_reserved, decode_reserved,
}

abbrev pub cons_trimmed : List ℕ → List (List ℕ) → List (List ℕ)
cons_trimmed x [] = if is_empty_raw x then [] else x ∷ []
cons_trimmed x (y ∷ ys) = x ∷ y ∷ ys

-- A list without the empty values at its end.
abbrev pub trim : List (List ℕ) → List (List ℕ)
trim [] = []
trim (x ∷ xs) = cons_trimmed x (trim xs)

-- What is relied on of the RLP of the features: it can be read back, and is empty for 0 alone.
pub record IsCodec (k : FeatureCodec) : Type 0 where
  pub read_back : (f : ℕ) → k.decode_features (k.encode_features f) ≡ some f
  pub empty_zero : (f : ℕ) → is_empty_raw (k.encode_features f) ≡ nat_beq f 0

trim_empty_end :
    (xs : List (List ℕ)) (x : List ℕ) → is_empty_raw x ≡ true → trim (xs ++ x ∷ []) ≡ trim xs
trim_empty_end [] x h = rw h refl
trim_empty_end (y ∷ ys) x h = ap (cons_trimmed y) (trim_empty_end ys x h)

trim_full_end :
    (xs : List (List ℕ)) (x : List ℕ) → is_empty_raw x ≡ false → trim (xs ++ x ∷ []) ≡ xs ++ x ∷ []
trim_full_end [] x h = rw h refl
trim_full_end (y ∷ []) x h = ap (cons_trimmed y) (trim_full_end [] x h)
trim_full_end (y ∷ z ∷ zs) x h = ap (cons_trimmed y) (trim_full_end (z ∷ zs) x h)

take-append : (xs : List (List ℕ)) (x : List ℕ) → take (length xs) (xs ++ x ∷ []) ≡ xs
take-append [] x = refl
take-append (y ∷ ys) x = ap (λ l. y ∷ l) (take-append ys x)

-- A list that is not empty ends with an element.
ends :
    (n : ℕ) (xs : List (List ℕ))
    → length xs ≡ suc n
    → (ys : List (List ℕ)) × (y : List ℕ) × (xs ≡ ys ++ y ∷ []) × (length ys ≡ n)
ends n [] h = absurd (omega arith)
ends zero (x ∷ []) h = ([], x, refl, refl)
ends zero (x ∷ z ∷ zs) h = absurd (omega arith)
ends (suc n) (x ∷ []) h = absurd (omega arith)
ends (suc n) (x ∷ z ∷ zs) h =
    let (ys, y, is, size) = ends n (z ∷ zs) (omega arith) in
    (x ∷ ys, y, ap (λ l. x ∷ l) is, ap suc size)

pop_empty-trim :
    (n : ℕ) (raws : List (List ℕ)) → length raws ≡ n → pop_empty n raws ≡ some (trim raws)
unfolding pop_empty
pop_empty-trim zero [] h = refl
pop_empty-trim zero (x ∷ xs) h = absurd (omega arith)
pop_empty-trim (suc n) raws h =
    let (ys, y, is, size) = ends n raws h in
    let at : get_elem? raws n ≡ some y =
      ap (get_elem? raws) (sym size)
      ∙ ap (λ l. get_elem? l (length ys)) is
      ∙ get_elem?-append_next ys y in
    let rest : take n raws ≡ ys =
      ap (λ i. take i raws) (sym size) ∙ ap (take (length ys)) is ∙ take-append ys y in
    elim (Bool-cases (is_empty_raw y)) [
      | inl empty ↦ rw at (
          rw empty (
            ap (pop_empty n) rest
            ∙ pop_empty-trim n ys size
            ∙ ap some (sym (trim_empty_end ys y empty) ∙ ap trim (sym is))))
      | inr full ↦ rw at (rw full (ap some (is ∙ sym (trim_full_end ys y full) ∙ ap trim (sym is))))
    ]

-- The last value of a list is not empty.
abbrev EndsFull : List (List ℕ) → Type 0
EndsFull xs = (l : List ℕ) × (get_elem? xs (length xs - 1) ≡ some l) × (is_empty_raw l ≡ false)

last_later :
    (x y : List ℕ) (ys : List (List ℕ)) (l : List ℕ)
    → get_elem? (y ∷ ys) (length (y ∷ ys) - 1) ≡ some l
    → get_elem? (x ∷ y ∷ ys) (length (x ∷ y ∷ ys) - 1) ≡ some l
last_later x y ys l h =
    let here : length (y ∷ ys) - 1 ≡ length ys = omega arith in
    let there : length (x ∷ y ∷ ys) - 1 ≡ suc (length ys) = omega arith in
    ap (get_elem? (x ∷ y ∷ ys)) there ∙ ap (get_elem? (y ∷ ys)) (sym here) ∙ h

cons_trimmed-EndsFull :
    (x : List ℕ) (ts : List (List ℕ))
    → (ts ≡ []) ⊎ EndsFull ts
    → (cons_trimmed x ts ≡ []) ⊎ EndsFull (cons_trimmed x ts)
cons_trimmed-EndsFull x [] h = elim (Bool-cases (is_empty_raw x)) [
  | inl empty ↦ inl (rw empty refl)
  | inr full ↦ inr (rw full (x, refl, full))
]
cons_trimmed-EndsFull x (y ∷ ys) (inl e) = absurd (cc)
cons_trimmed-EndsFull x (y ∷ ys) (inr (l, at, full)) = inr (l, last_later x y ys l at, full)

trim-EndsFull : (xs : List (List ℕ)) → (trim xs ≡ []) ⊎ EndsFull (trim xs)
trim-EndsFull [] = inl refl
trim-EndsFull (x ∷ xs) = cons_trimmed-EndsFull x (trim xs) (trim-EndsFull xs)

decode_full :
    (k : FeatureCodec) (raw : List ℕ) (raws : List (List ℕ)) (f : ℕ)
    → EndsFull (raw ∷ raws)
    → k.decode_features raw ≡ some f
    → decode_reserved k (raw ∷ raws) ≡ some (record { features = f; unused = raws })
unfolding decode_reserved
decode_full k raw raws f (l, at, full) is = rw at (rw full (rw is refl))

module _ (k : FeatureCodec) (c : IsCodec k) where
  decode_cons :
      (f : ℕ) (ts : List (List ℕ))
      → (ts ≡ []) ⊎ EndsFull ts
      → decode_reserved k (cons_trimmed (k.encode_features f) ts)
        ≡ some (record { features = f; unused = ts })
  unfolding decode_reserved
  decode_cons f [] h = elim (Bool-cases (is_empty_raw (k.encode_features f))) [
    | inl empty ↦
        let zero_is : f ≡ 0 = ground (arith, c.empty_zero f, empty) in
        rw empty (ap (λ n. some (record { features = n; unused = [] })) (sym zero_is))
    | inr full ↦ rw full (rw full (rw (c.read_back f) refl))
  ]
  decode_cons f (y ∷ ys) (inl e) = absurd (cc)
  decode_cons f (y ∷ ys) (inr (l, at, full)) =
      decode_full k (k.encode_features f) (y ∷ ys) f
        (l, last_later (k.encode_features f) y ys l at, full) (c.read_back f)

  -- What is encoded is decoded to the same features, and to the unused values without the empty ones
  -- at their end; encoding makes no fault, and it gives the list without the empty values at its end.
  pub decode_reserved-encode_reserved :
      (r : Reserved)
      → (raws : List (List ℕ)) × (encode_reserved k r ≡ some raws)
        × (raws ≡ trim (k.encode_features r.features ∷ r.unused))
        × (decode_reserved k raws ≡ some (record { features = r.features; unused = trim r.unused }))
  unfolding encode_reserved
  decode_reserved-encode_reserved r =
      let raws = k.encode_features r.features ∷ r.unused in
      (
        trim raws,
        pop_empty-trim (length raws) raws refl,
        refl,
        decode_cons r.features (trim r.unused) (trim-EndsFull r.unused),
      )
