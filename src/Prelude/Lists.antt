-- ===== src/Prelude/Lists.antt =====
-- Lists measured and indexed by native numbers, under the library's names.
use Prim.Native.Nat.{ℕ, zero, suc, ◌+◌, ◌-◌, ◌≤◌, compare, Ordering}
use mathlib.Core.Path.{◌≡◌, refl, ap, sym, ◌∙◌}
use mathlib.Core.Logic.{◌≢◌, ◌⊎◌, inl, inr}
use mathlib.Core.List.{List, [], ◌∷◌, ◌++◌}
use mathlib.Core.Option.{Option, none, some}
use native.Mathlib.Omega.{arith}

module _ {ℓ} {A : Type ℓ} where
  abbrev pub length : List A → ℕ
  length [] = 0
  length (x ∷ xs) = suc (length xs)

  abbrev pub get_elem? : List A → ℕ → Option A
  get_elem? [] i = none
  get_elem? (x ∷ xs) zero = some x
  get_elem? (x ∷ xs) (suc i) = get_elem? xs i

  -- A write out of bounds changes nothing.
  abbrev pub set : List A → ℕ → A → List A
  set [] i v = []
  set (x ∷ xs) zero v = v ∷ xs
  set (x ∷ xs) (suc i) v = x ∷ set xs i v

  abbrev pub drop : ℕ → List A → List A
  drop zero xs = xs
  drop (suc n) [] = []
  drop (suc n) (x ∷ xs) = drop n xs

  pub length-append : (xs ys : List A) → length (xs ++ ys) ≡ length xs + length ys
  length-append [] ys = omega arith
  length-append (x ∷ xs) ys = omega (arith, length-append xs ys)

  pub length-drop : (n : ℕ) (xs : List A) → length (drop n xs) ≡ length xs - n
  length-drop zero xs = omega arith
  length-drop (suc n) [] = omega arith
  length-drop (suc n) (x ∷ xs) = omega (arith, length-drop n xs)

  pub length-set : (xs : List A) (i : ℕ) (v : A) → length (set xs i v) ≡ length xs
  length-set [] i v = refl
  length-set (x ∷ xs) zero v = refl
  length-set (x ∷ xs) (suc i) v = ap suc (length-set xs i v)

  abbrev pub All {κ} : (A → Type κ) → List A → Type κ
  All P [] = Unit
  All P (x ∷ xs) = P x × All P xs

  pub All-append {κ} : (P : A → Type κ) (xs ys : List A) → All P xs → All P ys → All P (xs ++ ys)
  All-append P [] ys _ q = q
  All-append P (x ∷ xs) ys (p, ps) q = (p, All-append P xs ys ps q)

  pub All-drop {κ} : (P : A → Type κ) (n : ℕ) (xs : List A) → All P xs → All P (drop n xs)
  All-drop P zero xs h = h
  All-drop P (suc n) [] h = h
  All-drop P (suc n) (x ∷ xs) h = All-drop P n xs h.1

  pub All-map {κ μ} :
      (P : A → Type κ) (Q : A → Type μ) (xs : List A) → ((x : A) → P x → Q x) → All P xs → All Q xs
  All-map P Q [] f h = tt
  All-map P Q (x ∷ xs) f h = (f x h.0, All-map P Q xs f h.1)

module _ {ℓ} {A : Type ℓ} where
  -- `xs[-n:]` for a positive `n`: the last `n` items.
  abbrev pub last_n : ℕ → List A → List A
  last_n n xs = drop (length xs - n) xs

  pub length-last_n : (n : ℕ) (xs : List A) → length (last_n n xs) ≤ n
  length-last_n n xs = omega (arith, length-drop (length xs - n) xs)

  -- `xs.append(x); if len(xs) > cap: xs = xs[-keep:]`
  unfoldable pub push_capped : ℕ → ℕ → List A → A → List A
  push_capped cap keep xs x = elim (compare cap (length (xs ++ x ∷ []))) [
    | Ordering.lt ↦ last_n keep (xs ++ x ∷ [])
    | _ ↦ xs ++ x ∷ []
  ]

  pub length-push_capped :
      (cap keep : ℕ) (xs : List A) (x : A) → keep ≤ cap → length (push_capped cap keep xs x) ≤ cap
  unfolding push_capped
  length-push_capped cap keep xs x h = ground (arith, length-last_n keep (xs ++ x ∷ []))

  drop-nil : (n : ℕ) → drop {A = A} n [] ≡ []
  drop-nil zero = refl
  drop-nil (suc n) = refl

  pub drop-drop : (a b : ℕ) (xs : List A) → drop a (drop b xs) ≡ drop (a + b) xs
  drop-drop a zero xs = ap (λ n. drop n xs) {x = a} {y = a + 0} (omega arith)
  drop-drop a (suc b) [] = drop-nil a ∙ sym (drop-nil (a + suc b))
  drop-drop a (suc b) (x ∷ xs) =
      drop-drop a b xs ∙ ap (λ n. drop n (x ∷ xs)) {x = suc (a + b)} {y = a + suc b} (omega arith)

  drop-append : (n : ℕ) (xs ys : List A) → n ≤ length xs → drop n xs ++ ys ≡ drop n (xs ++ ys)
  drop-append zero xs ys h = refl
  drop-append (suc n) [] ys h = absurd (omega (arith, h))
  drop-append (suc n) (x ∷ xs) ys h = drop-append n xs ys (omega (arith, h))

  pub append_nil : (xs : List A) → xs ++ [] ≡ xs
  append_nil [] = refl
  append_nil (x ∷ xs) = ap (λ ys. x ∷ ys) (append_nil xs)

  pub append_assoc : (xs ys zs : List A) → (xs ++ ys) ++ zs ≡ xs ++ (ys ++ zs)
  append_assoc [] ys zs = refl
  append_assoc (x ∷ xs) ys zs = ap (λ l. x ∷ l) (append_assoc xs ys zs)

  pub last_n-short : (n : ℕ) (xs : List A) → length xs ≤ n → last_n n xs ≡ xs
  last_n-short n xs h = ap (λ k. drop k xs) {x = length xs - n} {y = 0} (omega (arith, h))

  -- What was dropped before is dropped again.
  pub last_n-append :
      (k n : ℕ) (xs ys : List A) → k ≤ n → last_n k (last_n n xs ++ ys) ≡ last_n k (xs ++ ys)
  last_n-append k n xs ys h =
      let b = length xs - n in
      let kept = drop-append b xs ys (omega arith) in
      let l1 = length-drop b (xs ++ ys) in
      let l2 = length-append xs ys in
      ap (last_n k) kept
      ∙ drop-drop (length (drop b (xs ++ ys)) - k) b (xs ++ ys)
      ∙ ap (λ m. drop m (xs ++ ys)) (omega (arith, l1, l2, h))

  pub last_n-last_n : (k n : ℕ) (xs : List A) → k ≤ n → last_n k (last_n n xs) ≡ last_n k xs
  last_n-last_n k n xs h =
      sym (ap (last_n k) (append_nil (last_n n xs)))
      ∙ last_n-append k n xs [] h
      ∙ ap (last_n k) (append_nil xs)

  pub All-push_capped {κ} :
      (P : A → Type κ) (cap keep : ℕ) (xs : List A) (x : A)
      → All P xs
      → P x
      → All P (push_capped cap keep xs x)
  unfolding push_capped
  All-push_capped P cap keep xs x h p = split (compare cap (length (xs ++ x ∷ [])))
    where
      whole : All P (xs ++ x ∷ [])
      whole = All-append P xs (x ∷ []) h (p, tt)

      split :
          (o : Ordering)
          → All P (elim o [ Ordering.lt ↦ last_n keep (xs ++ x ∷ []) | _ ↦ xs ++ x ∷ [] ])
      split Ordering.lt = All-drop P (length (xs ++ x ∷ []) - keep) (xs ++ x ∷ []) whole
      split _ = whole

  pub get_elem?-append_last : (xs : List A) (x : A) → get_elem? (xs ++ x ∷ []) (length xs) ≡ some x
  get_elem?-append_last [] x = refl
  get_elem?-append_last (y ∷ xs) x = get_elem?-append_last xs x

  pub get_elem?-set_self :
      (xs : List A) (i : ℕ) (v w : A) → get_elem? xs i ≡ some w → get_elem? (set xs i v) i ≡ some v
  get_elem?-set_self [] i v w h = cc
  get_elem?-set_self (x ∷ xs) zero v w h = refl
  get_elem?-set_self (x ∷ xs) (suc i) v w h = get_elem?-set_self xs i v w h

  pub get_elem?-set_ne :
      (xs : List A) (i j : ℕ) (v : A) → i ≢ j → get_elem? (set xs i v) j ≡ get_elem? xs j
  get_elem?-set_ne [] i j v h = refl
  get_elem?-set_ne (x ∷ xs) zero zero v h = absurd (h refl)
  get_elem?-set_ne (x ∷ xs) zero (suc j) v h = refl
  get_elem?-set_ne (x ∷ xs) (suc i) zero v h = refl
  get_elem?-set_ne (x ∷ xs) (suc i) (suc j) v h = get_elem?-set_ne xs i j v (λ e. h (ap suc e))

pub List-cases {ℓ} :
    {A : Type ℓ} (xs : List A) → (xs ≡ []) ⊎ ((x : A) × (rest : List A) × (xs ≡ x ∷ rest))
List-cases [] = inl refl
List-cases (x ∷ rest) = inr (x, rest, refl)

pub push_capped-last_n :
    {A : Type 0} (n : ℕ) (xs : List A) (x : A) → push_capped n n xs x ≡ last_n n (xs ++ x ∷ [])
unfolding push_capped
push_capped-last_n n xs x = ground (arith, last_n-short n (xs ++ x ∷ []))
