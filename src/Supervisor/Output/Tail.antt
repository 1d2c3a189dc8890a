-- ===== src/Supervisor/Output/Tail.antt =====
-- The tail of a service's output (src/drain.c): its last bytes, however it was read.
use ninit.Prelude.{
  ℕ, zero, suc, ◌+◌, ◌-◌, ◌≤◌, ◌≡◌, refl, ap, sym, ◌∙◌, List, [], ◌∷◌, ◌++◌, ltb, leb, length,
  length-append, length-drop, drop, if_keeps, arith,
}
use ninit.Supervisor.Output.{tail_cap, absorb_tail}

module _ {ℓ} {A : Type ℓ} where
  drop_same : (m n : ℕ) (xs : List A) → m ≡ n → drop m xs ≡ drop n xs
  drop_same m n xs e = ap (λ k. drop k xs) e

  drop_nil : (n : ℕ) → drop {A = A} n [] ≡ []
  drop_nil zero = refl
  drop_nil (suc n) = refl

  pub drop-append :
      (n : ℕ) (xs ys : List A) → drop n (xs ++ ys) ≡ drop n xs ++ drop (n - length xs) ys
  drop-append zero xs ys = ap (λ zs. xs ++ zs) (drop_same 0 (0 - length xs) ys (omega arith))
  drop-append (suc n) [] ys = drop_same (suc n) (suc n - 0) ys (omega arith)
  drop-append (suc n) (x ∷ xs) ys =
      drop-append n xs ys
      ∙ ap (λ zs. drop n xs ++ zs)
          (drop_same (n - length xs) (suc n - suc (length xs)) ys (omega arith))

  pub drop_all : (n : ℕ) (xs : List A) → length xs ≤ n → drop n xs ≡ []
  drop_all zero [] h = refl
  drop_all zero (x ∷ xs) h = absurd (omega arith)
  drop_all (suc n) [] h = refl
  drop_all (suc n) (x ∷ xs) h = drop_all n xs (omega arith)

  drop-drop : (a b c : ℕ) (xs : List A) → c ≡ b + a → drop a (drop b xs) ≡ drop c xs
  drop-drop a zero c xs e = drop_same a c xs (omega arith)
  drop-drop a (suc b) zero xs e = absurd (omega arith)
  drop-drop a (suc b) (suc c) [] e = drop_nil a
  drop-drop a (suc b) (suc c) (x ∷ xs) e = drop-drop a b c xs (omega arith)

  pub append_assoc : (xs ys zs : List A) → (xs ++ ys) ++ zs ≡ xs ++ (ys ++ zs)
  append_assoc [] ys zs = refl
  append_assoc (x ∷ xs) ys zs = ap (λ l. x ∷ l) (append_assoc xs ys zs)

  -- the last n elements
  abbrev pub last : ℕ → List A → List A
  last n xs = drop (length xs - n) xs

  -- what is kept of a part is enough for the whole
  last-append : (n : ℕ) (xs ys : List A) → last n (last n xs ++ ys) ≡ last n (xs ++ ys)
  last-append n xs ys =
      let k = length xs - n in
      let kept = length-drop k xs in
      let short = length-append (drop k xs) ys in
      let long = length-append xs ys in
      let m = length (drop k xs ++ ys) - n in
      let whole = length (xs ++ ys) - n in
      drop-append m (drop k xs) ys
      ∙ ap (λ zs. zs ++ drop (m - length (drop k xs)) ys) (drop-drop m k whole xs (omega arith))
      ∙ ap (λ zs. drop whole xs ++ zs)
          (drop_same (m - length (drop k xs)) (whole - length xs) ys (omega arith))
      ∙ sym (drop-append whole xs ys)

-- absorb_tail keeps the last TAIL_CAP bytes of what was kept and what is new.
pub absorb_tail-last :
    (tail buf : List ℕ)
    → length tail ≤ tail_cap
    → absorb_tail tail buf ≡ last tail_cap (tail ++ buf)
unfolding absorb_tail
absorb_tail-last tail buf h =
    let n = length (tail ++ buf) - tail_cap in
    let long = length-append tail buf in
    let parts = drop-append n tail buf in
    if_keeps (λ t. t ≡ last tail_cap (tail ++ buf)) (leb tail_cap (length buf)) _ _
      (λ e. sym (
        parts
        ∙ ap (λ zs. zs ++ drop (n - length tail) buf) (drop_all n tail (ground arith))
        ∙ drop_same (n - length tail) (length buf - tail_cap) buf (ground arith)))
      (λ e.
        if_keeps (λ t. t ≡ last tail_cap (tail ++ buf)) (ltb tail_cap (length tail + length buf)) _
          _
          (λ f. sym (
            parts
            ∙ ap (λ zs. zs ++ drop (n - length tail) buf)
                (drop_same n (length tail - (tail_cap - length buf)) tail (ground arith))
            ∙ ap (λ zs. drop (length tail - (tail_cap - length buf)) tail ++ zs)
                (drop_same (n - length tail) 0 buf (ground arith))))
          (λ f. sym (drop_same n 0 (tail ++ buf) (ground arith))))

-- The tail that is kept does not depend on how the output was cut into reads.
pub absorb_tail-append :
    (tail a b : List ℕ)
    → length tail ≤ tail_cap
    → absorb_tail (absorb_tail tail a) b ≡ absorb_tail tail (a ++ b)
absorb_tail-append tail a b h =
    let first = absorb_tail-last tail a h in
    let kept = length-drop (length (tail ++ a) - tail_cap) (tail ++ a) in
    let short : length (absorb_tail tail a) ≤ tail_cap =
      omega (arith, ap (λ (t : List ℕ). length t) first, kept) in
    absorb_tail-last (absorb_tail tail a) b short
    ∙ ap (λ t. last tail_cap (t ++ b)) first
    ∙ last-append tail_cap (tail ++ a) b
    ∙ ap (λ t. last tail_cap t) (append_assoc tail a b)
    ∙ sym (absorb_tail-last tail (a ++ b) h)
