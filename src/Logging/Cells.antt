-- ===== src/Logging/Cells.antt =====
-- How positions of the ring and cells of its array correspond (src/logging.c).
use ninit.Prelude.{
  ℕ, zero, suc, ◌+◌, ◌-◌, ◌<◌, ◌≤◌, ◌≡◌, refl, sym, ap, ◌∙◌, subst, ◌⊎◌, inl, inr, if_keeps,
  Bool-cases, List, [], ◌∷◌, ◌++◌, take, take-append-drop, length-take, length-drop, drop, map,
  length, range, update, update_self, update_ne, arith, ltb,
}
use ninit.Logging.{Ring, copy_to, offset, segment, ring_get, add64}

pub add64-small : (x n : ℕ) → x + n < 18446744073709551616 → add64 x n ≡ x + n
add64-small x n l = omega arith

offset_plus : (at i : ℕ) → offset at + i < 131072 → offset (at + i) ≡ offset at + i
offset_plus at i l = omega arith

offset_wraps :
    (at i : ℕ) → 131072 ≤ offset at + i → i < 131072 → offset (at + i) + 131072 ≡ offset at + i
offset_wraps at i l m = omega arith

offset_apart : (p q : ℕ) → p < q → q < p + 131072 → ¬ (offset p ≡ offset q)
offset_apart p q l m e = absurd (omega arith)

pub segment-le : (at n : ℕ) → (segment at n ≤ n) × (offset at + segment at n ≤ 131072)
segment-le at n = (ground arith, ground arith)

pub segment-positive : (at n : ℕ) → 0 < n → 0 < segment at n
segment-positive at n l =
    if_keeps (λ k. 0 < k) (ltb n (131072 - offset at)) _ _ (λ _. l) (λ _. omega arith)

-- Only the end of the array cuts a segment.
pub segment-rest : (at n : ℕ) → segment at n < n → offset at + segment at n ≡ 131072
segment-rest at n =
    if_keeps (λ k. k < n → offset at + k ≡ 131072) (ltb n (131072 - offset at)) _ _
      (λ _ l. absurd (omega arith)) (λ _ l. omega arith)

-- A copy leaves the cells outside of it.
copy_to-outside :
    (s : List ℕ) (b : ℕ → ℕ) (off j : ℕ)
    → (j < off) ⊎ (off + length s ≤ j)
    → copy_to b off s j ≡ b j
unfolding copy_to
copy_to-outside [] b off j h = refl
copy_to-outside (x ∷ xs) b off j h =
    copy_to-outside xs (update b off x) (off + 1) j (grind arith)
    ∙ update_ne b off x (λ e. grind arith)

-- A copy is read back.
map-copy_to : (s : List ℕ) (b : ℕ → ℕ) (off : ℕ) → map (copy_to b off s) (range off (length s)) ≡ s
unfolding copy_to
map-copy_to [] b off = refl
map-copy_to (x ∷ xs) b off =
    rw
      (
        copy_to-outside xs (update b off x) (off + 1) off (inl (omega arith)),
        update_self b off x,
        map-copy_to xs (update b off x) (off + 1),
      )
      refl

pub map-agree :
    (f g : ℕ → ℕ) (a b n : ℕ)
    → ((i : ℕ) → i < n → f (a + i) ≡ g (b + i))
    → map f (range a n) ≡ map g (range b n)
map-agree f g a b zero h = refl
map-agree f g a b (suc n) h =
    let here : f a ≡ g b = grind (arith, h 0 (omega arith)) in
    rw (here, map-agree f g (a + 1) (b + 1) n (λ i l. grind (arith, h (i + 1) (omega arith))))

map-append :
    (f : ℕ → ℕ) (a m n : ℕ) → map f (range a (m + n)) ≡ map f (range a m) ++ map f (range (a + m) n)
map-append f a zero n =
    let none_before : 0 + n ≡ n = omega arith in
    let here : a + 0 ≡ a = omega arith in rw (none_before, here) refl
map-append f a (suc m) n =
    let one_more : suc m + n ≡ suc (m + n) = omega arith in
    let next : a + suc m ≡ a + 1 + m = omega arith in
    rw (one_more, next, map-append f (a + 1) m n) refl

-- the n bytes at the positions from at on
abbrev pub view : (ℕ → ℕ) → ℕ → ℕ → List ℕ
view b at n = map (λ p. b (offset p)) (range at n)

pub view-append :
    (b : ℕ → ℕ) (at k n : ℕ) → k ≤ n → view b at n ≡ view b at k ++ view b (at + k) (n - k)
view-append b at k n l =
    let whole : n ≡ k + (n - k) = omega arith in
    ap (view b at) whole ∙ map-append (λ p. b (offset p)) at k (n - k)

-- Positions in one stretch of the array are its cells in a row.
pub view-cells :
    (b : ℕ → ℕ) (at k : ℕ) → offset at + k ≤ 131072 → map b (range (offset at) k) ≡ view b at k
view-cells b at k l =
    map-agree b (λ p. b (offset p)) (offset at) at k
      (λ i m. ap b (sym (offset_plus at i (omega arith))))

pub drop-view : (b : ℕ → ℕ) (at k n : ℕ) → k ≤ n → drop k (view b at n) ≡ view b (at + k) (n - k)
drop-view b at zero n l =
    let here : at ≡ at + 0 = omega arith in
    let all : n ≡ n - 0 = omega arith in ap (λ a. view b a n) here ∙ ap (view b (at + 0)) all
drop-view b at (suc k) zero l = absurd (omega arith)
drop-view b at (suc k) (suc n) l =
    let here : at + 1 + k ≡ at + suc k = omega arith in
    let left : n - k ≡ suc n - suc k = omega arith in
    drop-view b (at + 1) k n (omega arith)
    ∙ ap (λ a. view b a (n - k)) here
    ∙ ap (view b (at + suc k)) left

pub take-view : (b : ℕ → ℕ) (at k n : ℕ) → k ≤ n → take k (view b at n) ≡ view b at k
take-view b at zero n l = refl
take-view b at (suc k) zero l = absurd (omega arith)
take-view b at (suc k) (suc n) l = rw (take-view b (at + 1) k n (omega arith))

pub length-view : (b : ℕ → ℕ) (at n : ℕ) → length (view b at n) ≡ n
length-view b at zero = refl
length-view b at (suc n) = omega (arith, length-view b (at + 1) n)

pub ring_get-view : (r : Ring) (at n : ℕ) → n ≤ 131072 → ring_get r at n ≡ view r.bytes at n
unfolding ring_get
ring_get-view r at n l =
    let le = segment-le at n in
    let k = segment at n in
    let second =
      map-agree r.bytes (λ p. r.bytes (offset p)) 0 (at + k) (n - k)
        (λ i m. ap r.bytes (omega (arith, le, m, segment-rest at n (omega arith), l))) in
    rw (view-cells r.bytes at k le.1, second) (sym (view-append r.bytes at k n le.0))

-- Where the new text wraps, it ends before the bytes that stay.
wrapped_end :
    (head p n k : ℕ)
    → p < head
    → head + n ≤ p + 131072
    → k ≤ n
    → (k < n → offset head + k ≡ 131072)
    → n - k ≤ offset p
wrapped_end head p n k l m le full = elim (Bool-cases (ltb k n)) [
  | inl e ↦ let at_end = full (grind (arith, e)) in omega (arith, l, m, at_end)
  | inr e ↦ grind (arith, e)
]

wrapped_room : (off n k : ℕ) → n ≤ 131072 → k ≤ n → (k < n → off + k ≡ 131072) → n - k ≤ off
wrapped_room off n k fits le full = elim (Bool-cases (ltb k n)) [
  | inl e ↦ let at_end = full (grind (arith, e)) in omega (arith, fits, at_end)
  | inr e ↦ grind (arith, e)
]

-- the array after ring_put's two copies
abbrev pub written : (ℕ → ℕ) → ℕ → List ℕ → ℕ → ℕ
written b head s =
    let k = segment head (length s) in copy_to (copy_to b (offset head) (take k s)) 0 (drop k s)

module _ (b : ℕ → ℕ) (head : ℕ) (s : List ℕ) (fits : length s ≤ 131072) where
  outside :
      (p k : ℕ)
      → p < head
      → head + length s ≤ p + 131072
      → k ≤ length s
      → offset head + k ≤ 131072
      → length (take k s) ≡ k
      → (offset p < offset head) ⊎ (offset head + length (take k s) ≤ offset p)
  outside p k l m le end few = elim (Bool-cases (ltb (offset p) (offset head))) [
    | inl e ↦ inl (grind (arith, e))
    | inr e ↦
        inr
          (let le2 : offset head ≤ offset p = grind (arith, e) in omega (arith, le2, l, m, le, few))
  ]

  -- Positions that the new text does not overtake keep their bytes.
  pub written-before :
      (p : ℕ) → p < head → head + length s ≤ p + 131072 → written b head s (offset p) ≡ b (offset p)
  written-before p l m =
      let le = segment-le head (length s) in
      let few = length-take (segment head (length s)) s le.0 in
      let end =
        wrapped_end head p (length s) (segment head (length s)) l m le.0
          (segment-rest head (length s)) in
      copy_to-outside (drop (segment head (length s)) s) _ 0 (offset p)
        (inr (omega (arith, length-drop (segment head (length s)) s, end)))
      ∙ copy_to-outside (take (segment head (length s)) s) b (offset head) (offset p)
          (outside p (segment head (length s)) l m le.0 le.1 few)

  -- The new text is read back.
  pub view-written : view (written b head s) head (length s) ≡ s
  unfolding ring_get
  view-written =
      let k = segment head (length s) in
      let le = segment-le head (length s) in
      let inner = copy_to b (offset head) (take k s) in
      let clear : length s - k ≤ offset head =
        wrapped_room (offset head) (length s) k fits le.0 (segment-rest head (length s)) in
      let first =
        map-agree (written b head s) inner (offset head) (offset head) k (λ i m.
          copy_to-outside (drop k s) inner 0 (offset head + i)
            (inr (omega (arith, length-drop k s, clear))))
        ∙ subst (λ c. map inner (range (offset head) c) ≡ take k s) (length-take k s le.0)
            (map-copy_to (take k s) b (offset head)) in
      let second =
        subst (λ c. map (written b head s) (range 0 c) ≡ drop k s) (length-drop k s)
          (map-copy_to (drop k s) inner 0) in
      let r : Ring = record { bytes = written b head s; head = head; tail = head } in
      sym (ring_get-view r head (length s) fits) ∙ rw (first, second) (take-append-drop k s)
