-- ===== src/Logging/Repeat/Marks.antt =====
-- What the log says, read back as the lines that were logged (src/logging.c), and how the array
-- `seen` has the last of them.
use ninit.Prelude.{
  ℕ, zero, suc, ◌+◌, ◌-◌, ◌%◌, ◌<◌, ◌≤◌, ◌≡◌, refl, ap, ◌∙◌, Option, none, some, List, [], ◌∷◌,
  ◌++◌, map, take, range, length, length-append, length-take, length-take_le, All, update,
  update_self, update_ne, sub32, inc32, arith, ltb, ◌==◌, if_keeps, true, false,
}
use ninit.Logging.{Ring, ring_get, segment, offset}
use ninit.Logging.Cells.{segment-le}
use ninit.Logging.Repeat.{
  Seen, Said, line, block, Repeats, Printer, seen_back, log_emit, log_again, log_head, level_of,
}

-- a logged line by its level, hash and length
pub record Mark : Type 0 where
  pub key : ℕ
  pub hash : ℕ
  pub len : ℕ

abbrev pub mark : Seen → Mark
mark e = record { key = e.key; hash = e.hash; len = e.len }

-- the messages themselves, the newest first
abbrev pub messages : List Said → List Mark
messages [] = []
messages (line e ∷ t) = mark e ∷ messages t
messages (block len n ∷ t) = messages t

abbrev pub copies : ℕ → List Mark → List Mark
copies zero b = []
copies (suc n) b = b ++ copies n b

-- The lines that what was said stands for: "last len messages repeated n times" stands for these
-- messages, n times.
abbrev pub expand : List Said → List Mark
expand [] = []
expand (line e ∷ t) = mark e ∷ expand t
expand (block len n ∷ t) = copies n (take len (messages t)) ++ expand t

abbrev pub nth : ℕ → List Mark → Option Mark
nth k [] = none
nth zero (x ∷ xs) = some x
nth (suc k) (x ∷ xs) = nth k xs

pub nth-some : (k : ℕ) (xs : List Mark) → k < length xs → (x : Mark) × (nth k xs ≡ some x)
nth-some k [] l = absurd (omega arith)
nth-some zero (x ∷ xs) l = (x, refl)
nth-some (suc k) (x ∷ xs) l = nth-some k xs (omega arith)

pub some_injective : {a b : Mark} → some a ≡ some b → a ≡ b
some_injective {a} q = ap (λ o. elim o [ some v ↦ v | none ↦ a ]) q

pub take_more :
    (k : ℕ) (xs : List Mark) (x : Mark)
    → nth k xs ≡ some x
    → take (suc k) xs ≡ take k xs ++ (x ∷ [])
take_more k [] x e = absurd (grind (arith, e))
take_more zero (y ∷ ys) x e = ap (λ z. z ∷ []) (some_injective e)
take_more (suc k) (y ∷ ys) x e = ap (λ t. y ∷ t) (take_more k ys x e)

pub nth-below : (k : ℕ) (xs : List Mark) (x : Mark) → nth k xs ≡ some x → k < length xs
nth-below k [] x e = absurd (grind (arith, e))
nth-below zero (y ∷ ys) x e = omega arith
nth-below (suc k) (y ∷ ys) x e = omega (arith, nth-below k ys x e)

-- A line fits its buffer again, with any prefix.
abbrev pub Short : Mark → Type 0
Short m = (1 ≤ m.len) × (m.len ≤ 959)

-- the array `seen` has the last messages, by their distance
pub record IsTracked (s : Repeats) : Type 0 where
  pub size : s.seen_n ≡ length (messages s.said)
  pub tracks :
      (k : ℕ) (m : Mark)
      → k < 32
      → nth k (messages s.said) ≡ some m
      → mark (seen_back (k + 1) s) ≡ m
  pub lens : All Short (messages s.said)

range_size : (b : ℕ → ℕ) (a n : ℕ) → length (map b (range a n)) ≡ n
range_size b a zero = refl
range_size b a (suc n) = omega (arith, range_size b (a + 1) n)

pub length-ring_get : (r : Ring) (at n : ℕ) → length (ring_get r at n) ≡ n
unfolding ring_get
length-ring_get r at n =
    let k = segment at n in
    omega (
      arith,
      segment-le at n,
      length-append (map r.bytes (range (offset at) k)) (map r.bytes (range 0 (n - k))),
      range_size r.bytes (offset at) k,
      range_size r.bytes 0 (n - k),
    )

-- The array after one message more.
newest :
    (s : Repeats) (e : Seen)
    → IsTracked s
    → s.seen_n + 1 < 4294967296
    → (k : ℕ) (m : Mark) → k < 32
    → nth k (mark e ∷ messages s.said) ≡ some m
    → mark (update s.seen (s.seen_n % 32) e (sub32 (inc32 s.seen_n) (k + 1) % 32)) ≡ m
unfolding seen_back
newest s e t few zero m l q =
    let same : sub32 (inc32 s.seen_n) 1 % 32 ≡ s.seen_n % 32 = omega (arith, few) in
    ap (λ i. mark (update s.seen (s.seen_n % 32) e i)) same
    ∙ ap mark (update_self s.seen (s.seen_n % 32) e)
    ∙ some_injective q
newest s e t few (suc k) m l q =
    let below : k < s.seen_n = omega (arith, nth-below k (messages s.said) m q, t.size) in
    let before : sub32 (inc32 s.seen_n) (suc k + 1) % 32 ≡ sub32 s.seen_n (k + 1) % 32 =
      omega (arith, few, below) in
    ap mark (
      update_ne s.seen (s.seen_n % 32) e (λ r. absurd (omega (arith, few, below, l, r, before)))
      ∙ ap s.seen before)
    ∙ t.tracks k m (omega arith) q

module _ (p : Printer) where
  -- log_emit: one message more.
  pub log_emit-IsTracked :
      (key ms : ℕ) (head body : List ℕ) (h : ℕ) (s : Repeats)
      → IsTracked s
      → s.seen_n + 1 < 4294967296
      → 1 ≤ length body
      → length body ≤ 959
      → IsTracked (log_emit p key ms head body h s)
  unfolding log_emit seen_back
  log_emit-IsTracked key ms head body h s t few some_bytes short = record {
    size = omega (arith, t.size, few);
    tracks = newest s _ t few;
    lens = ((omega (arith, short, some_bytes), omega (arith, short)), t.lens);
  }

  pub length-log_head : (level ms : ℕ) → length (log_head p level ms) ≤ 64
  unfolding log_head
  length-log_head level ms =
      if_keeps (λ h. length h ≤ 64) (level == 1) [] _ (λ _. omega arith)
        (λ _. length-take_le 64 (p.plain level ms))

  -- the body that log_again reads
  abbrev pub again_body : Seen → Repeats → List ℕ
  again_body e s = take (e.len - 1) (ring_get s.log.ring e.at e.len) ++ (10 ∷ [])

  pub length-again_body : (e : Seen) (s : Repeats) → 1 ≤ e.len → length (again_body e s) ≡ e.len
  length-again_body e s l =
      let whole = length-ring_get s.log.ring e.at e.len in
      omega (
        arith,
        l,
        length-append (take (e.len - 1) (ring_get s.log.ring e.at e.len)) (10 ∷ []),
        length-take (e.len - 1) (ring_get s.log.ring e.at e.len) (omega (arith, whole)),
      )

  pub log_again-log_emit :
      (e : Seen) (ms : ℕ) (s : Repeats)
      → Short (mark e)
      → log_again p e ms s
        ≡ log_emit p e.key ms (log_head p (level_of e.key) ms) (again_body e s) e.hash s
  unfolding log_again
  log_again-log_emit e ms s short =
      let head = length-log_head (level_of e.key) ms in
      let room : ltb (1023 - length (log_head p (level_of e.key) ms)) e.len ≡ false =
        ground (arith, head, short) in
      let same : (e.len == e.len) ≡ true = ground arith in rw room (rw same refl)
