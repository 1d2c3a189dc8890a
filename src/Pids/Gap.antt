-- ===== src/Pids/Gap.antt =====
-- One step of the loop that closes a gap in the table of pids (src/pidmap.c).
use ninit.Prelude.{
  leb, ◌⊎◌, ℕ, ◌+◌, ◌≤◌, ◌<◌, ◌≡◌, ◌≢◌, inl, inr, sym, ap, subst, ◌∙◌, true, false, not, Bool-cases,
  ◌==◌, arith, bit, update, update_self, update_ne, tally-update,
}
use native.Mathlib.Decide.{ℕ_discrete}
use ninit.Pids.{Table, slots, pid_hash, next, leaves_gap}
use ninit.Pids.Distance.{
  dist, next-below, dist-below, dist_self, dist-next, dist_same, leaves_gap-path,
  leaves_gap-no_path, pid_hash-below,
}
use ninit.Pids.Find.{IsPassed, used, Has}

-- The loop's invariant: i is the gap, the slots after it up to j are used, and only the searches
-- for entries behind j pass the gap. e is a slot that is free throughout.
pub record IsGapped (t : Table) (i j e : ℕ) : Type 0 where
  pub gap_below : i ≤ t.mask
  pub at_below : j ≤ t.mask
  pub end_below : e ≤ t.mask
  pub gap : t.key i ≡ 0
  pub end : t.key e ≡ 0
  pub apart : e ≢ i
  pub looked_at : (s : ℕ) → s ≤ t.mask → s ≢ i → dist t.mask i s ≤ dist t.mask i j → t.key s ≢ 0
  pub only_gap :
      (x s : ℕ)
      → x ≤ t.mask
      → s ≤ t.mask
      → t.key x ≢ 0
      → IsPassed t.mask (t.key x) s x
      → t.key s ≡ 0
      → (s ≡ i) × (dist t.mask i j < dist t.mask i x)
  pub unique : (x y : ℕ) → x ≤ t.mask → y ≤ t.mask → t.key x ≢ 0 → t.key x ≡ t.key y → x ≡ y

-- a slot that comes after i and no later than x is passed by a search that passes i
on_path :
    (m h i j x : ℕ)
    → h ≤ m
    → i ≤ m
    → j ≤ m
    → x ≤ m
    → dist m h i < dist m h x
    → dist m i j < dist m i x
    → dist m h j < dist m h x
on_path m h i j x a b c d p q = ground (arith, p, q)

module _ (t : Table) (i j e : ℕ) (h : IsGapped t i j e) where
  abbrev pub onto : ℕ
  onto = next t.mask j

  -- the slot e is still ahead, so the next slot is one step on
  one_step : dist t.mask i onto ≡ dist t.mask i j + 1
  one_step =
      let far = dist-below t.mask i e h.gap_below h.end_below in
      dist-next t.mask i j h.gap_below h.at_below
        (ahead far (Bool-cases (leb (dist t.mask i e) (dist t.mask i j))))
    where
      ahead :
          dist t.mask i e ≤ t.mask
          → (leb (dist t.mask i e) (dist t.mask i j) ≡ true)
            ⊎ (leb (dist t.mask i e) (dist t.mask i j) ≡ false)
          → dist t.mask i j < t.mask
      ahead far (inl b) = absurd (h.looked_at e h.end_below h.apart (ground (arith, b)) h.end)
      ahead far (inr b) = ground (arith, b, far)

  pub onto_below : onto ≤ t.mask
  onto_below = next-below t.mask j h.at_below

  not_gap : onto ≢ i
  not_gap q = absurd (omega (arith, one_step, ap (dist t.mask i) q, dist_self t.mask i))

  -- what is behind j, but not the next slot, is behind that
  farther :
      (x : ℕ)
      → x ≤ t.mask
      → x ≢ onto
      → dist t.mask i j < dist t.mask i x
      → dist t.mask i onto < dist t.mask i x
  farther x l other behind = elim (ℕ_discrete (dist t.mask i x) (dist t.mask i onto)) [
    | yes q ↦ absurd (other (dist_same t.mask i x onto l onto_below h.gap_below q))
    | no q ↦ grind (arith, q, one_step, behind)
  ]

  -- a free slot ends the loop: every entry is found
  pub closed :
      t.key onto ≡ 0
      → (x s : ℕ) → x ≤ t.mask
      → s ≤ t.mask
      → t.key x ≢ 0
      → IsPassed t.mask (t.key x) s x
      → t.key s ≢ 0
  closed free x s l m nx p z =
      let (here, behind) = h.only_gap x s l m nx p z in
      let passed = subst (λ y. IsPassed t.mask (t.key x) y x) here p in
      let other : x ≢ onto = λ q. nx (ap t.key q ∙ free) in
      let far = farther x l other behind in
      let too =
        on_path t.mask (pid_hash t.mask (t.key x)) i onto x (pid_hash-below t.mask (t.key x))
          h.gap_below onto_below l passed far in
      not_gap (h.only_gap x onto l onto_below nx too free).0

  -- an entry that is not looked for from before the gap stays
  pub on_looked :
      t.key onto ≢ 0
      → leaves_gap i onto (pid_hash t.mask (t.key onto)) ≡ false
      → IsGapped t i onto e
  on_looked ne b = record {
    gap_below = h.gap_below;
    at_below = onto_below;
    end_below = h.end_below;
    gap = h.gap;
    end = h.end;
    apart = h.apart;
    looked_at = λ s l other near. elim (ℕ_discrete s onto) [
      | yes q ↦ λ z. ne (ap t.key (sym q) ∙ z)
      | no q ↦ h.looked_at s l other (elim (ℕ_discrete (dist t.mask i s) (dist t.mask i onto)) [
        | yes d ↦ absurd (q (dist_same t.mask i s onto l onto_below h.gap_below d))
        | no d ↦ grind (arith, d, one_step, near)
      ])
    ];
    only_gap = λ x s l m nx p z.
        let (here, behind) = h.only_gap x s l m nx p z in
        (
          here,
          elim (ℕ_discrete x onto) [
            | yes q ↦
                let passed : IsPassed t.mask (t.key onto) i onto =
                  subst (λ y. IsPassed t.mask (t.key y) i y) q
                    (subst (λ y. IsPassed t.mask (t.key x) y x) here p) in
                absurd (
                  omega (
                    arith,
                    passed,
                    leaves_gap-no_path t.mask i onto (pid_hash t.mask (t.key onto)) h.gap_below
                        onto_below (pid_hash-below t.mask (t.key onto)) b,
                  ))
            | no q ↦ farther x l q behind
          ],
        );
    unique = h.unique;
  }

  abbrev pub moved : Table
  moved = record t {
    key = update (update t.key i (t.key onto)) onto 0;
    val = update t.val i (t.val onto);
  }

  -- the keys after the move
  moved_gap : moved.key i ≡ t.key onto
  moved_gap =
      update_ne (update t.key i (t.key onto)) onto 0 (λ q. not_gap (sym q))
      ∙ update_self t.key i (t.key onto)

  moved_other : (x : ℕ) → x ≢ onto → x ≢ i → moved.key x ≡ t.key x
  moved_other x p q =
      update_ne (update t.key i (t.key onto)) onto 0 p ∙ update_ne t.key i (t.key onto) q

  moved_onto : moved.key onto ≡ 0
  moved_onto = update_self (update t.key i (t.key onto)) onto 0

  module _ (ne : t.key onto ≢ 0) (b : leaves_gap i onto (pid_hash t.mask (t.key onto)) ≡ true) where
    -- the free slots other than the new gap are those of before
    moved_free : (s : ℕ) → s ≢ onto → moved.key s ≡ 0 → (s ≢ i) × (t.key s ≡ 0)
    moved_free s other z =
        let not_i : s ≢ i = λ q. ne (sym moved_gap ∙ ap moved.key (sym q) ∙ z) in
        (not_i, sym (moved_other s other not_i) ∙ z)

    moved_passed :
        (x s : ℕ)
        → x ≤ t.mask
        → s ≤ t.mask
        → moved.key x ≢ 0
        → IsPassed t.mask (moved.key x) s x
        → moved.key s ≡ 0
        → s ≢ onto
        → s ≡ i
    moved_passed x s l m nx p z other =
        let zs = (moved_free s other z).1 in
        elim (ℕ_discrete x i) [
          | yes here ↦
              let passed : IsPassed t.mask (t.key onto) s i =
                subst (λ y. IsPassed t.mask (t.key onto) s y) here
                  (subst (λ k. IsPassed t.mask k s x) (ap moved.key here ∙ moved_gap) p) in
              let over =
                leaves_gap-path t.mask i onto (pid_hash t.mask (t.key onto)) h.gap_below onto_below
                  (pid_hash-below t.mask (t.key onto)) (λ q. not_gap (sym q)) b in
              (h.only_gap onto s onto_below m ne (omega (arith, passed, over)) zs).0
          | no there ↦
              let not_onto : x ≢ onto = λ q. nx (ap moved.key q ∙ moved_onto) in
              let k = moved_other x not_onto there in
              (h.only_gap x s l m (λ q. nx (k ∙ q)) (subst (λ y. IsPassed t.mask y s x) k p) zs).0
        ]

    moved-only_gap :
        (x s : ℕ)
        → x ≤ t.mask
        → s ≤ t.mask
        → moved.key x ≢ 0
        → IsPassed t.mask (moved.key x) s x
        → moved.key s ≡ 0
        → (s ≡ onto) × (dist t.mask onto onto < dist t.mask onto x)
    moved-only_gap x s l m nx p z =
        let not_onto : x ≢ onto = λ q. nx (ap moved.key q ∙ moved_onto) in
        let apart_x : dist t.mask onto x ≢ dist t.mask onto onto =
          λ q. not_onto (dist_same t.mask onto x onto l onto_below onto_below q) in
        (
          elim (ℕ_discrete s onto) [
            | yes q ↦ q
            | no other ↦ absurd ((moved_free s other z).0 (moved_passed x s l m nx p z other))
          ],
          grind (arith, apart_x, dist_self t.mask onto),
        )

    moved_unique :
        (x y : ℕ) → x ≤ t.mask → y ≤ t.mask → moved.key x ≢ 0 → moved.key x ≡ moved.key y → x ≡ y
    moved_unique x y l m nx q =
        let x_onto : x ≢ onto = λ r. nx (ap moved.key r ∙ moved_onto) in
        let y_onto : y ≢ onto = λ r. nx (q ∙ ap moved.key r ∙ moved_onto) in
        elim (ℕ_discrete x i) [
          | yes xi ↦ elim (ℕ_discrete y i) [
            | yes yi ↦ xi ∙ sym yi
            | no yn ↦ absurd (
                y_onto (
                  sym (
                    h.unique onto y onto_below m ne
                      (sym moved_gap ∙ sym (ap moved.key xi) ∙ q ∙ moved_other y y_onto yn))))
          ]
          | no xn ↦
              let kx = moved_other x x_onto xn in
              elim (ℕ_discrete y i) [
                | yes yi ↦ absurd (
                    x_onto (
                      h.unique x onto l onto_below (λ r. nx (kx ∙ r))
                        (sym kx ∙ q ∙ ap moved.key yi ∙ moved_gap)))
                | no yn ↦ h.unique x y l m (λ r. nx (kx ∙ r)) (sym kx ∙ q ∙ moved_other y y_onto yn)
              ]
        ]

    pub moved-IsGapped : IsGapped moved onto onto e
    moved-IsGapped =
        let not_onto : e ≢ onto = λ q. ne (ap t.key (sym q) ∙ h.end) in
        record {
          gap_below = onto_below;
          at_below = onto_below;
          end_below = h.end_below;
          gap = moved_onto;
          end = moved_other e not_onto h.apart ∙ h.end;
          apart = not_onto;
          looked_at = λ s l other near. absurd (
              other (
                dist_same t.mask onto s onto l onto_below onto_below
                  (omega (arith, near, dist_self t.mask onto))));
          only_gap = moved-only_gap;
          unique = moved_unique;
        }

    pub moved-Has : (p v : ℕ) → p ≢ 0 → Has t p v → Has moved p v
    moved-Has p v np a = elim (ℕ_discrete a.slot onto) [
      | yes q ↦ record {
        slot = i;
        below = h.gap_below;
        keyed = moved_gap ∙ ap t.key (sym q) ∙ a.keyed;
        valued = update_self t.val i (t.val onto) ∙ ap t.val (sym q) ∙ a.valued;
      }
      | no other ↦
          let not_i : a.slot ≢ i = λ q. np (sym a.keyed ∙ ap t.key q ∙ h.gap) in
          record {
            slot = a.slot;
            below = a.below;
            keyed = moved_other a.slot other not_i ∙ a.keyed;
            valued = update_ne t.val i (t.val onto) not_i ∙ a.valued;
          }
    ]

    pub moved_adds_none : (p v : ℕ) → p ≢ 0 → Has moved p v → Has t p v
    moved_adds_none p v np a =
        let not_onto : a.slot ≢ onto = λ q. np (sym a.keyed ∙ ap moved.key q ∙ moved_onto) in
        elim (ℕ_discrete a.slot i) [
          | yes q ↦ record {
            slot = onto;
            below = onto_below;
            keyed = sym moved_gap ∙ sym (ap moved.key q) ∙ a.keyed;
            valued = sym (update_self t.val i (t.val onto)) ∙ sym (ap moved.val q) ∙ a.valued;
          }
          | no not_i ↦ record {
            slot = a.slot;
            below = a.below;
            keyed = sym (moved_other a.slot not_onto not_i) ∙ a.keyed;
            valued = sym (update_ne t.val i (t.val onto) not_i) ∙ a.valued;
          }
        ]

    pub moved-used : used moved ≡ used t
    moved-used =
        let first =
          tally-update (λ k. not (k == 0)) (slots t) t.key i (t.key onto)
            (omega (arith, h.gap_below)) in
        let second =
          tally-update (λ k. not (k == 0)) (slots t) (update t.key i (t.key onto)) onto 0
            (omega (arith, onto_below)) in
        let kept : update t.key i (t.key onto) onto ≡ t.key onto =
          update_ne t.key i (t.key onto) not_gap in
        let one : bit (not (t.key onto == 0)) ≡ 1 = ground (arith, ne) in
        let one' : bit (not (update t.key i (t.key onto) onto == 0)) ≡ 1 =
          ap (λ k. bit (not (k == 0))) kept ∙ one in
        let zero_i : bit (not (t.key i == 0)) ≡ 0 = ap (λ k. bit (not (k == 0))) h.gap in
        omega (arith, first, second, one, one', zero_i)
