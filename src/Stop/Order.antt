-- ===== src/Stop/Order.antt =====
-- The order of a shutdown (src/stop.c): no service is asked to stop before all that depends on it
-- has settled.
use ninit.Prelude.{
  ℕ, ◌+◌, ◌-◌, ◌*◌, ◌<◌, ◌≡◌, refl, ap, sym, ◌∙◌, Bool, true, false, not, ◌&&◌, ◌||◌, List, [], ◌∷◌,
  ◌==◌, ltb, leb, if◌then◌else◌, if_keeps, arith, update, update_self, update_ne, bit, sum,
  sum-change, sum-ext, count, tally, tally-update, tally-le,
}
use native.Mathlib.Decide.{ℕ_discrete}
use ninit.Graph.{Graph, IsWellFormed, dependents}
use ninit.Supervisor.Sys.{World, asked}
use ninit.Supervisor.Drain.{sigkill, signal_group}
use ninit.Supervisor.Ops.{svc_gone}
use ninit.Stop.{
  Prereqs, prereqs_of, Stage, waiting, termed, settled, killed, is_settled, is_waiting, is_termed,
  Stopping, drop_waits, ask_stop, press_stop, signal_one, settle_one,
}

-- the dependents of i that have not settled, with multiplicity
abbrev pub unsettled : Graph → (ℕ → Stage) → ℕ → ℕ
unsettled g st i = sum g.n_svc (λ d. bit (not (is_settled (st d))) * count d (dependents g i))

-- The prerequisite lists are the dependency lists turned around.
pub record IsTranspose (g : Graph) (p : Prereqs) : Type 0 where
  pub turned :
      (i d : ℕ) → i < g.n_svc → d < g.n_svc → count i (prereqs_of p d) ≡ count d (dependents g i)

-- A service waits for its dependents that have not settled, and has been asked to stop only if
-- there are none; `left` counts the services that have not settled.
pub record IsOrdered (g : Graph) (st : ℕ → Stage) (waitc : ℕ → ℕ) (left : ℕ) : Type 0 where
  pub waits : (i : ℕ) → i < g.n_svc → waitc i ≡ unsettled g st i
  pub begun : (i : ℕ) → i < g.n_svc → is_waiting (st i) ≡ false → waitc i ≡ 0
  pub lefts : left ≡ tally (λ x. not (is_settled x)) g.n_svc st

abbrev pub InOrder : Graph → Stopping → Type 0
InOrder g t = IsOrdered g t.st t.waitc t.left

-- The loop over the prerequisites takes off each as often as it occurs, and stops at 0.
drop_waits-count :
    (js : List ℕ) (waitc : ℕ → ℕ) (i : ℕ) → drop_waits js waitc i ≡ waitc i - count i js
unfolding drop_waits count
drop_waits-count [] waitc i = omega arith
drop_waits-count (j ∷ js) waitc i =
    drop_waits-count js (if waitc j == 0 then waitc else update waitc j (waitc j - 1)) i ∙ one
  where
    one :
        (if waitc j == 0 then waitc else update waitc j (waitc j - 1)) i - count i js
        ≡ waitc i - (bit (j == i) + count i js)
    one = elim (ℕ_discrete i j) [
      | yes e ↦ ground (arith, ap waitc e)
      | no other ↦ ground (arith, other)
    ]

-- Settling i takes i's part off what the others wait for.
unsettled-settle :
    (g : Graph) (st : ℕ → Stage) (i j : ℕ)
    → i < g.n_svc
    → is_settled (st i) ≡ false
    → unsettled g (update st i settled) j + count i (dependents g j) ≡ unsettled g st j
unsettled-settle g st i j l e =
    let change =
      sum-change g.n_svc i
        (λ d. bit (not (is_settled (update st i settled d))) * count d (dependents g j))
        (λ d. bit (not (is_settled (st d))) * count d (dependents g j)) l
        (λ d other.
          ap (λ x. bit (not (is_settled x)) * count d (dependents g j))
            (update_ne st i settled other)) in
    let now =
      ap (λ x. bit (not (is_settled x)) * count i (dependents g j)) (update_self st i settled) in
    let was = ap (λ x. bit (not x) * count i (dependents g j)) e in omega arith

-- A change of stage that settles nobody keeps the order, where nothing is waited for.
restage-IsOrdered :
    (g : Graph) (st : ℕ → Stage) (waitc : ℕ → ℕ) (left i : ℕ) (x : Stage)
    → i < g.n_svc
    → waitc i ≡ 0
    → is_settled (st i) ≡ false
    → is_settled x ≡ false
    → IsOrdered g st waitc left
    → IsOrdered g (update st i x) waitc left
restage-IsOrdered g st waitc left i x l z e f h = record {
  waits = λ j m.
      h.waits j m
      ∙ sum-ext g.n_svc _ _ (λ d k. ap (λ b. bit (not b) * count d (dependents g j)) (same d));
  begun = λ j m b. elim (ℕ_discrete j i) [
    | yes q ↦ ap waitc q ∙ z
    | no other ↦ h.begun j m (ap is_waiting (sym (update_ne st i x other)) ∙ b)
  ];
  lefts =
      let change = tally-update (λ y. not (is_settled y)) g.n_svc st i x l in
      omega (arith, h.lefts, change, ap (λ b. bit (not b)) e, ap (λ b. bit (not b)) f);
}
  where
    same : (d : ℕ) → is_settled (st d) ≡ is_settled (update st i x d)
    same d = elim (ℕ_discrete d i) [
      | yes q ↦
          ap (λ k. is_settled (st k)) q
          ∙ e
          ∙ sym f
          ∙ sym (ap is_settled (ap (update st i x) q ∙ update_self st i x))
      | no other ↦ ap is_settled (sym (update_ne st i x other))
    ]

termed_begun :
    (x : Stage) (b : Bool)
    → is_termed x && b ≡ true
    → (is_waiting x ≡ false) × (is_settled x ≡ false)
termed_begun termed b e = (refl, refl)
termed_begun waiting b e = absurd (ground arith)
termed_begun settled b e = absurd (ground arith)
termed_begun killed b e = absurd (ground arith)

module _ (g : Graph) (w : World) (p : Prereqs) where
  press_stop-InOrder :
      (now i : ℕ) (t : Stopping) → i < g.n_svc → InOrder g t → InOrder g (press_stop g w p now i t)
  unfolding press_stop
  press_stop-InOrder now i t l h =
      let late = is_termed (t.st i) && leb (t.stop_at i) now in
      let t' : Stopping =
        if late
        then record t { sys = signal_group w i sigkill t.sys; st = update t.st i killed }
        else t in
      let pressed : InOrder g t' =
        if_keeps (InOrder g) late _ _
          (λ e.
            let was = termed_begun (t.st i) (leb (t.stop_at i) now) e in
            restage-IsOrdered g t.st t.waitc t.left i killed l (h.begun i l was.0) was.1 refl h)
          (λ _. h) in
      if_keeps (InOrder g) (is_termed (t'.st i) && ltb (t'.stop_at i) t'.next) _ _ (λ _. pressed)
        (λ _. pressed)

  free :
      (x : Stage) (k : ℕ) → is_settled x || not (k == 0) ≡ false → (is_settled x ≡ false) × (k ≡ 0)
  free x k e = ground arith

  pub signal_one-InOrder :
      (now i : ℕ) (t : Stopping) → i < g.n_svc → InOrder g t → InOrder g (signal_one g w p now i t)
  unfolding signal_one ask_stop
  signal_one-InOrder now i t l h =
      let t' : Stopping = record t { sys = asked t.sys } in
      if_keeps (InOrder g) (is_settled (t.st i) || not (t.waitc i == 0)) _ _ (λ _. h)
        (λ e.
          let open_ = free (t.st i) (t.waitc i) e in
          if_keeps (InOrder g) (is_waiting (t.st i)) _ _
            (λ _.
              if_keeps (InOrder g) (svc_gone w i t.sys) _ _ (λ _. h)
                (λ _.
                  press_stop-InOrder now i (ask_stop g w p now i t') l
                    (restage-IsOrdered g t.st t.waitc t.left i termed l open_.1 open_.0 refl h)))
            (λ _. press_stop-InOrder now i t l h))

  pub settle_one-InOrder :
      (i : ℕ) (t : Stopping)
      → IsWellFormed g
      → IsTranspose g p
      → i < g.n_svc
      → InOrder g t
      → InOrder g (settle_one g w p i t)
  unfolding settle_one
  settle_one-InOrder i t wf tr l h =
      if_keeps (InOrder g) (is_settled (t.st i) || not (t.waitc i == 0)) _ _ (λ _. h)
        (λ e.
          let open_ = free (t.st i) (t.waitc i) e in
          if_keeps (InOrder g) (not (svc_gone w i t.sys)) _ _ (λ _. h)
            (λ _. record {
              waits = λ j m. omega (
                arith,
                drop_waits-count (prereqs_of p i) t.waitc j,
                tr.turned j i m l,
                h.waits j m,
                unsettled-settle g t.st i j l open_.0,
              );
              begun = λ j m b. elim (ℕ_discrete j i) [
                | yes q ↦
                    omega
                      (arith, drop_waits-count (prereqs_of p i) t.waitc j, ap t.waitc q, open_.1)
                | no other ↦ omega (
                  arith,
                  drop_waits-count (prereqs_of p i) t.waitc j,
                  h.begun j m (ap is_waiting (sym (update_ne t.st i settled other)) ∙ b),
                )
              ];
              lefts =
                  let change = tally-update (λ x. not (is_settled x)) g.n_svc t.st i settled l in
                  let few = tally-le (λ x. not (is_settled x)) g.n_svc t.st in
                  let small = wf.small in
                  omega (arith, h.lefts, change, ap (λ b. bit (not b)) open_.0);
            }))
