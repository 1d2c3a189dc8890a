-- ===== src/Graph.antt =====
-- The dependency graph that pid 1 boots from (src/ngraph.h): the service and policy records and
-- the reverse dependency arrays, as the accessors of the header read them from the image.
use ninit.Prelude.{
  ℕ, ◌+◌, ◌-◌, ◌*◌, ◌≤◌, ◌<◌, ◌≡◌, Bool, List, map, ◌==◌, if◌then◌else◌, range, sum, count, All,
}

-- NG_TYPE_*
pub data Kind : Type 0 where
  oneshot daemon target : Kind

-- NG_ONFAIL_*, bits 1:0 of `flags`
pub data OnFail : Type 0 where
  warn stop shell : OnFail

-- struct ng_svc, with `flags` taken apart and without the offsets into the blob
pub record Svc : Type 0 where
  pub unmet : ℕ
  pub kind : Kind
  pub onfail : OnFail
  pub restart : Bool
  pub notify_fd : ℕ

-- struct ng_pol, with the one flag of `pflags`
pub record Pol : Type 0 where
  pub start_ms : ℕ
  pub stop_ms : ℕ
  pub retry_ms : ℕ
  pub start_tries : ℕ
  pub order_only : Bool

-- the image: the counts of the header and the tables that it points to
pub record Graph : Type 0 where
  pub n_svc : ℕ
  pub n_roots : ℕ
  pub svcs : ℕ → Svc
  pub pols : ℕ → Pol
  pub rdep_off : ℕ → ℕ
  pub rdep_idx : ℕ → ℕ

abbrev pub is_target : Kind → Bool
is_target target = Bool.true
is_target _ = Bool.false

abbrev pub is_daemon : Kind → Bool
is_daemon daemon = Bool.true
is_daemon _ = Bool.false

-- A policy field of 0 means the default.
unfoldable pub start_ms : Graph → ℕ → ℕ
start_ms g i = let v = (g.pols i).start_ms in if v == 0 then 90000 else v

unfoldable pub stop_ms : Graph → ℕ → ℕ
stop_ms g i = let v = (g.pols i).stop_ms in if v == 0 then 5000 else v

unfoldable pub start_tries : Graph → ℕ → ℕ
start_tries g i =
    let v = (g.pols i).start_tries in
    if v == 0 then if is_daemon (g.svcs i).kind then 2 else 1 else v

abbrev pub order_only : Graph → ℕ → Bool
order_only g i = (g.pols i).order_only

abbrev pub targets : Graph → ℕ → Bool
targets g i = is_target (g.svcs i).kind

-- ridx[k] for k = roff[j]; k < roff[j + 1]: the services that depend on j, in the loops' order
abbrev pub dependents : Graph → ℕ → List ℕ
dependents g j = map g.rdep_idx (range (g.rdep_off j) (g.rdep_off (j + 1) - g.rdep_off j))

-- the prerequisites of d among the services whose flag in `w` is 1, with multiplicity
abbrev pub prereqs : Graph → (ℕ → ℕ) → ℕ → ℕ
prereqs g w d = sum g.n_svc (λ i. w i * count d (dependents g i))

-- What ng_verify has checked of an image that is loaded, as far as the supervisor relies on it.
pub record IsWellFormed (g : Graph) : Type 0 where
  pub small : g.n_svc ≤ 8192
  pub forward : (j : ℕ) → j < g.n_svc → All (λ d. (j < d) × (d < g.n_svc)) (dependents g j)
  pub degrees : (d : ℕ) → d < g.n_svc → (g.svcs d).unmet ≡ prereqs g (λ _. 1) d
  pub degree_small : (d : ℕ) → d < g.n_svc → (g.svcs d).unmet < g.n_svc
  pub roots : g.n_roots ≤ g.n_svc
  pub root_free : (i : ℕ) → i < g.n_roots → (g.svcs i).unmet ≡ 0
