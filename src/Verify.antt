-- ===== src/Verify.antt =====
-- ng_verify (src/ngraph.c): what is checked of an image before pid 1 boots from it. What the checks
-- on the strings of the blob and the checksum find is a part of the image here.
pub mod Accepted
use ninit.Prelude.{
  ℕ, zero, suc, ◌+◌, ◌-◌, ◌*◌, ◌/◌, ◌%◌, Bool, true, false, not, ◌&&◌, ◌||◌, List, [], ◌∷◌, Option,
  none, some, ◌==◌, ltb, leb, if◌then◌else◌, range, update, inc32,
}
use ninit.Graph.{Kind, oneshot, daemon, target, OnFail, warn, stop, shell, Svc, Pol, Graph}

-- the messages that ng_verify returns
pub data Problem : Type 0 where
  shorter_than_header not_aligned bad_magic version_mismatch length_mismatch : Problem
  too_many_services too_many_roots reserved_not_zero edges_without_services : Problem
  too_many_edges svc_table_bounds rdep_off_bounds rdep_idx_bounds blob_bounds : Problem
  pol_table_bounds sections_overlap crc_mismatch blob_not_terminated : Problem
  rdep_start rdep_end not_monotonic index_range edge_backwards not_sorted : Problem
  n_desc_dependent unmet_degree n_desc_follow n_desc_direct notify_range : Problem
  notify_daemon_only unknown_type unknown_onfail unknown_flags warn_dependents : Problem
  restart_daemon_only name_range name_text root_unmet non_root_free target_script : Problem
  script_range script_text timeout_range tries_range unknown_pflags : Problem
  interp_and_direct target_interp target_direct exec_text exec_off_set : Problem
  unmet_mismatch shared_name : Problem

-- struct ng_svc and struct ng_pol, as they are stored
pub record RawSvc : Type 0 where
  pub unmet : ℕ
  pub type : ℕ
  pub flags : ℕ
  pub n_desc : ℕ
  pub notify_fd : ℕ
  pub script_off : ℕ
  pub name_off : ℕ

pub record RawPol : Type 0 where
  pub start_ms : ℕ
  pub stop_ms : ℕ
  pub retry_ms : ℕ
  pub start_tries : ℕ
  pub pflags : ℕ
  pub exec_off : ℕ

-- struct ng_hdr, the tables that it points to, and what the string checks would find
pub record Image : Type 0 where
  pub len : ℕ
  pub aligned : Bool
  pub magic_ok : Bool
  pub version : ℕ
  pub crc_ok : Bool
  pub total_len : ℕ
  pub n_svc : ℕ
  pub n_roots : ℕ
  pub n_edges : ℕ
  pub blob_len : ℕ
  pub off_svc : ℕ
  pub off_rdep_off : ℕ
  pub off_rdep_idx : ℕ
  pub off_blob : ℕ
  pub off_pol : ℕ
  pub reserved : ℕ
  pub blob_ends : Bool
  pub svcs : ℕ → RawSvc
  pub pols : ℕ → RawPol
  pub roff : ℕ → ℕ
  pub ridx : ℕ → ℕ
  pub name_bad : ℕ → Bool
  pub script_bad : ℕ → Bool
  pub exec_bad : ℕ → Bool
  pub names_clash : Bool

-- `if(cond) { return problem; }`
unfoldable pub reject : Bool → Problem → Option Problem → Option Problem
reject true p rest = some p
reject false p rest = rest

-- the first of two checks that fails
unfoldable pub or_else : Option Problem → Option Problem → Option Problem
or_else none q = q
or_else (some p) q = some p

-- the first check that fails, over a loop's indices
unfoldable pub first : (ℕ → Option Problem) → List ℕ → Option Problem
first check [] = none
first check (i ∷ is) = or_else (check i) (first check is)

-- range_ok: the alignments are powers of two
unfoldable pub range_ok : ℕ → ℕ → ℕ → ℕ → Bool
range_ok off bytes total align = off % align == 0 && leb (off + bytes) total

-- struct ng_span
pub record Span : Type 0 where
  pub lo : ℕ
  pub hi : ℕ

-- the inner loop of spans_disjoint
unfoldable pub span_meets : Span → List Span → Bool
span_meets a [] = false
span_meets a (b ∷ bs) = (not (b.lo == b.hi) && ltb a.lo b.hi && ltb b.lo a.hi) || span_meets a bs

unfoldable pub spans_disjoint : List Span → Bool
spans_disjoint [] = true
spans_disjoint (a ∷ rest) = (a.lo == a.hi || not (span_meets a rest)) && spans_disjoint rest

-- the checks of ng_verify before it looks into the tables
module _ (img : Image) where
  abbrev pub spans : List Span
  spans =
      record { lo = 0; hi = 64 }
      ∷ record { lo = img.off_svc; hi = img.off_svc + img.n_svc * 16 }
      ∷ record { lo = img.off_rdep_off; hi = img.off_rdep_off + (img.n_svc + 1) * 4 }
      ∷ record { lo = img.off_rdep_idx; hi = img.off_rdep_idx + img.n_edges * 4 }
      ∷ record { lo = img.off_pol; hi = img.off_pol + img.n_svc * 16 }
      ∷ record { lo = img.off_blob; hi = img.off_blob + img.blob_len }
      ∷ []

  unfoldable pub header_problem : Option Problem
  unfolding range_ok spans_disjoint
  header_problem =
      let n = img.n_svc in
      let m = img.n_edges in
      let total = img.total_len in
      reject (ltb img.len 64) shorter_than_header (
        reject (not img.aligned) not_aligned (
          reject (not img.magic_ok) bad_magic (
            reject (not (img.version == 9)) version_mismatch (
              reject (not (total == img.len)) length_mismatch (
                reject (ltb 8192 n) too_many_services (
                  reject (ltb n img.n_roots) too_many_roots (
                    reject (not (img.reserved == 0)) reserved_not_zero (
                      reject (n == 0 && not (m == 0)) edges_without_services
                        (reject (ltb (n * (n - 1) / 2) m) too_many_edges none)))))))))

  unfoldable pub section_problem : Option Problem
  unfolding range_ok spans_disjoint
  section_problem =
      let n = img.n_svc in
      let m = img.n_edges in
      let total = img.total_len in
      reject (not (range_ok img.off_svc (n * 16) total 8)) svc_table_bounds (
        reject (not (range_ok img.off_rdep_off ((n + 1) * 4) total 4)) rdep_off_bounds (
          reject (not (range_ok img.off_rdep_idx (m * 4) total 4)) rdep_idx_bounds (
            reject (not (range_ok img.off_blob img.blob_len total 1)) blob_bounds (
              reject (not (range_ok img.off_pol (n * 16) total 4)) pol_table_bounds (
                reject (not (spans_disjoint spans)) sections_overlap (
                  reject (not img.crc_ok) crc_mismatch (
                    reject (not (img.blob_len == 0) && not img.blob_ends) blob_not_terminated (
                      reject (not (n == 0) && not (img.roff 0 == 0)) rdep_start
                        (reject (not (img.roff n == m)) rdep_end none)))))))))

  -- the body of the loop over the dependents of service i
  unfoldable pub edge_problem : ℕ → ℕ → Option Problem
  edge_problem i j =
      let d = img.ridx j in
      reject (leb img.n_svc d) index_range (
        reject (leb d i) edge_backwards (
          reject (ltb (img.roff i) j && leb d (img.ridx (j - 1))) not_sorted
            (reject (ltb (img.svcs i).n_desc ((img.svcs d).n_desc + 1)) n_desc_dependent none)))

  unfoldable pub degree_problem : ℕ → Option Problem
  degree_problem i =
      let s = img.svcs i in
      reject (leb img.n_svc s.unmet) unmet_degree (
        reject (ltb (img.n_svc - 1 - i) s.n_desc) n_desc_follow
          (reject (ltb s.n_desc (img.roff (i + 1) - img.roff i)) n_desc_direct none))

  unfoldable pub flags_problem : ℕ → Option Problem
  flags_problem i =
      let s = img.svcs i in
      let notifies = not (s.notify_fd == 0) in
      reject (notifies && (ltb s.notify_fd 3 || ltb 255 s.notify_fd)) notify_range (
        reject (notifies && not (s.type == 1)) notify_daemon_only (
          reject (ltb 2 s.type) unknown_type (
            reject (ltb 2 (s.flags % 4)) unknown_onfail (
              reject (not (s.flags / 32 == 0)) unknown_flags (
                reject (s.flags % 4 == 0 && not (img.roff i == img.roff (i + 1))) warn_dependents (
                  reject (not (s.flags / 4 % 2 == 0) && not (s.type == 1)) restart_daemon_only
                    none))))))

  unfoldable pub root_problem : ℕ → Option Problem
  root_problem i =
      let s = img.svcs i in
      reject (leb img.blob_len s.name_off) name_range (
        reject (img.name_bad i) name_text (
          reject (ltb i img.n_roots && not (s.unmet == 0)) root_unmet
            (reject (leb img.n_roots i && s.unmet == 0) non_root_free none)))

  abbrev pub no_offset : ℕ
  no_offset = 4294967295

  unfoldable pub script_problem : ℕ → Option Problem
  script_problem i =
      let s = img.svcs i in
      if s.type == 2
      then reject (not (s.script_off == no_offset)) target_script none
      else reject (leb img.blob_len s.script_off) script_range
          (reject (img.script_bad i) script_text none)

  unfoldable pub policy_problem : ℕ → Option Problem
  policy_problem i =
      let s = img.svcs i in
      let p = img.pols i in
      let interp = not (s.flags / 8 % 2 == 0) in
      let direct = not (s.flags / 16 % 2 == 0) in
      reject (ltb 86400000 p.start_ms || ltb 86400000 p.stop_ms) timeout_range (
        reject (ltb 250 p.start_tries) tries_range (
          reject (not (p.pflags / 2 == 0)) unknown_pflags (
            reject (interp && direct) interp_and_direct (
              if interp
              then reject (s.type == 2) target_interp (reject (img.exec_bad i) exec_text none)
              else if direct
              then reject (s.type == 2) target_direct (reject (img.exec_bad i) exec_text none)
              else reject (not (p.exec_off == no_offset)) exec_off_set none))))

  -- the body of the loop over the services
  unfoldable pub svc_problem : ℕ → Option Problem
  unfolding degree_problem flags_problem root_problem script_problem policy_problem
  svc_problem i =
      let from = img.roff i in
      let to = img.roff (i + 1) in
      reject (ltb to from || ltb img.n_edges to) not_monotonic (
        or_else (first (edge_problem i) (range from (to - from))) (
          or_else (degree_problem i) (
            or_else (flags_problem i)
              (or_else (root_problem i) (or_else (script_problem i) (policy_problem i))))))

  -- scratch[ridx[i]]++, over the edges that are left
  unfoldable pub in_degrees : List ℕ → (ℕ → ℕ) → ℕ → ℕ
  in_degrees [] scratch = scratch
  in_degrees (k ∷ ks) scratch =
      in_degrees ks (update scratch (img.ridx k) (inc32 (scratch (img.ridx k))))

  -- the loops over the in-degrees and over the names
  unfoldable pub table_problem : Option Problem
  unfolding in_degrees
  table_problem =
      let scratch = in_degrees (range 0 img.n_edges) (λ d. 0) in
      if img.n_svc == 0
      then none
      else or_else
          (first (λ i. reject (not ((img.svcs i).unmet == scratch i)) unmet_mismatch none)
            (range 0 img.n_svc))
          (reject img.names_clash shared_name none)

  unfoldable pub ng_verify : Option Problem
  ng_verify =
      or_else header_problem
        (or_else section_problem (or_else (first svc_problem (range 0 img.n_svc)) table_problem))

  -- the graph that the accessors of src/ngraph.h read from the image
  unfoldable pub graph_of : Graph
  graph_of = record {
    n_svc = img.n_svc;
    n_roots = img.n_roots;
    svcs = λ i.
        let s = img.svcs i in
        record {
          unmet = s.unmet;
          kind = if s.type == 0 then oneshot else if s.type == 1 then daemon else target;
          onfail = if s.flags % 4 == 0 then warn else if s.flags % 4 == 2 then shell else stop;
          restart = not (s.flags / 4 % 2 == 0);
          notify_fd = s.notify_fd;
        };
    pols = λ i.
        let p = img.pols i in
        record {
          start_ms = p.start_ms;
          stop_ms = p.stop_ms;
          retry_ms = p.retry_ms;
          start_tries = p.start_tries;
          order_only = not (p.pflags % 2 == 0);
        };
    rdep_off = img.roff;
    rdep_idx = img.ridx;
  }
