-- ===== src/Pids.antt =====
-- The table of pids (src/pidmap.c), which start_graph allocates (src/ninit.c): open addressing with
-- linear probing, and a deletion that moves later entries into the gap.
pub mod Distance
pub mod Find
pub mod Put
pub mod Gap
pub mod Del
pub mod Refines
pub mod Size
use ninit.Prelude.{
  ℕ, zero, suc, ◌+◌, ◌-◌, ◌*◌, ◌%◌, Bool, true, false, not, ◌&&◌, ◌||◌, Option, none, some, ◌==◌,
  ltb, leb, if◌then◌else◌, update, List, [], ◌∷◌,
}

-- pid_key, pid_val and pid_mask, with pid_mask + 1 slots; a key of 0 is a free slot
pub record Table : Type 0 where
  pub key : ℕ → ℕ
  pub val : ℕ → ℕ
  pub mask : ℕ

abbrev pub slots : Table → ℕ
slots t = t.mask + 1

-- pid_mask + 1 is a power of two, so `& pid_mask` is the remainder by it
unfoldable pub pid_hash : ℕ → ℕ → ℕ
pid_hash mask p = p * 2654435761 % 4294967296 % (mask + 1)

-- (i + 1) & pid_mask
abbrev pub next : ℕ → ℕ → ℕ
next mask i = (i + 1) % (mask + 1)

-- the loop of pid_put, pid_del and find_pid: the slot of the pid, or the free slot where the
-- search for it ends
unfoldable pub probe : Table → ℕ → ℕ → ℕ → ℕ
probe t pid zero i = i
probe t pid (suc fuel) i =
    let rest = probe t pid fuel (next t.mask i) in
    if t.key i == 0 || t.key i == pid then i else rest

-- as many rounds as there are slots
abbrev pub slot_of : Table → ℕ → ℕ
slot_of t pid = probe t pid (slots t) (pid_hash t.mask pid)

unfoldable pub pid_put : ℕ → ℕ → Table → Table
pid_put pid svc t =
    let i = slot_of t pid in record t { key = update t.key i pid; val = update t.val i svc }

-- the entry at j, with the hash k, is looked for from a slot up to the gap at i
abbrev pub leaves_gap : ℕ → ℕ → ℕ → Bool
leaves_gap i j k = if leb i j then leb k i || ltb j k else leb k i && ltb j k

-- the loops of pid_del, from the gap at i, with the slots after it up to j looked at
unfoldable pub close_gap : ℕ → ℕ → ℕ → Table → Table
close_gap zero i j t = t
close_gap (suc fuel) i j t =
    let j' = next t.mask j in
    let moved = record t {
      key = update (update t.key i (t.key j')) j' 0;
      val = update t.val i (t.val j');
    } in
    let after = close_gap fuel j' j' moved in
    let on = close_gap fuel i j' t in
    if t.key j' == 0 then t else if leaves_gap i j' (pid_hash t.mask (t.key j')) then after else on

unfoldable pub pid_del : ℕ → Table → Table
pid_del pid t =
    let i = slot_of t pid in
    if t.key i == 0 then t else close_gap (slots t) i i (record t { key = update t.key i 0 })

-- find_pid, where there is a table
unfoldable pub find : Table → ℕ → Option ℕ
find t pid = let i = slot_of t pid in if t.key i == 0 then none else some (t.val i)

-- the size that start_graph gives the table: the power of two from 64 on that is not below 4 * n
unfoldable pub table_size : ℕ → ℕ → ℕ → ℕ
table_size zero n size = size
table_size (suc fuel) n size =
    let rest = table_size fuel n (size * 2) in if ltb size (4 * n) then rest else size

unfoldable pub new_table : ℕ → Table
unfolding table_size
new_table n = record { key = λ i. 0; val = λ i. 0; mask = table_size 10 n 64 - 1 }
