-- ===== src/Audit/Append.antt =====
-- `append`, the only writer of the table, and what it keeps.
use apichain_backend.Base.{
  ℕ, ◌+◌, ◌≤◌, ◌<◌, ◌≡◌, refl, Option, List, [], ◌∷◌, ◌++◌, arith, length, length-append,
}
use apichain_backend.Base.Bytes.{Bytes}
use apichain_backend.Canonical.Json.{compute_data_hash}
use apichain_backend.Canonical.DateTime.{DateTime}
use apichain_backend.Audit.Content.{Entry, AuditRow, genesis_prev_hash, compute_row_hash}
use apichain_backend.Audit.Chain.{accepted, is_within, select_rows, tail_hash, verify_chain}
use apichain_backend.Audit.Verdict.{IsLink, Linked, verify_chain-iff-Linked}
use apichain_backend.Audit.Ranges.{Ascending, verify_chain_range}

pub record AuditTable : Type 0 where
  pub rows : List AuditRow
  pub next_id : ℕ

-- Before the first append; the sequence starts at 1.
abbrev pub empty_table : AuditTable
empty_table = record { rows = []; next_id = 1 }

pub data Transaction : Type 0 where
  commit rollback : Entry → DateTime → Transaction

-- Ids below `bound`.
abbrev pub Below : ℕ → List AuditRow → Type 0
Below bound [] = Unit
Below bound (row ∷ rows) = (row.id < bound) × Below bound rows

Below-mono : (a b : ℕ) (rows : List AuditRow) → a ≤ b → Below a rows → Below b rows
Below-mono a b [] h l = tt
Below-mono a b (row ∷ rows) h (lt, l) = (omega arith, Below-mono a b rows h l)

Below-append :
    (b : ℕ) (rows : List AuditRow) (row : AuditRow)
    → Below b rows
    → row.id < b
    → Below b (rows ++ row ∷ [])
Below-append b [] row l h = (h, tt)
Below-append b (r ∷ rows) row (lt, l) h = (lt, Below-append b rows row l h)

Ascending-append :
    (a : ℕ) (rows : List AuditRow) (row : AuditRow)
    → Ascending a rows
    → a < row.id
    → Below row.id rows
    → Ascending a (rows ++ row ∷ [])
Ascending-append a [] row asc h l = (h, tt)
Ascending-append a (r ∷ rows) row (lt, asc) h (below, l) =
    (lt, Ascending-append r.id rows row asc below l)

module _ (keccak : Bytes → Bytes) where
  -- The row that `append` inserts. `now` is the clock's naive UTC time.
  unfoldable pub new_row : AuditTable → Entry → DateTime → AuditRow
  unfolding tail_hash compute_data_hash compute_row_hash
  new_row table e now =
      let prev_hash = tail_hash genesis_prev_hash table.rows in
      let payload_hash = compute_data_hash keccak e.payload in
      record {
        id = table.next_id;
        prev_hash = prev_hash;
        entry = e;
        payload_hash = payload_hash;
        created_at = now;
        row_hash = compute_row_hash keccak prev_hash e payload_hash now;
      }

  unfoldable pub append : AuditTable → Entry → DateTime → AuditTable × AuditRow
  unfolding new_row
  append table e now =
      let row = new_row table e now in
      (record { rows = table.rows ++ row ∷ []; next_id = table.next_id + 1 }, row)

  pub length_rows-append :
      (table : AuditTable) (e : Entry) (now : DateTime)
      → length (append table e now).0.rows ≡ length table.rows + 1
  unfolding append
  length_rows-append table e now = length-append table.rows (new_row table e now ∷ [])

  Linked-append :
      (before : Bytes) (rows : List AuditRow) (row : AuditRow)
      → Linked keccak before rows
      → IsLink keccak (tail_hash before rows) row
      → Linked keccak before (rows ++ row ∷ [])
  unfolding tail_hash
  Linked-append before [] row l link = (link, tt)
  Linked-append before (r ∷ rows) row (first, l) link =
      (first, Linked-append r.row_hash rows row l link)

  -- The rows are in id order, the sequence is past them, and they form a chain.
  pub record IsValid (table : AuditTable) : Type 0 where
    pub ordered : Ascending 0 table.rows
    pub below : Below table.next_id table.rows
    pub positive : 0 < table.next_id
    pub linked : Linked keccak genesis_prev_hash table.rows

  pub empty_table-IsValid : IsValid empty_table
  empty_table-IsValid = record { ordered = tt; below = tt; positive = omega arith; linked = tt }

  -- Every append keeps a table valid: in id order, with fresh ids, and one unbroken chain.
  pub append-IsValid :
      (table : AuditTable) (e : Entry) (now : DateTime)
      → IsValid table
      → IsValid (append table e now).0
  unfolding append
  append-IsValid table e now v = record {
    ordered = Ascending-append 0 table.rows (new_row table e now) v.ordered v.positive v.below;
    below =
        Below-append (table.next_id + 1) table.rows (new_row table e now)
          (Below-mono table.next_id (table.next_id + 1) table.rows (omega arith) v.below)
          (omega arith);
    positive = omega arith;
    linked =
        Linked-append genesis_prev_hash table.rows (new_row table e now) v.linked
          (refl, refl, refl);
  }

  -- A transaction that appends one row, committed or rolled back. A rollback takes the row away
  -- and leaves its id burned.
  unfoldable pub transact : AuditTable → Transaction → AuditTable
  unfolding append
  transact table (commit e now) = (append table e now).0
  transact table (rollback e now) = record {
    rows = table.rows;
    next_id = (append table e now).0.next_id;
  }

  pub run_transactions : AuditTable → List Transaction → AuditTable
  run_transactions table [] = table
  run_transactions table (t ∷ ts) = run_transactions (transact table t) ts

  transact-IsValid :
      (table : AuditTable) (t : Transaction) → IsValid table → IsValid (transact table t)
  unfolding transact
  transact-IsValid table (commit e now) v = append-IsValid table e now v
  transact-IsValid table (rollback e now) v = record {
    ordered = v.ordered;
    below = Below-mono table.next_id (table.next_id + 1) table.rows (omega arith) v.below;
    positive = omega arith;
    linked = v.linked;
  }

  pub run_transactions-IsValid :
      (table : AuditTable) (ts : List Transaction)
      → IsValid table
      → IsValid (run_transactions table ts)
  unfolding run_transactions
  run_transactions-IsValid table [] v = v
  run_transactions-IsValid table (t ∷ ts) v =
      run_transactions-IsValid (transact table t) ts (transact-IsValid table t v)

  -- After any sequence of committed and rolled-back appends to the empty table, `verify_chain`
  -- accepts every range of ids and counts every row of the range.
  pub run_transactions-verify_chain :
      (ts : List Transaction) (from to : Option ℕ)
      → let rows = (run_transactions empty_table ts).rows in
        verify_chain keccak from to rows ≡ accepted (length (select_rows (is_within from to) rows))
  run_transactions-verify_chain ts from to =
      let v = run_transactions-IsValid empty_table ts empty_table-IsValid in
      verify_chain_range keccak from to (run_transactions empty_table ts).rows v.ordered
        ((verify_chain-iff-Linked keccak _).1 v.linked)
