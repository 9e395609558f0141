-- ===== src/Tests/AuditRuns.antt =====
-- Runs of the chain on a table of two rows with a burned id between them.
use apichain_backend.Base.{
  ◌+◌, ◌≡◌, refl, ap, true, false, ◌⊎◌, ◌↔◌, none, some, List, [], ◌∷◌, ◌++◌, map, length,
}
use apichain_backend.Audit.Content.{AuditRow, genesis_prev_hash}
use apichain_backend.Audit.Chain.{
  ChainVerdict, Reason, accepted, refused, is_within, select_rows, tail_hash, check_row, walk,
  verify_chain,
}
use apichain_backend.Audit.Verdict.{Linked, verify_chain-iff-Linked}
use apichain_backend.Audit.Ranges.{verify_chain_range, walk_refusal}
use apichain_backend.Audit.Append.{
  AuditTable, empty_table, Transaction, commit, rollback, IsValid, run_transactions, append-IsValid,
  run_transactions-IsValid, run_transactions-verify_chain, append, empty_table-IsValid,
}
use apichain_backend.Audit.Tampering.{recorded, Broken, verify_chain_binding}
use apichain_backend.Tests.Data.{
  toy_hash, length-toy_hash, noon, evening, created_entry, harvested_entry, audit_row,
}

abbrev transactions : List Transaction
transactions =
    commit created_entry noon ∷ rollback harvested_entry noon ∷ commit harvested_entry evening ∷ []

abbrev table : AuditTable
table = run_transactions toy_hash empty_table transactions

table_is_ok : (verify_chain toy_hash none none table.rows).is_ok ≡ true
table_is_ok =
    ap (λ (v : ChainVerdict). v.is_ok)
      (run_transactions-verify_chain toy_hash transactions none none)

table-IsValid : IsValid toy_hash table
table-IsValid =
    run_transactions-IsValid toy_hash empty_table transactions (empty_table-IsValid toy_hash)

verify_chain-iff-Linked_example :
    ((verify_chain toy_hash none none table.rows).is_ok ≡ true)
    ↔ Linked toy_hash genesis_prev_hash table.rows
verify_chain-iff-Linked_example = verify_chain-iff-Linked toy_hash table.rows

verify_chain_binding_example :
    (map recorded table.rows ≡ map recorded table.rows) ⊎ Broken toy_hash length-toy_hash
verify_chain_binding_example =
    verify_chain_binding toy_hash length-toy_hash table.rows table.rows table_is_ok table_is_ok refl

run_transactions-verify_chain_example :
    verify_chain toy_hash (some 2) none table.rows
    ≡ accepted (length (select_rows (is_within (some 2) none) table.rows))
run_transactions-verify_chain_example =
    run_transactions-verify_chain toy_hash transactions (some 2) none

verify_chain_range_example :
    verify_chain toy_hash none (some 1) table.rows
    ≡ accepted (length (select_rows (is_within none (some 1)) table.rows))
verify_chain_range_example =
    verify_chain_range toy_hash none (some 1) table.rows table-IsValid.ordered table_is_ok

one_more-IsValid : IsValid toy_hash (append toy_hash table created_entry evening).0
one_more-IsValid = append-IsValid toy_hash table created_entry evening table-IsValid

-- A row whose `prev_hash` is not the genesis hash.
abbrev forged : List AuditRow
forged = audit_row 1 9 ∷ []

forged_is_refused : (walk toy_hash genesis_prev_hash 0 forged).is_ok ≡ false
unfolding walk check_row
forged_is_refused = refl

walk_refusal_example :
    (good : List AuditRow) × (bad : AuditRow) × (rest : List AuditRow) × (why : Reason) × (forged
      ≡ good ++ bad ∷ rest)
    × Linked toy_hash genesis_prev_hash good
    × (check_row toy_hash (tail_hash genesis_prev_hash good) bad ≡ some why)
    × (walk toy_hash genesis_prev_hash 0 forged ≡ refused (0 + length good + 1) bad.id why)
walk_refusal_example = walk_refusal toy_hash genesis_prev_hash 0 forged forged_is_refused
