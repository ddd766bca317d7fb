-- ===== src/Persist/Recovery.antt =====
-- internal/arena/persist/recovery.go: the replay of the log into an index.
pub mod Crash
use horreum.Common.{ℕ, zero, suc, Bool, Option, List, [], ◌∷◌, ◌==◌, if◌then◌else◌, length}
use horreum.Bytes.{Bytes}
use horreum.Persist.Wal.{
  Handle, Wal, WalRecord, wal_op_set, wal_op_set_ex, wal_op_del, Next, eof, corrupt, got, next,
}

-- The interface IndexWriter, with the index as the state that its calls change.
pub record IndexWriter {ℓ} (Index : Type ℓ) : Type ℓ where
  pub put : Bytes → Handle → ℕ → Index → Index × Bool
  pub delete : Bytes → Index → Index × Option Handle

module _ {ℓ} {Index : Type ℓ} (idx : IndexWriter Index) where
  -- The switch of ReplayTo.
  unfoldable pub apply_record : WalRecord → Index → Index
  apply_record rec i =
      if rec.op == wal_op_set
      then (idx.put rec.key rec.handle 0 i).0
      else if rec.op == wal_op_set_ex
      then (idx.put rec.key rec.handle rec.expires_at i).0
      else if rec.op == wal_op_del
      then (idx.delete rec.key i).0
      else i

  -- The loop of ReplayTo, on fuel.
  unfoldable pub replay_from : ℕ → Bytes → ℕ → ℕ → Index → Index
  replay_from zero file off end i = i
  replay_from (suc n) file off end i = elim (next file off end) [
    | eof ↦ i
    | corrupt ↦ i
    | got rec off' ↦ replay_from n file off' end (apply_record rec i)
  ]

  -- ReplayTo: Iterate(0) takes the write offset as the end. Each record moves by a header at least,
  -- so the end is fuel enough.
  unfoldable pub replay_to : Wal → Index → Index
  replay_to w i = replay_from w.off w.file 0 w.off i
