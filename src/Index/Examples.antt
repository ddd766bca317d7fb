-- ===== src/Index/Examples.antt =====
-- The theorems on the hash index at concrete tables.
use horreum.Common.{
  ◌≡◌, arith, refl, subst, ℕ, false, none, some, [], ◌∷◌, List, ◌<◌, ◌≤◌, ◌+◌, ◌%◌, length,
}
use horreum.Bytes.{Bytes, bytes_eq}
use horreum.Index.Rounds.{returns, ◌>>=◌}
use horreum.Index.{
  HashIndex, put_slot, entry_of, fnv64, new_for_count, next_power_of_two, put, put_nested, place,
  walk, put_nil, place_nil, get,
}
use horreum.Index.Table.{IsTable, view}
use horreum.Index.Grow.{put-Writes}
use horreum.Index.Refine.{
  Call, puts, puts_nil, gets, step, deletes, run_calls, run_steps, index_run_refines,
  new_for_count-IsTable,
}
use horreum.Index.Restore.{add_all, add_all-snapshot}
use horreum.Index.Scan.{delete_prefix, snapshot, delete_expired}
use horreum.Index.Scan.Prefix.{Purged, delete_prefix-Purged}
use horreum.Index.Scan.Expire.{Unseen, delete_expired-Unseen}

abbrev calls : List (Call ℕ)
calls =
    puts (1 ∷ []) 10 0
    ∷ puts (2 ∷ 3 ∷ []) 20 5
    ∷ puts (1 ∷ []) 30 0
    ∷ gets (1 ∷ []) 9
    ∷ gets (2 ∷ 3 ∷ []) 9
    ∷ deletes (1 ∷ [])
    ∷ puts_nil 40 0
    ∷ gets (1 ∷ []) 9
    ∷ []

abbrev small : HashIndex ℕ
small = new_for_count 3

index_run_refines_example : run_calls small calls ≡ returns (run_steps (λ k. none) calls)
unfolding step bytes_eq
index_run_refines_example =
    index_run_refines calls small (λ k. none) (new_for_count-IsTable 3).0
      (new_for_count-IsTable 3).1 (tt, (tt, (tt, (tt, (tt, (tt, (refl, (tt, tt))))))))

-- The table with one key, which expires.
abbrev one_key : HashIndex ℕ
one_key = record small {
  slots = put_slot (fnv64 (7 ∷ 8 ∷ []) % 8) (some (entry_of (7 ∷ 8 ∷ []) 10 5)) (λ i. none);
  count = 1;
}

one_key_put : put small (7 ∷ 8 ∷ []) 10 5 ≡ returns (one_key, false)
unfolding put put_nested place walk new_for_count next_power_of_two fnv64
one_key_put = refl

one_key-IsTable : IsTable one_key
one_key-IsTable =
    let (h', run, w) = put-Writes small (7 ∷ 8 ∷ []) 10 5 (new_for_count-IsTable 3).0 in
    subst IsTable (ground (arith, run, one_key_put)) w.table

-- After two calls of Put with a nil key, Get does not find the empty key.
lost_entry : (put_nil small 10 0 >>= λ r. put_nil r.0 20 0 >>= λ s. get s.0 [] 0) ≡ returns none
unfolding put_nil place_nil put_nested place walk get new_for_count next_power_of_two fnv64 bytes_eq
lost_entry = refl

new_for_count-IsTable_example : IsTable small × ((k : Bytes) → view small k ≡ none)
new_for_count-IsTable_example = new_for_count-IsTable 3

delete_prefix-Purged_example :
    (h' : HashIndex ℕ) × (hs : List ℕ) × (delete_prefix one_key (7 ∷ []) ≡ returns (h', hs))
    × Purged (7 ∷ []) one_key h'
    × (length hs + h'.count ≡ 1)
delete_prefix-Purged_example = delete_prefix-Purged (7 ∷ []) one_key one_key-IsTable

delete_expired-Unseen_example :
    (h' : HashIndex ℕ) × (hs : List ℕ) × (delete_expired one_key 6 8 ≡ returns (h', hs))
    × Unseen 6 one_key h'
    × (length hs + h'.count ≡ 1)
    × (length hs ≤ 8)
unfolding new_for_count next_power_of_two
delete_expired-Unseen_example = delete_expired-Unseen 6 8 one_key one_key-IsTable cursor_inside
  where
    cursor_inside : one_key.scan_cursor < one_key.cap
    cursor_inside = omega arith

add_all-snapshot_example :
    (g : HashIndex ℕ) × (add_all small (snapshot one_key) ≡ returns g)
    × IsTable g
    × ((k : Bytes) → view g k ≡ view one_key k)
unfolding new_for_count next_power_of_two
add_all-snapshot_example =
    add_all-snapshot one_key small one_key-IsTable (new_for_count-IsTable 3).0 empty room
  where
    empty : small.count ≡ 0
    empty = refl

    room : 1 < small.cap
    room = omega arith
