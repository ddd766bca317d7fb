-- ===== src/Eviction/Ghost/Examples.antt =====
-- The theorems on the ghost table at a concrete table.
use horreum.Common.{ℕ, ◌≡◌, ◌≢◌, ◌==◌, arith, refl, true, false, if◌then◌else◌}
use horreum.Eviction.Ghost.{Bucket, GhostIndex, probe_from, exhausted, store, look, insert, remove}
use horreum.Eviction.Ghost.Membership.{look-insert, look-remove, look-insert_other}

abbrev tabs_of_two : ℕ → Bucket
tabs_of_two i =
    if i == 3
    then record { fp = 3; alive = true }
    else if i == 0
    then record { fp = 7; alive = true }
    else record { fp = 0; alive = false }

-- Four buckets: 3 in its own, and 7, with the same home, in the next one around.
abbrev two_entries : GhostIndex
two_entries = record { cap = 4; tabs = tabs_of_two }

look-insert_example : look (insert two_entries 9).0 9 ≡ true
look-insert_example = look-insert two_entries 9 (omega arith)

look-remove_example : look (remove two_entries 3).0 3 ≡ false
look-remove_example = look-remove two_entries 3

has_room : probe_from two_entries 9 4 0 ≢ exhausted
unfolding probe_from
has_room e = absurd (ground (arith, e))

has_seven : look two_entries 7 ≡ true
unfolding look probe_from
has_seven = refl

look-insert_other_example : look (insert two_entries 9).0 7 ≡ true
look-insert_other_example = look-insert_other two_entries 9 7 has_room has_seven

-- A test: with 3 removed, 7 stands behind a dead bucket and is not found any more.
seven_lost : look (remove two_entries 3).0 7 ≡ false
unfolding look remove probe_from store
seven_lost = refl
