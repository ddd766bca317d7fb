-- ===== src/Eviction/S3Fifo/Tag.antt =====
-- What Add of s3fifo.go does to the counter of a new handle.
use horreum.Common.{ℕ, ◌/◌, ◌%◌, ◌^◌, ◌<◌, ◌≡◌, refl, ◌∙◌, ap, some, arith}
use Prim.Native.Nat.{bit_or}
use horreum.Arena.Region.{Handle}
use horreum.Arena.Manager.{Manager}
use horreum.Arena.Meta.{meta_at, set_freq}
use horreum.Arena.Meta.Fields.{Counter, meta_operations-Counter}
use horreum.Eviction.S3Fifo.{tagged}

-- The frequency becomes 0, the tag's bits are added to those above it, and no other counter changes.
pub tagged-Counter :
    (m : Manager) (h : Handle) (tag cur : ℕ)
    → meta_at m h ≡ some cur
    → cur < 2 ^ 16
    → tag % 4 ≡ 0
    → Counter m (tagged h tag m) h 0 (bit_or (cur / 4) (tag / 4))
tagged-Counter m h tag cur here fits above = record {
  value = second.value;
  there = second.there;
  freq_is = second.freq_is ∙ first.freq_is;
  upper_is = second.upper_is ∙ ap (λ u. bit_or u (tag / 4)) first.upper_is;
  others = λ g other. second.others g other ∙ first.others g other;
}
  where
    first : Counter m (set_freq m h 0) h 0 (cur / 4)
    first = (meta_operations-Counter m h cur here 0 0 fits refl).3

    narrow : first.value < 2 ^ 16
    narrow = omega (arith, first.freq_is, first.upper_is, fits)

    second :
        Counter
          (set_freq m h 0)
          (tagged h tag m)
          h
          (first.value % 4)
          (bit_or (first.value / 4) (tag / 4))
    second =
        (meta_operations-Counter (set_freq m h 0) h first.value first.there 0 tag narrow above).4
