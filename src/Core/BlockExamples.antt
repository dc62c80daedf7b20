-- ===== src/Core/BlockExamples.antt =====
-- The block watcher at concrete chains, and the theorems on it.
use shield_net.Prelude.{
  ℕ, ◌+◌, ◌<◌, ◌≡◌, refl, none, some, List, [], ◌∷◌, arith, ltb, leb, if◌then◌else◌, ok, Map, sym,
  get,
}
use shield_net.Core.Snapshots.{BlockStatus, Codec, i64_max}
use shield_net.Core.Machine.{
  warp, uncle, new, Message, BlockRange, EventLog, is_sorted, all_in_range,
}
use shield_net.Core.Machine.Invariant.{follow}
use shield_net.Core.Blocks.{
  latest, at_number, BlockHeader, Provider, Config, BlockWatcher, next, revalidate_last_block,
}
use shield_net.Core.Blocks.Start.{initialize}
use shield_net.Core.Blocks.Feeding.{IsNumbered}
use shield_net.Core.Blocks.Driving.{Call, nexts, revalidates, drive, AllNumbered}
use shield_net.Core.Blocks.Logged.{inputs, IsOrdered, IsTotal, alive}
use shield_net.Core.Blocks.Watched.{IsFollowed, follow-drive}
use shield_net.Core.Blocks.Steady.{IsSteady, initialize_ends}

-- The block `k` of a chain, whose hashes from `fork` on are its own.
abbrev block_of : (fork k : ℕ) → BlockHeader
block_of fork k = record {
  number = k;
  hash = if ltb k fork then 100 + k else 200 + k;
  parent_hash = if ltb k (fork + 1) then 99 + k else 199 + k;
  timestamp = k;
  logs_bloom = 0;
}

abbrev provider : (fork last : ℕ) → Provider
provider fork last _ latest = ok (some (block_of fork last))
provider fork last _ (at_number k) = ok (if leb k last then some (block_of fork k) else none)

numbered : (fork last : ℕ) → last < i64_max → IsNumbered (provider fork last)
numbered fork last b i k header e = (ground (arith, e), ground (arith, e, b))

abbrev config : Config
config = record { block_retry_delays = []; max_reorg_depth = 3; start_block = none }

abbrev snapshots : BlockStatus
snapshots = record { latest = 7; safe = 5 }

abbrev header : ℕ → BlockHeader
header k = record {
  number = k;
  hash = 100 + k;
  parent_hash = 99 + k;
  timestamp = k;
  logs_bloom = 0;
}

abbrev watcher : BlockWatcher
watcher = record {
  config = config;
  block_time = 5000;
  pending = record { number = 11; timestamp_ms = 15000 };
  safe = record { number = 7; hash = 107 };
  recent = header 10 ∷ header 9 ∷ header 8 ∷ [];
  queue = uncle 6 ∷ warp 6 7 ∷ new 8 108 0 ∷ new 9 109 0 ∷ new 10 110 0 ∷ [];
}

-- The queue, then a chain whose block 10 is another one.
abbrev calls : List Call
calls =
    nexts (provider 20 10) 1
    ∷ nexts (provider 20 10) 1
    ∷ nexts (provider 20 10) 1
    ∷ nexts (provider 20 10) 1
    ∷ nexts (provider 20 10) 1
    ∷ nexts (provider 10 11) 1
    ∷ nexts (provider 10 11) 1
    ∷ revalidates (provider 20 11)
    ∷ nexts (provider 20 11) 1
    ∷ nexts (provider 20 11) 1
    ∷ []

calls_yield : (drive calls watcher).1 ≡ (
    uncle 6
    ∷ warp 6 7
    ∷ new 8 108 0
    ∷ new 9 109 0
    ∷ new 10 110 0
    ∷ uncle 10
    ∷ new 10 210 0
    ∷ uncle 10
    ∷ new 10 110 0
    ∷ [])
unfolding drive next revalidate_last_block
calls_yield = refl

calls_numbered : AllNumbered calls
calls_numbered = (
  numbered 20 10 (omega arith),
  (
    numbered 20 10 (omega arith),
    (
      numbered 20 10 (omega arith),
      (
        numbered 20 10 (omega arith),
        (
          numbered 20 10 (omega arith),
          (
            numbered 10 11 (omega arith),
            (
              numbered 10 11 (omega arith),
              (numbered 20 11 (omega arith), (numbered 20 11 (omega arith), tt)),
            ),
          ),
        ),
      ),
    ),
  ),
)

-- A service whose state counts its messages.
abbrev codec : Codec ℕ ℕ
codec = record { to_string = λ s. some s; from_str = λ t. some t }

abbrev count : ℕ → Message ℕ ℕ → ℕ × List ℕ
count s m = (s + 1, [])

abbrev events : BlockRange → List (EventLog ℕ)
events r = []

total : IsTotal codec
total = record { encodes = λ s. (s, refl); trips = λ s t e. sym e }

ordered : IsOrdered events
unfolding is_sorted all_in_range
ordered = record { sorted = λ r. refl; inside = λ r. refl }

abbrev rows : Map ℕ
rows = (5, 50) ∷ (7, 70) ∷ []

follow-drive_example :
    IsFollowed
      (follow codec count (alive 70 8 rows) (inputs events (drive calls watcher).1))
      (drive calls watcher).0
unfolding initialize get
follow-drive_example =
    follow-drive codec count events total ordered snapshots 70 rows (50, 50, refl, refl)
      (omega arith) (provider 20 10) 10 config 5000 (header 10) watcher calls
      (numbered 20 10 (omega arith)) refl (omega arith) (omega arith) (omega arith) refl
      calls_numbered

abbrev still : Provider
still _ latest = ok (some (header 10))
still _ (at_number k) = ok (some (header k))

steady : IsSteady still header 10
steady = record {
  newest = refl;
  blocks = λ _ k h. refl;
  number = λ k. refl;
  parent = λ k. omega arith;
}

initialize_ends_example :
    (w : BlockWatcher) × (initialize still 5 config 5000 (some snapshots) ≡ some (ok w))
initialize_ends_example =
    initialize_ends still header 10 steady (omega arith) config 5000 (some snapshots)
