-- ===== src/Threads/Tests.antt =====
-- Concrete runs of the threads: two blocks in the database, one handle, and one miner.
use prime_pool_deprecated.Common.{
  ℕ, ◌+◌, ◌-◌, ◌*◌, ◌/◌, ◌%◌, ◌≤◌, ◌≡◌, refl, ap, Bool, true, false, List, [], ◌∷◌, Option, none,
  some, arith, ltb, ◌==◌, get_elem?,
}
use prime_pool_deprecated.Common.Order.{bytes_order, ℕ_order}
use prime_pool_deprecated.Common.StdMap.{StdMap, same_key, same_key→eq, lookup, IsSorted}
use prime_pool_deprecated.Bytes.{u32, u64, bytes2uint64}
use prime_pool_deprecated.Packet.{Packet}
use prime_pool_deprecated.Coinbase.{Address, new_coinbase}
use prime_pool_deprecated.Record.{new_account, Block, new_block}
use prime_pool_deprecated.Database.{get_keys}
use prime_pool_deprecated.Core.{Core, Floats}
use prime_pool_deprecated.Core.Accounts.{Accounts}
use prime_pool_deprecated.Ddos.{Score}
use prime_pool_deprecated.Session.{MiningBlock, Difficulty, Policy, Session}
use prime_pool_deprecated.Daemon.{Handle, set_coinbase, submit_block, request_blocks}
use prime_pool_deprecated.Threads.{
  get_block, block_reward, coinbase_set, clear_map, request, up, World,
}
use prime_pool_deprecated.Threads.Master.{master_pass}
use prime_pool_deprecated.Threads.Orphan.{check_loop, orphan_requests, orphan_work, orphan_pass}
use prime_pool_deprecated.Threads.Orphan.Checks.{
  is_recent, checks_of, check_loop-recent, check_loop_early,
}
use prime_pool_deprecated.Threads.Start.{
  RoundsBelow, start_round_number, start_round_number_lem, erase_invalid, erase_invalid_lem,
}
use prime_pool_deprecated.Threads.Handles.{
  submit, serve, serve_handle, handle_work, handle_loop, handle_pass,
}
use prime_pool_deprecated.Threads.Handles.Serve.{Served, serve-Served}
use prime_pool_deprecated.Threads.Traces.{master_round, orphan_round, handle_round, run_pass, run}
use prime_pool_deprecated.Threads.Traces.Calm.{NoSubmit}
use prime_pool_deprecated.Threads.Traces.Submitting.{run-NoSubmit}
use prime_pool_deprecated.Threads.Traces.Rounds.{built, flagged, round_reset}
use prime_pool_deprecated.Threads.Traces.Stale.{stale_stalls}

abbrev whole : Floats
whole = record {
  F = ℕ × ℕ;
  of_u64 = λ n. (n, 1);
  mul = λ x y. (x.0 * y.0, x.1 * y.1);
  div = λ x y. (x.0 * y.1, x.1 * y.0);
  sub = λ x y. (x.0 * y.1 - y.0 * x.1, x.1 * y.1);
  to_u64 = λ x. u64 (x.0 / x.1);
  to_u32 = λ x. u32 (x.0 / x.1);
  bonus_rate = (2, 100);
}

abbrev tenths : Difficulty
tenths = record {
  D = ℕ;
  verify = λ n. n % 10;
  set_bits = λ x. 10 + x;
  reaches = λ x bits. x == bits;
  below_eight = λ x. ltb x 8;
  channel_of = λ x. x % 5;
  weight = λ x. 25;
}

abbrev policy : Policy
policy = record { hash_of = λ b. b.height + b.bits; is_valid = λ a. true; is_banned = λ a. false }

-- The keys as they are.
abbrev unsorted : Accounts → List Address → List Address
unsorted db keys = keys

abbrev alice : Address
alice = 50 ∷ []

abbrev quiet : Score
quiet = record { slots = (true, 0) ∷ (true, 0) ∷ []; started = 0; iterator = 0 }

abbrev found : MiningBlock
found = record {
  version = 1;
  hash_prev_block = 5;
  hash_merkle_root = 6;
  channel = 1;
  height = 999;
  bits = 3;
  nonce = 17;
}

abbrev miner : Session
miner = record {
  map_blocks = [];
  new_blocks = [];
  block_requests = 0;
  blocks_waiting = 0;
  new_block = true;
  logged_in = true;
  address = alice;
  submission = some 0;
  ddos = false;
  filter = record {
    started = 0;
    bantime = 0;
    totalbans = 0;
    requests = quiet;
    connections = quiet;
  };
  written = [];
}

abbrev handle : Handle
handle = record {
  connections = some miner ∷ [];
  total_connections = 1;
  new_block = false;
  coinbase_pending = false;
}

abbrev two_blocks : StdMap ℕ Block
two_blocks =
    (77, record (new_block 77) { round = 2; coinbase_value = 500 })
    ∷ (78, record (new_block 78) { round = 8; coinbase_value = 500 })
    ∷ []

abbrev core : Core
core = record {
  account_db = (alice, new_account alice) ∷ [];
  block_db = two_blocks;
  coinbase = new_coinbase;
  best_height = 1000;
  round_reward = 0;
  current_round = 9;
  hash_block_submission = 0;
  last_blockfinder = alice;
  coinbase_pending = false;
  new_round = false;
  submitting_block = false;
  stats = [];
}

abbrev world_of : Core → World tenths
world_of c = record {
  pool = record {
    core = c;
    heap = (0, found) ∷ [];
    primes = [];
    difficulty_shares = 0 ∷ 0 ∷ 0 ∷ 0 ∷ 0 ∷ [];
    minimum_share = 10;
  };
  handles = handle ∷ [];
  account_file = [];
  block_file = [];
}

two_blocks-IsSorted : IsSorted two_blocks
two_blocks-IsSorted = ((refl, tt), (tt, tt))

abbrev waiting : World tenths
waiting = world_of (record core { submitting_block = true })

-- The orphan thread's timers have run out, and the master's too.
quiet_run :
    run tenths policy whole
      (2, 100)
      unsorted
      (orphan_round up true true none ∷ master_round up true none ∷ [])
      waiting
    ≡ some (waiting, [])
unfolding run run_pass orphan_pass orphan_work orphan_requests master_pass
quiet_run = refl

run-NoSubmit_example : (waiting.pool.core.submitting_block ≡ true) × NoSubmit []
run-NoSubmit_example =
    run-NoSubmit tenths policy whole (2, 100) unsorted
      (orphan_round up true true none ∷ master_round up true none ∷ []) waiting waiting []
      (refl, (tt, tt)) refl quiet_run

abbrev reward : Packet
reward = record { header = block_reward; length = 8; content = 0 ∷ 0 ∷ 1 ∷ 0 ∷ 0 ∷ 0 ∷ 0 ∷ 0 ∷ [] }

abbrev pending : World tenths
pending = world_of (record core { coinbase_pending = true })

round_reset_example :
    (w' : World tenths) × (run tenths policy whole
        (2, 100)
        unsorted
        (master_round up false (some reward)
          ∷ master_round up false (some (request coinbase_set))
          ∷ handle_round 0 up false none
          ∷ [])
        pending
      ≡ some (
        w',
        set_coinbase (
              built tenths policy whole
                (2, 100)
                unsorted
                (bytes2uint64 reward.content 0)
                pending.pool.core)
            ∷ request clear_map
            ∷ set_coinbase (
                built tenths policy whole
                  (2, 100)
                  unsorted
                  (bytes2uint64 reward.content 0)
                  pending.pool.core)
            ∷ [],
      ))
    × (get_elem? w'.handles 0 ≡ some (flagged handle))
    × (w'.pool.core.coinbase_pending ≡ false)
round_reset_example =
    round_reset tenths policy whole (2, 100) unsorted reward (request coinbase_set) 0 handle pending
      refl refl (record { later = omega arith; pending = refl; settled = refl; answered = refl })
      refl refl

-- The miner's block is of height 999, and the present height is 1000.
abbrev submitted : Core
submitted = record core { submitting_block = true; hash_block_submission = 1002 }

serve_run :
    serve policy ((0, found) ∷ []) core (some miner ∷ [])
    ≡ some (some (record miner { submission = none }) ∷ [], submitted, [])
unfolding serve submit
serve_run = refl

-- A connection that asks for two blocks, in front of one whose block is of the present height.
abbrev asking : Session
asking = record miner { block_requests = 2; submission = none }

abbrev present : Core
present = record core { best_height = 999 }

abbrev live : Core
live = record present { submitting_block = true; hash_block_submission = 1002 }

abbrev answered : List (Option Session)
answered =
    none
    ∷ some (record asking { block_requests = 0; blocks_waiting = 2 })
    ∷ some (record miner { submission = none })
    ∷ []

serve_found :
    serve policy ((0, found) ∷ []) present (none ∷ some asking ∷ some miner ∷ [])
    ≡ some (answered, live, request get_block ∷ request get_block ∷ submit_block 6 17 ∷ [])
unfolding serve submit request_blocks
serve_found = refl

serve-Served_example :
    Served policy
      ((0, found) ∷ [])
      present
      (none ∷ some asking ∷ some miner ∷ [])
      answered
      live
      (request get_block ∷ request get_block ∷ submit_block 6 17 ∷ [])
serve-Served_example =
    serve-Served policy ((0, found) ∷ []) present live (none ∷ some asking ∷ some miner ∷ [])
      answered (request get_block ∷ request get_block ∷ submit_block 6 17 ∷ []) serve_found

check_loop-recent_example :
    check_loop 9 (77 ∷ 78 ∷ []) two_blocks ≡ checks_of (is_recent 9) two_blocks
unfolding get_keys
check_loop-recent_example =
    check_loop-recent 9 two_blocks two_blocks-IsSorted (omega arith) (omega arith)

abbrev first_block : StdMap ℕ Block
first_block = (77, record (new_block 77) { round = 2; coinbase_value = 500 }) ∷ []

check_loop_early_example : check_loop 3 (77 ∷ []) first_block ≡ []
unfolding get_keys
check_loop_early_example = check_loop_early 3 first_block (tt, tt) (omega arith) (omega arith, tt)

start_round_number_lem_example :
    (1 ≤ start_round_number two_blocks 1) × RoundsBelow (start_round_number two_blocks 1) two_blocks
start_round_number_lem_example =
    start_round_number_lem two_blocks 1 two_blocks-IsSorted (omega arith, (omega arith, tt))

-- An address that does not start with "2" is invalid.
abbrev is_valid : Address → Bool
is_valid a = elim a [ [] ↦ false | x ∷ xs ↦ x == 50 ]

bad_key : (k : Address) → same_key k (65 ∷ []) ≡ true → is_valid k ≡ false
bad_key k e = ap is_valid (same_key→eq k (65 ∷ []) e)

erase_invalid_lem_test :
    lookup (65 ∷ []) (
      erase_invalid is_valid
        ((65 ∷ []) ∷ [])
        ((alice, new_account alice) ∷ ((65 ∷ [], new_account (65 ∷ [])) ∷ [])))
    ≡ none
erase_invalid_lem_test =
    erase_invalid_lem is_valid ((65 ∷ []) ∷ [])
      ((alice, new_account alice) ∷ ((65 ∷ [], new_account (65 ∷ [])) ∷ [])) (65 ∷ [])
      (λ k v c. ground (arith, v, c, bad_key k))

-- The handle submits the stale block, and then the timers run out.
stale_run :
    run tenths policy whole
      (2, 100)
      unsorted
      (handle_round 0 up false none ∷ orphan_round up true true none ∷ [])
      (world_of core)
    ≡ some (
      record (world_of submitted) {
        handles =
            record handle { connections = some (record miner { submission = none }) ∷ [] } ∷ [];
      },
      [],
    )
unfolding run run_pass orphan_pass orphan_work orphan_requests handle_pass handle_loop handle_work
    serve_handle serve submit
stale_run = refl

stale_stalls_example : (submitted.submitting_block ≡ true) × NoSubmit []
stale_stalls_example =
    stale_stalls tenths policy whole (2, 100) unsorted 0 handle miner [] 0 found (world_of core)
      (record (world_of submitted) {
        handles =
            record handle { connections = some (record miner { submission = none }) ∷ [] } ∷ [];
      })
      (orphan_round up true true none ∷ []) [] refl
      (record { ready = refl; answered = refl; settled = refl; free = refl; served = refl })
      (record { first = refl; found = refl; live = refl; stale = refl }) (refl, tt) stale_run
