-- ===== src/Session/Tests.antt =====
-- Concrete runs of a session. Every tenth number is a share of weight 25.
use prime_pool_deprecated.Common.{
  ℕ, ◌+◌, ◌%◌, ◌≡◌, refl, true, false, [], ◌∷◌, none, some, arith, ltb, ◌==◌,
}
use prime_pool_deprecated.Common.Order.{ℕ_order, bytes_order}
use prime_pool_deprecated.Common.StdMap.{lookup, has}
use prime_pool_deprecated.Bytes.{bytes2string}
use prime_pool_deprecated.Coinbase.{Address, new_coinbase}
use prime_pool_deprecated.Record.{new_account}
use prime_pool_deprecated.Ddos.{Score}
use prime_pool_deprecated.Database.{get_record, update_record}
use prime_pool_deprecated.Core.{Core}
use prime_pool_deprecated.Session.{
  MiningBlock, Difficulty, Policy, Session, Pool, reject, respond, penalize,
}
use prime_pool_deprecated.Session.Request.{
  hand_on, count_share, check_share, find_block, login, process_packet,
}
use prime_pool_deprecated.Session.Request.Share.{IsShare, IsNew, find_block_counts, share_once}
use prime_pool_deprecated.Session.Request.Login.{
  process_packet_refused, login_accepts, login_rejects,
}
use prime_pool_deprecated.Session.Events.{clear}
use prime_pool_deprecated.Session.Events.Cleared.{clear_dangles}

abbrev tenths : Difficulty
tenths = record {
  D = ℕ;
  verify = λ n. n % 10;
  set_bits = λ x. 10 + x;
  reaches = λ x bits. x == bits;
  below_eight = λ x. ltb x 8;
  channel_of = λ x. x % 5;
  weight = λ x. 25;
}

-- Addresses start with "2"; that of the banned account is "2" itself.
abbrev policy : Policy
policy = record {
  hash_of = λ b. b.height + b.bits;
  is_valid = λ a. elim a [ [] ↦ false | x ∷ xs ↦ x == 50 ];
  is_banned = λ a. elim a [ [] ↦ false | x ∷ xs ↦ elim xs [ [] ↦ true | y ∷ ys ↦ false ] ];
}

abbrev alice : Address
alice = 50 ∷ 65 ∷ []

abbrev quiet : Score
quiet = record { slots = (true, 0) ∷ (true, 0) ∷ []; started = 0; iterator = 0 }

abbrev block : MiningBlock
block = record {
  version = 1;
  hash_prev_block = 5;
  hash_merkle_root = 6;
  channel = 1;
  height = 1000;
  bits = 3;
  nonce = 0;
}

abbrev session : Session
session = record {
  map_blocks = (1003, 0) ∷ [];
  new_blocks = [];
  block_requests = 0;
  blocks_waiting = 0;
  new_block = true;
  logged_in = true;
  address = alice;
  submission = some 0;
  ddos = true;
  filter = record {
    started = 0;
    bantime = 0;
    totalbans = 0;
    requests = quiet;
    connections = quiet;
  };
  written = [];
}

abbrev visitor : Session
visitor = record session { logged_in = false; address = [] }

abbrev core : Core
core = record {
  account_db = (alice, new_account alice) ∷ [];
  block_db = [];
  coinbase = new_coinbase;
  best_height = 1000;
  round_reward = 0;
  current_round = 1;
  hash_block_submission = 0;
  last_blockfinder = [];
  coinbase_pending = false;
  new_round = false;
  submitting_block = false;
  stats = [];
}

abbrev pool : Pool tenths
pool = record {
  core = core;
  heap = (0, block) ∷ [];
  primes = (1008, 8) ∷ [];
  difficulty_shares = 0 ∷ 0 ∷ 0 ∷ 0 ∷ 0 ∷ [];
  minimum_share = 10;
}

on_block : IsShare tenths 1003 0 0 block session pool
on_block = record { known_block = refl; live = refl; current = refl }

share-IsNew : IsNew tenths 1003 0 pool
share-IsNew = record { unknown = refl; enough = refl; placed = refl }

-- The share 1003 counts 25 for Alice.
find_block_counts_example :
    (m' : Session) × (pool' : Pool tenths) × (find_block tenths 1 1003 0 session pool
      ≡ some (m', pool'))
    × (has 1003 pool'.primes ≡ true)
    × (lookup alice pool'.core.account_db ≡ some (record (new_account alice) { round_shares = 25 }))
find_block_counts_example =
    find_block_counts tenths 1 1003 0 0 block session pool (new_account alice) alice on_block
      share-IsNew (record { sorted = (tt, tt); keyed = (refl, tt) }) refl

-- The pool after it.
abbrev pool_after : Pool tenths
pool_after = record pool {
  core = record core {
    account_db = (alice, record (new_account alice) { round_shares = 25 }) ∷ [];
  };
  primes = (1003, 3) ∷ (1008, 8) ∷ [];
  difficulty_shares = 0 ∷ 0 ∷ 0 ∷ 1 ∷ 0 ∷ [];
}

first_run : find_block tenths 1 1003 0 session pool ≡ some (session, pool_after)
unfolding find_block check_share count_share hand_on get_record update_record
first_run = refl

on_block_after : IsShare tenths 1003 0 0 block session pool_after
on_block_after = record { known_block = refl; live = refl; current = refl }

share_once_example :
    find_block tenths 2 1003 0 session pool_after
    ≡ some (penalize 2 5 (respond reject session), pool_after)
share_once_example =
    share_once tenths 1 2 1003 0 0 1003 0 0 block block session session session pool pool_after
      on_block share-IsNew first_run on_block_after refl

-- A request for a block before the login.
process_packet_refused_test :
    process_packet tenths policy 1 (record { header = 129; length = 0; content = [] }) visitor pool
    ≡ some (false, penalize 1 10 visitor, pool)
process_packet_refused_test =
    process_packet_refused tenths policy 1 (record { header = 129; length = 0; content = [] })
      visitor pool refl (ground arith)

login_accepts_test :
    let (ok, m, q) = login tenths policy 1 (50 ∷ 66 ∷ []) visitor pool in
    (ok ≡ true)
    × (m.logged_in ≡ true)
    × (m.address ≡ 50 ∷ 66 ∷ [])
    × (lookup (50 ∷ 66 ∷ []) q.core.account_db ≡ some (new_account (50 ∷ 66 ∷ [])))
unfolding bytes2string
login_accepts_test =
    login_accepts tenths policy 1 (50 ∷ 66 ∷ []) visitor pool (50 ∷ 66 ∷ []) refl refl refl

login_rejects_test :
    let (ok, m, q) = login tenths policy 1 (51 ∷ []) visitor pool in
    (ok ≡ false) × (m.logged_in ≡ false) × (q ≡ pool)
unfolding bytes2string
login_rejects_test = login_rejects tenths policy 1 (51 ∷ []) visitor pool refl refl

-- The block that waits for its submission is deleted.
clear_dangles_example :
    let (m, q) = clear policy tenths session pool in
    (m.submission ≡ some 0) × (lookup 0 q.heap ≡ none)
clear_dangles_example = clear_dangles policy tenths session pool 1003 0 refl refl
