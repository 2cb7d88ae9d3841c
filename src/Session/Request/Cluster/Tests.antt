-- ===== src/Session/Request/Cluster/Tests.antt =====
-- A share that is no prime, on a block of the session.
use prime_pool_deprecated.Common.{
  ℕ, ◌*◌, ◌/◌, ◌≡◌, refl, Bool, true, false, [], ◌∷◌, none, some, arith, ltb, leb,
}
use prime_pool_deprecated.Common.Order.{ℕ_order, bytes_order}
use prime_pool_deprecated.Coinbase.{new_coinbase}
use prime_pool_deprecated.Ddos.{Score}
use prime_pool_deprecated.Prime.Concrete.{computed, fractions, untested}
use prime_pool_deprecated.Session.{
  MiningBlock, Difficulty, Session, Pool, reject, respond, penalize,
}
use prime_pool_deprecated.Session.Request.{check_share, find_block}
use prime_pool_deprecated.Session.Request.Cluster.{verified, verify-fails, find_block_untested}

abbrev bits_of : ℕ × ℕ → ℕ
bits_of x = 10000000 * x.0 / x.1

abbrev reached : ℕ × ℕ → ℕ → Bool
reached x bits = leb (bits * x.1) (10000000 * x.0)

abbrev below : ℕ × ℕ → Bool
below x = ltb x.0 (8 * x.1)

abbrev weight_of : ℕ × ℕ → ℕ
weight_of x = x.0 / x.1

abbrev clusters : Difficulty
clusters = verified computed fractions bits_of reached below weight_of weight_of

abbrev quiet : Score
quiet = record { slots = (true, 0) ∷ (true, 0) ∷ []; started = 0; iterator = 0 }

abbrev block : MiningBlock
block = record {
  version = 1;
  hash_prev_block = 5;
  hash_merkle_root = 6;
  channel = 1;
  height = 1000;
  bits = 50000000;
  nonce = 0;
}

abbrev session : Session
session = record {
  map_blocks = (1003, 0) ∷ [];
  new_blocks = [];
  block_requests = 0;
  blocks_waiting = 0;
  new_block = true;
  logged_in = true;
  address = 50 ∷ [];
  submission = none;
  ddos = false;
  filter = record {
    started = 0;
    bantime = 0;
    totalbans = 0;
    requests = quiet;
    connections = quiet;
  };
  written = [];
}

abbrev pool : Pool clusters
pool = record {
  core = record {
    account_db = [];
    block_db = [];
    coinbase = new_coinbase;
    best_height = 1000;
    round_reward = 0;
    current_round = 1;
    hash_block_submission = 0;
    last_blockfinder = [];
    coinbase_pending = false;
    new_round = false;
    submitting_block = false;
    stats = [];
  };
  heap = (0, block) ∷ [];
  primes = [];
  difficulty_shares = 0 ∷ [];
  minimum_share = 30000000;
}

share_run :
    find_block clusters 1 1003 0 session pool ≡ some (respond reject (penalize 1 5 session), pool)
unfolding find_block check_share
share_run =
    rw (verify-fails computed fractions bits_of reached below weight_of weight_of 1003 untested)
      refl

find_block_untested_example : pool ≡ pool
find_block_untested_example =
    find_block_untested computed fractions bits_of reached below weight_of weight_of 1 1003 0
      session (respond reject (penalize 1 5 session)) pool pool untested (omega arith) share_run
