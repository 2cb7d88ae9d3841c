-- ===== src/Ddos.antt =====
-- DDOS_Score and DDOS_Filter of src/LLP/types.h. The clock is an argument: `now` is the second at
-- which a call is made. Scores are the numbers of the source's `int`s: only small positive amounts
-- are added, and signed overflow is not modelled.
pub mod Window
pub mod Bans
mod Tests
use prime_pool_deprecated.Common.{
  ℕ, zero, suc, ◌+◌, ◌-◌, ◌*◌, ◌/◌, ◌%◌, Bool, true, false, not, ◌&&◌, List, [], ◌∷◌, map, max, ltb,
  leb, if◌then◌else◌, length, replicate,
}
use prime_pool_deprecated.Bytes.{u32}

-- `Timer`: the second at which it was started. (`Stop` is never called on these timers.)
pub record Score : Type 0 where
  pub slots : List (Bool × ℕ)
  pub started : ℕ
  pub iterator : ℕ

pub elapsed : ℕ → ℕ → ℕ
elapsed now started = now - started

-- The constructor, with `nTimespan` slots.
pub new_score : ℕ → ℕ → Score
new_score timespan now = record {
  slots = replicate timespan (true, 0);
  started = now;
  iterator = 0;
}

pub reset : ℕ → Score → Score
reset now s = record {
  slots = map (λ (slot : Bool × ℕ). (false, slot.1)) s.slots;
  started = now;
  iterator = 0;
}

pub flush : ℕ → Score → Score
unfolding reset
flush now s =
    let t = reset now s in record t { slots = map (λ (slot : Bool × ℕ). (slot.0, 0)) t.slots }

sum_slots : List (Bool × ℕ) → ℕ
sum_slots [] = 0
sum_slots (slot ∷ slots) = slot.1 + sum_slots slots

-- `Score()`: the moving average.
pub score : Score → ℕ
unfolding sum_slots
score s = sum_slots s.slots / length s.slots

pub clear_slot : Bool × ℕ → Bool × ℕ
clear_slot (true, n) = (true, n)
clear_slot (false, n) = (true, 0)

-- The loop `for(i = nIterator; i <= nTime; i++)` over the slots, `skip` of them before the
-- iterator and `count` in its range.
clear_range : ℕ → ℕ → List (Bool × ℕ) → List (Bool × ℕ)
unfolding clear_slot
clear_range skip count [] = []
clear_range (suc skip) count (slot ∷ slots) = slot ∷ clear_range skip count slots
clear_range zero zero (slot ∷ slots) = slot ∷ slots
clear_range zero (suc count) (slot ∷ slots) = clear_slot slot ∷ clear_range zero count slots

add_at : ℕ → ℕ → List (Bool × ℕ) → List (Bool × ℕ)
add_at i n [] = []
add_at zero n ((seen, m) ∷ slots) = (seen, m + n) ∷ slots
add_at (suc i) n (slot ∷ slots) = slot ∷ add_at i n slots

-- The state and `nTime` after the test `nTime >= SCORE.size()`.
pub wrap : ℕ → Score → Score × ℕ
unfolding reset elapsed
wrap now s =
    let time = elapsed now s.started in
    if leb (length s.slots) time then (reset now s, time % length s.slots) else (s, time)

-- `operator+=`.
pub add_score : ℕ → ℕ → Score → Score
unfolding wrap clear_range add_at
add_score now n s =
    let (t, time) = wrap now s in
    record t {
      slots = add_at time n (clear_range t.iterator (suc time - t.iterator) t.slots);
      iterator = time;
    }

pub record Filter : Type 0 where
  pub started : ℕ
  pub bantime : ℕ
  pub totalbans : ℕ
  pub requests : Score
  pub connections : Score

unfoldable pub new_filter : ℕ → ℕ → Filter
unfolding new_score
new_filter timespan now = record {
  started = 0;
  bantime = 0;
  totalbans = 0;
  requests = new_score timespan now;
  connections = new_score timespan now;
}

-- `Banned()`.
pub banned : ℕ → Filter → Bool
unfolding elapsed
banned now f = ltb (elapsed now f.started) f.bantime

-- `BANTIME`, in `unsigned int`s.
pub ban_seconds : ℕ → ℕ → ℕ → ℕ
ban_seconds totalbans requests connections =
    max (u32 (u32 (totalbans * u32 (requests + 1)) * u32 (connections + 1)))
      (u32 (totalbans * 1200))

-- `Ban`. A filter that is banned stays as it is.
pub ban : ℕ → Filter → Filter
unfolding banned ban_seconds flush score
ban now f =
    if banned now f
    then f
    else (let totalbans = u32 (f.totalbans + 1) in
        record {
          started = now;
          bantime = ban_seconds totalbans (score f.requests) (score f.connections);
          totalbans = totalbans;
          requests = flush now f.requests;
          connections = flush now f.connections;
        })
