-- ===== src/Ddos/Bans.antt =====
-- How long a ban lasts.
use prime_pool_deprecated.Common.{ℕ, ◌+◌, ◌*◌, ◌≤◌, ◌<◌, ◌≡◌, true, false, arith}
use prime_pool_deprecated.Bytes.{IsU32}
use prime_pool_deprecated.Ddos.{Filter, elapsed, score, banned, ban_seconds, ban}
use prime_pool_deprecated.Ddos.Window.{IsScore, flush-IsScore, score-flush}

pub record IsFilter (f : Filter) : Type 0 where
  pub requests_valid : IsScore f.requests
  pub connections_valid : IsScore f.connections

pub ban-IsFilter : (now : ℕ) (f : Filter) → IsFilter f → IsFilter (ban now f)
unfolding ban
ban-IsFilter now f v = ground (
  arith,
  flush-IsScore now f.requests v.requests_valid,
  flush-IsScore now f.connections v.connections_valid,
)

ban_seconds-ge : (t r c : ℕ) → IsU32 (t * 1200) → t * 1200 ≤ ban_seconds t r c
unfolding ban_seconds
ban_seconds-ge t r c h = ground arith

-- A ban of a free filter holds for at least 1200 n seconds, with n the number of bans it then
-- counts, if that fits 32 bits, and both scores are 0 from its start.
pub ban_lasts :
    (f : Filter) (now later : ℕ)
    → banned now f ≡ false
    → IsU32 ((f.totalbans + 1) * 1200)
    → now ≤ later
    → later < now + (f.totalbans + 1) * 1200
    → (banned later (ban now f) ≡ true)
      × ((ban now f).totalbans ≡ f.totalbans + 1)
      × (score (ban now f).requests ≡ 0)
      × (score (ban now f).connections ≡ 0)
unfolding ban banned elapsed
ban_lasts f now later free fits h l = ground (
  arith,
  ban_seconds-ge (f.totalbans + 1) (score f.requests) (score f.connections),
  score-flush now f.requests,
  score-flush now f.connections,
)

pub ban_held : (now : ℕ) (f : Filter) → banned now f ≡ true → ban now f ≡ f
unfolding ban
ban_held now f e = ground arith

-- A second Ban within the 1200 n seconds of the first changes nothing.
pub ban_again :
    (f : Filter) (now later : ℕ)
    → banned now f ≡ false
    → IsU32 ((f.totalbans + 1) * 1200)
    → now ≤ later
    → later < now + (f.totalbans + 1) * 1200
    → ban later (ban now f) ≡ ban now f
ban_again f now later free fits h l =
    ban_held later (ban now f) (ban_lasts f now later free fits h l).0
