-- ===== src/Banlist.antt =====
-- The lists of banned addresses and accounts (src/util.cpp), which are read from a file again when its
-- time of modification has changed. A file is that time and its bytes.
pub mod Sticky
mod Tests
use prime_pool_deprecated.Common.{
  ℕ, Bool, false, not, ◌||◌, List, [], ◌∷◌, ◌++◌, ◌==◌, if◌then◌else◌, length,
}
use prime_pool_deprecated.Common.Order.{bytes_order}
use prime_pool_deprecated.Common.StdMap.{same_key}
use prime_pool_deprecated.Bytes.{u32}

pub record File : Type 0 where
  pub modified : ℕ
  pub text : List ℕ

-- The loop of `std::getline`, with the line so far: the last one needs no line feed, if it is not
-- empty.
pub get_lines : List ℕ → List ℕ → List (List ℕ)
get_lines [] [] = []
get_lines [] (c ∷ line) = (c ∷ line) ∷ []
get_lines (c ∷ text) line =
    let fresh = get_lines text [] in
    let longer = get_lines text (line ++ c ∷ []) in if c == 10 then line ∷ fresh else longer

-- `BANNED_IP_ADDRESSES` and `BANNED_IP_ADDRESSES_LAST_MOD`
pub record Banlist : Type 0 where
  pub lines : List (List ℕ)
  pub last_mod : ℕ

-- `LoadBannedIPAddresses`, and `LoadBannedAccounts`, with the time as an `int`.
pub load : File → Banlist → Banlist
unfolding get_lines
load file b =
    if length b.lines == 0 || not (u32 file.modified == b.last_mod)
    then record { lines = b.lines ++ get_lines file.text []; last_mod = u32 file.modified }
    else b

-- `SaveBannedIPAddress` at a time.
pub save : ℕ → List ℕ → File → File
save now address file = record { modified = now; text = file.text ++ (address ++ 10 ∷ []) }

-- `std::find`
abbrev pub find : List ℕ → List (List ℕ) → Bool
find address [] = false
find address (line ∷ lines) = same_key line address || find address lines

-- `IsBannedIPAddress`, and `IsBannedAccount`
pub is_banned : File → List ℕ → Banlist → Bool × Banlist
unfolding load
is_banned file address b = let b' = load file b in (find address b'.lines, b')
