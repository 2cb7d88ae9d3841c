-- ===== src/Banlist/Tests.antt =====
-- Runs of the banned lists (src/util.cpp).
use prime_pool_deprecated.Common.{◌≡◌, refl, true, not, ◌||◌, [], ◌∷◌, ◌==◌, length}
use prime_pool_deprecated.Bytes.{u32}
use prime_pool_deprecated.Banlist.{File, Banlist, get_lines, save, find, is_banned}
use prime_pool_deprecated.Banlist.Sticky.{reload, ban_sticks, is_banned-save}

abbrev unread : Banlist
unread = record { lines = []; last_mod = 0 }

abbrev two_lines : File
two_lines = record { modified = 5; text = 65 ∷ 10 ∷ 66 ∷ 66 ∷ 10 ∷ [] }

abbrev emptied : File
emptied = record { modified = 9; text = [] }

get_lines_test : get_lines (65 ∷ 10 ∷ 10 ∷ 66 ∷ []) [] ≡ (65 ∷ []) ∷ [] ∷ (66 ∷ []) ∷ []
unfolding get_lines
get_lines_test = refl

listed_test : (is_banned two_lines (66 ∷ 66 ∷ []) unread).0 ≡ true
unfolding is_banned
listed_test = refl

ban_sticks_example :
    (is_banned emptied
      (66 ∷ 66 ∷ [])
      (reload (emptied ∷ []) (is_banned two_lines (66 ∷ 66 ∷ []) unread).1)).0
    ≡ true
ban_sticks_example = ban_sticks two_lines (emptied ∷ []) emptied (66 ∷ 66 ∷ []) unread listed_test

is_banned-save_example :
    (is_banned (save 7 (67 ∷ []) two_lines) (67 ∷ []) unread).0
    ≡ (find (67 ∷ []) unread.lines || (length unread.lines == 0 || not (u32 7 == unread.last_mod)))
is_banned-save_example =
    is_banned-save 7 (67 ∷ []) two_lines ((65 ∷ []) ∷ (66 ∷ 66 ∷ []) ∷ []) unread refl
      ((refl, tt), ((refl, (refl, tt)), tt)) (refl, tt)
