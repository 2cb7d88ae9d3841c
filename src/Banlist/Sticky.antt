-- ===== src/Banlist/Sticky.antt =====
-- How long an address stays on its list (src/util.cpp).
use prime_pool_deprecated.Common.{
  ℕ, ◌≡◌, refl, sym, ap, ◌∙◌, inl, inr, true, false, not, ◌||◌, List, [], ◌∷◌, ◌++◌, arith, All,
  Bool-cases, ◌==◌, length, append_assoc, append-nil,
}
use prime_pool_deprecated.Common.Order.{bytes_order}
use prime_pool_deprecated.Common.StdMap.{same_key_refl}
use prime_pool_deprecated.Bytes.{u32}
use prime_pool_deprecated.Banlist.{File, get_lines, Banlist, load, save, find, is_banned}

find-append : (a : List ℕ) (xs ys : List (List ℕ)) → find a (xs ++ ys) ≡ find a xs || find a ys
find-append a [] ys = refl
find-append a (x ∷ xs) ys = ground (arith, find-append a xs ys)

-- The files at some later calls.
abbrev pub reload : List File → Banlist → Banlist
reload [] b = b
reload (file ∷ files) b = reload files (load file b)

load-find :
    (a : List ℕ) (file : File) (b : Banlist)
    → find a b.lines ≡ true
    → find a (load file b).lines ≡ true
unfolding load
load-find a file b h = ground (arith, find-append a b.lines (get_lines file.text []))

-- An address that has been found banned is found banned by every later call, whatever the file
-- holds by then.
pub ban_sticks :
    (first : File) (files : List File) (last : File) (a : List ℕ) (b : Banlist)
    → (is_banned first a b).0 ≡ true
    → (is_banned last a (reload files (is_banned first a b).1)).0 ≡ true
unfolding is_banned
ban_sticks first files last a b h =
    load-find a last (reload files (load first b)) (kept files (load first b) h)
  where
    kept :
        (files : List File) (b : Banlist)
        → find a b.lines ≡ true
        → find a (reload files b).lines ≡ true
    kept [] b h = h
    kept (file ∷ files) b h = kept files (load file b) (load-find a file b h)

-- An address is a line of its own: it has no line feed, and is not empty.
abbrev pub IsLine : List ℕ → Type 0
IsLine a = All (λ (c : ℕ). (c == 10) ≡ false) a

get_lines-line :
    (a rest line : List ℕ)
    → IsLine a
    → get_lines (a ++ 10 ∷ rest) line ≡ (line ++ a) ∷ get_lines rest []
unfolding get_lines
get_lines-line [] rest line h = ap (λ (l : List ℕ). l ∷ get_lines rest []) (sym (append-nil line))
get_lines-line (c ∷ a) rest line (h, hs) = rw h (
    get_lines-line a rest (line ++ c ∷ []) hs
    ∙ ap (λ (l : List ℕ). l ∷ get_lines rest []) (append_assoc line (c ∷ []) a))

-- The text of some lines.
abbrev pub text_of : List (List ℕ) → List ℕ
text_of [] = []
text_of (a ∷ lines) = a ++ 10 ∷ text_of lines

get_lines-text_of :
    (lines : List (List ℕ)) (a : List ℕ)
    → All IsLine lines
    → IsLine a
    → get_lines (text_of lines ++ (a ++ 10 ∷ [])) [] ≡ lines ++ a ∷ []
get_lines-text_of [] a h l = get_lines-line a [] [] l ∙ unfold get_lines in refl
get_lines-text_of (x ∷ lines) a (h, hs) l =
    ap (λ (t : List ℕ). get_lines t []) (append_assoc x (10 ∷ text_of lines) (a ++ 10 ∷ []))
    ∙ get_lines-line x (text_of lines ++ (a ++ 10 ∷ [])) [] h
    ∙ ap (◌∷◌ x) (get_lines-text_of lines a hs l)

find_last : (a : List ℕ) (lines : List (List ℕ)) → find a (lines ++ a ∷ []) ≡ true
find_last a lines = find-append a lines (a ∷ []) ∙ rw (same_key_refl a) (ground arith)

-- An address that has just been saved to a file of whole lines is found banned exactly if it was
-- in the list, the list is empty, or the time of the file is not that of the last load.
pub is_banned-save :
    (now : ℕ) (a : List ℕ) (file : File) (lines : List (List ℕ)) (b : Banlist)
    → file.text ≡ text_of lines
    → All IsLine lines
    → IsLine a
    → (is_banned (save now a file) a b).0
      ≡ (find a b.lines || (length b.lines == 0 || not (u32 now == b.last_mod)))
unfolding is_banned load save
is_banned-save now a file lines b e h l =
    elim (Bool-cases (length b.lines == 0 || not (u32 now == b.last_mod))) [
      | inl again ↦
          rw (again, e, get_lines-text_of lines a h l)
            (find-append a b.lines (lines ++ a ∷ []) ∙ rw (find_last a lines) refl)
      | inr kept ↦ rw kept (ground arith)
    ]
