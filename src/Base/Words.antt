-- ===== src/Base/Words.antt =====
-- `trim` and `split_whitespace` of Rust's strings, on UTF-8 bytes.
pub mod Spaced
use Prim.Native.Nat.{ℕ, zero, suc}
use mathlib.Core.Path.{◌≡◌, refl, sym, ◌∙◌}
use mathlib.Core.Bool.{Bool, true, false, ◌&&◌, ◌||◌}
use mathlib.Core.List.{List, [], ◌∷◌, ◌++◌}
use t_u_s_h_e_r.Base.Equality.{if◌then◌else◌, ◌==◌, nat_eq, bytes_eq, leb, ltb, Bool-cases}
use t_u_s_h_e_r.Base.Text.{Text}

-- White space of one byte.
abbrev pub is_ascii_white : ℕ → Bool
is_ascii_white c = leb 9 c && leb c 13 || c == 32

-- The length of the wide white space that starts with a byte, 0 if none does.
unfoldable pub wide_len : ℕ → Text → ℕ
wide_len a [] = 0
wide_len a (b ∷ []) = if a == 194 && (b == 133 || b == 160) then 2 else 0
wide_len a (b ∷ c ∷ s) =
    if a == 194 && (b == 133 || b == 160)
    then 2
    else if a == 225 && b == 154 && c == 128
        || a == 226 && b == 128 && leb 128 c && leb c 138
        || a == 226 && b == 128 && (c == 168 || c == 169 || c == 175)
        || a == 226 && b == 129 && c == 159
        || a == 227 && b == 128 && c == 128
    then 3
    else 0

-- The length of the white space at the start of a text, 0 if there is none.
unfoldable pub white_len : Text → ℕ
unfolding wide_len
white_len [] = 0
white_len (c ∷ s) = if is_ascii_white c then 1 else wide_len c s

-- A text without the white space at its start, `k` bytes of which are still to come.
unfoldable pub drop_white : ℕ → Text → Text
unfolding white_len
drop_white k [] = []
drop_white (suc k) (c ∷ s) = drop_white k s
drop_white zero (c ∷ s) = elim (white_len (c ∷ s)) [ zero ↦ c ∷ s | suc k ↦ drop_white k s ]

unfoldable pub trim_start : Text → Text
unfolding drop_white
trim_start s = drop_white 0 s

-- Cuts where only white space follows: no byte inside of a character starts any.
unfoldable pub trim_end : Text → Text
unfolding trim_start
trim_end [] = []
trim_end (c ∷ s) = let rest = trim_end s in if trim_start (c ∷ s) == [] then [] else c ∷ rest

unfoldable pub trim : Text → Text
unfolding trim_end
trim s = trim_end (trim_start s)

-- Every white space as one space, `k` bytes of one being still to come.
unfoldable pub blank : ℕ → Text → Text
unfolding white_len
blank k [] = []
blank (suc k) (c ∷ s) = blank k s
blank zero (c ∷ s) = elim (white_len (c ∷ s)) [ zero ↦ c ∷ blank 0 s | suc k ↦ 32 ∷ blank k s ]

-- The parts between spaces that are not empty, `word` having been read.
unfoldable pub split_blank : Text → Text → List Text
split_blank word [] = if word == [] then [] else word ∷ []
split_blank word (c ∷ s) =
    let next = split_blank [] s in
    let longer = split_blank (word ++ (c ∷ [])) s in
    if c == 32 then (if word == [] then next else word ∷ next) else longer

unfoldable pub split_whitespace : Text → List Text
unfolding blank split_blank
split_whitespace s = split_blank [] (blank 0 s)
