-- ===== src/Base/Text.antt =====
-- Rust's strings as their UTF-8 bytes, with the methods of `str` that the program calls.
use Prim.Native.Nat.{ℕ, ◌-◌}
use Prim.Native.Char.{code}
use Prim.Native.String.{String}
use mathlib.Core.Bool.{Bool, true, false, not, ◌&&◌, ◌||◌}
use mathlib.Core.List.{List, [], ◌∷◌}
use t_u_s_h_e_r.Base.Equality
use t_u_s_h_e_r.Base.Lists.{length, take, drop}
use t_u_s_h_e_r.Base.Results.{Outcome, ok, panic}
use t_u_s_h_e_r.Base.Equality.{if◌then◌else◌, ◌==◌, nat_eq, bytes_eq}

abbrev pub Text : Type 0
Text = List ℕ

-- The bytes of an ASCII literal.
abbrev pub ascii : String → Text
ascii String.[] = []
ascii (String.◌∷◌ c s) = code c ∷ ascii s

abbrev pub slash : ℕ
slash = 47

abbrev pub backslash : ℕ
backslash = 92

abbrev pub dot : ℕ
dot = 46

-- `s.replace(a, b)` for two ASCII characters.
unfoldable pub replace : ℕ → ℕ → Text → Text
replace a b [] = []
replace a b (c ∷ s) = (if c == a then b else c) ∷ replace a b s

-- `s.trim_start_matches(a)`
unfoldable pub trim_start_matches : ℕ → Text → Text
trim_start_matches a [] = []
trim_start_matches a (c ∷ s) = let rest = trim_start_matches a s in if c == a then rest else c ∷ s

-- `s.starts_with(prefix)`
unfoldable pub starts_with : Text → Text → Bool
starts_with [] s = true
starts_with (c ∷ prefix) [] = false
starts_with (c ∷ prefix) (d ∷ s) = if c == d then starts_with prefix s else false

-- `s.contains(part)`
unfoldable pub contains : Text → Text → Bool
unfolding starts_with
contains part [] = starts_with part []
contains part (c ∷ s) =
    let rest = contains part s in if starts_with part (c ∷ s) then true else rest

-- `s.ends_with(suffix)`
unfoldable pub ends_with : Text → Text → Bool
ends_with suffix s =
    Equality.leb (length suffix) (length s) && drop (length s - length suffix) s == suffix

-- Byte order, as SQLite's BINARY collation and Rust's `Ord` on strings have it.
unfoldable pub leb : Text → Text → Bool
leb [] t = true
leb (c ∷ s) [] = false
leb (c ∷ s) (d ∷ t) = let rest = leb s t in if c == d then rest else Equality.ltb c d

-- `s.is_char_boundary(n)`: no continuation byte stands at `n`.
unfoldable pub is_char_boundary : Text → ℕ → Bool
is_char_boundary s n = elim (drop n s) [
  | [] ↦ length s == n
  | b ∷ _ ↦ n == 0 || not (Equality.leb 128 b && Equality.ltb b 192)
]

-- `&s[..n]`, which panics inside a character and beyond the end.
unfoldable pub slice_to {ℓ} : {E : Type ℓ} → Text → ℕ → Outcome E Text
unfolding is_char_boundary
slice_to s n = if is_char_boundary s n then ok (take n s) else panic
