-- ===== src/Base/Words/Spaced.antt =====
-- The words of a line of ASCII.
use t_u_s_h_e_r.Base.{
  ℕ, zero, suc, ◌≤◌, ◌<◌, ◌≡◌, refl, sym, ap, ◌∙◌, ◌≢◌, true, false, List, [], ◌∷◌, ◌++◌, map,
  arith, All, All-append, replicate, if◌then◌else◌, ◌==◌, nat_eq, bytes_eq, Bool-cases, inl, inr,
}
use t_u_s_h_e_r.Base.Cuts.{append_assoc, append-nil}
use t_u_s_h_e_r.Base.Text.{Text}
use t_u_s_h_e_r.Base.Words.{
  is_ascii_white, wide_len, white_len, drop_white, trim_start, trim_end, trim, blank, split_blank,
  split_whitespace,
}

abbrev pub IsAscii : Text → Type 0
IsAscii s = All (λ c. c < 128) s

-- A word of visible characters.
abbrev pub IsWord : Text → Type 0
IsWord w = (w ≢ []) × All (λ c. (33 ≤ c) × (c < 127)) w

whiten : Text → Text
whiten [] = []
whiten (c ∷ s) = (if is_ascii_white c then 32 else c) ∷ whiten s

wide_len_ascii : (c : ℕ) (s : Text) → c < 128 → wide_len c s ≡ 0
unfolding wide_len
wide_len_ascii c [] h = refl
wide_len_ascii c (b ∷ []) h = ground arith
wide_len_ascii c (b ∷ d ∷ s) h = ground arith

white_len_white : (c : ℕ) (s : Text) → is_ascii_white c ≡ true → white_len (c ∷ s) ≡ 1
unfolding white_len
white_len_white c s e = rw e refl

white_len_visible : (c : ℕ) (s : Text) → c < 128 → is_ascii_white c ≡ false → white_len (c ∷ s) ≡ 0
unfolding white_len
white_len_visible c s h e = rw e (wide_len_ascii c s h)

split_blank-nil : (s : Text) → split_blank [] (32 ∷ s) ≡ split_blank [] s
unfolding split_blank nat_eq bytes_eq
split_blank-nil s = refl

split_blank-space : (w s : Text) → w ≢ [] → split_blank w (32 ∷ s) ≡ w ∷ split_blank [] s
unfolding split_blank nat_eq
split_blank-space w s h = ground (arith, h)

split_blank-visible :
    (w : Text) (c : ℕ) (s : Text)
    → is_ascii_white c ≡ false
    → split_blank w (c ∷ s) ≡ split_blank (w ++ (c ∷ [])) s
unfolding split_blank
split_blank-visible w c s e = ground arith

whiten-white : (c : ℕ) (s : Text) → is_ascii_white c ≡ true → whiten (c ∷ s) ≡ 32 ∷ whiten s
unfolding whiten
whiten-white c s e = rw e refl

whiten-visible : (c : ℕ) (s : Text) → is_ascii_white c ≡ false → whiten (c ∷ s) ≡ c ∷ whiten s
unfolding whiten
whiten-visible c s e = rw e refl

blank-whiten : (s : Text) → IsAscii s → blank 0 s ≡ whiten s
unfolding blank whiten
blank-whiten [] h = refl
blank-whiten (c ∷ s) (hc, h) = elim (Bool-cases (is_ascii_white c)) [
  | inl e ↦
      rw (whiten-white c s e) (rw (white_len_white c s e, blank) (ap (◌∷◌ 32) (blank-whiten s h)))
  | inr e ↦
      rw (whiten-visible c s e)
        (rw (white_len_visible c s hc e, blank) (ap (◌∷◌ c) (blank-whiten s h)))
]

drop_white-cons_white :
    (c : ℕ) (s : Text) → is_ascii_white c ≡ true → drop_white 0 (c ∷ s) ≡ drop_white 0 s
unfolding drop_white
drop_white-cons_white c s e = rw (white_len_white c s e, drop_white) refl

drop_white-cons_visible :
    (c : ℕ) (s : Text) → c < 128 → is_ascii_white c ≡ false → drop_white 0 (c ∷ s) ≡ c ∷ s
unfolding drop_white
drop_white-cons_visible c s h e = rw (white_len_visible c s h e, drop_white) refl

split_blank-drop_white :
    (s : Text)
    → IsAscii s
    → (split_blank [] (whiten (drop_white 0 s)) ≡ split_blank [] (whiten s))
      × IsAscii (drop_white 0 s)
unfolding drop_white
split_blank-drop_white [] h = (refl, tt)
split_blank-drop_white (c ∷ s) (hc, h) = elim (Bool-cases (is_ascii_white c)) [
  | inl e ↦
      let (same, ascii') = split_blank-drop_white s h in
      rw (drop_white-cons_white c s e, whiten-white c s e, split_blank-nil (whiten s))
        (same, ascii')
  | inr e ↦ rw (drop_white-cons_visible c s hc e) (refl, (hc, h))
]

split_blank-only_white :
    (s : Text) → IsAscii s → drop_white 0 s ≡ [] → split_blank [] (whiten s) ≡ []
unfolding split_blank whiten bytes_eq
split_blank-only_white s h e =
    let (same, k) = split_blank-drop_white s h in sym same ∙ ap (λ t. split_blank [] (whiten t)) e

split_blank-blank_end :
    (w s : Text) → IsAscii s → drop_white 0 s ≡ [] → split_blank w (whiten s) ≡ split_blank w []
unfolding split_blank whiten
split_blank-blank_end w [] h e = refl
split_blank-blank_end w (c ∷ s) (hc, h) e = elim (Bool-cases (is_ascii_white c)) [
  | inl f ↦
      let rest = split_blank-only_white s h (sym (drop_white-cons_white c s f) ∙ e) in
      ground (arith, rest, f)
  | inr f ↦ let stays = drop_white-cons_visible c s hc f in absurd (cc (stays, e))
]

-- What is read before the same character does not matter.
split_blank-cons :
    (w : Text) (c : ℕ) (s t : Text)
    → ((v : Text) → split_blank v s ≡ split_blank v t)
    → split_blank w (c ∷ s) ≡ split_blank w (c ∷ t)
unfolding split_blank
split_blank-cons w c s t h = ground (arith, h [], h (w ++ (c ∷ [])))

split_blank-trim_end :
    (s : Text)
    → IsAscii s
    → (w : Text) → split_blank w (whiten (trim_end s)) ≡ split_blank w (whiten s)
unfolding trim_end trim_start whiten
split_blank-trim_end [] h w = refl
split_blank-trim_end (c ∷ s) (hc, h) w = elim (Bool-cases (drop_white 0 (c ∷ s) == [])) [
  | inl e ↦ rw (e, trim_end) (sym (split_blank-blank_end w (c ∷ s) (hc, h) (ground arith)))
  | inr e ↦
      rw (e, trim_end)
        (split_blank-cons w (if is_ascii_white c then 32 else c) _ _ (split_blank-trim_end s h))
]

trim_end-IsAscii : (s : Text) → IsAscii s → IsAscii (trim_end s)
unfolding trim_end
trim_end-IsAscii [] h = tt
trim_end-IsAscii (c ∷ s) (hc, h) = elim (Bool-cases (trim_start (c ∷ s) == [])) [
  | inl e ↦ rw (e, trim_end) tt
  | inr e ↦ rw (e, trim_end) (hc, trim_end-IsAscii s h)
]

-- Of an ASCII text, `trim` does not change the words.
split_whitespace-trim :
    (s : Text) → IsAscii s → split_whitespace (trim s) ≡ split_blank [] (whiten s)
unfolding split_whitespace trim trim_start
split_whitespace-trim s h =
    let (same, k) = split_blank-drop_white s h in
    ap (split_blank []) (blank-whiten (trim_end (drop_white 0 s)) (trim_end-IsAscii _ k))
    ∙ split_blank-trim_end (drop_white 0 s) k []
    ∙ same

-- Each word with more than `n` spaces before it, and `e` spaces at the end.
abbrev pub spell : List (ℕ × Text) → ℕ → Text
spell [] e = replicate e 32
spell ((n, w) ∷ words) e = replicate (suc n) 32 ++ (w ++ spell words e)

whiten-spaces : (n : ℕ) (s : Text) → whiten (replicate n 32 ++ s) ≡ replicate n 32 ++ whiten s
unfolding whiten nat_eq
whiten-spaces zero s = refl
whiten-spaces (suc n) s = ap (◌∷◌ 32) (whiten-spaces n s)

split_blank-spaces : (n : ℕ) (s : Text) → split_blank [] (replicate n 32 ++ s) ≡ split_blank [] s
split_blank-spaces zero s = refl
split_blank-spaces (suc n) s = split_blank-nil (replicate n 32 ++ s) ∙ split_blank-spaces n s

split_blank-word :
    (acc w rest : Text)
    → All (λ c. (33 ≤ c) × (c < 127)) w
    → split_blank acc (whiten (w ++ rest)) ≡ split_blank (acc ++ w) (whiten rest)
split_blank-word acc [] rest h = rw (append-nil acc) refl
split_blank-word acc (c ∷ w) rest (hc, h) =
    let visible : is_ascii_white c ≡ false = ground arith in
    rw (whiten-visible c (w ++ rest) visible) (
      split_blank-visible acc c (whiten (w ++ rest)) visible
      ∙ split_blank-word (acc ++ (c ∷ [])) w rest h
      ∙ ap (λ v. split_blank v (whiten rest)) (append_assoc acc (c ∷ []) w))

split_blank_first_word :
    (n : ℕ) (w rest : Text) {l : List Text}
    → IsWord w
    → split_blank w (whiten rest) ≡ l
    → split_blank [] (whiten (replicate n 32 ++ (w ++ rest))) ≡ l
split_blank_first_word n w rest (some', visible) h =
    ap (split_blank []) (whiten-spaces n (w ++ rest))
    ∙ split_blank-spaces n (whiten (w ++ rest))
    ∙ split_blank-word [] w rest visible
    ∙ h

split_blank_last_spaces : (e : ℕ) → split_blank [] (whiten (replicate e 32)) ≡ []
unfolding whiten nat_eq split_blank bytes_eq
split_blank_last_spaces zero = refl
split_blank_last_spaces (suc e) = split_blank_last_spaces e

split_blank_end : (w : Text) → w ≢ [] → split_blank w [] ≡ w ∷ []
unfolding split_blank
split_blank_end w h = ground (arith, h)

split_blank-spell :
    (words : List (ℕ × Text)) (e : ℕ) (acc : Text)
    → acc ≢ []
    → All (λ (n, w). IsWord w) words
    → split_blank acc (whiten (spell words e)) ≡ acc ∷ map (λ (n, w). w) words
unfolding whiten nat_eq
split_blank-spell [] zero acc h k = split_blank_end acc h
split_blank-spell [] (suc e) acc h k =
    split_blank-space acc (whiten (replicate e 32)) h ∙ ap (◌∷◌ acc) (split_blank_last_spaces e)
split_blank-spell ((n, w) ∷ words) e acc h (hw, k) =
    split_blank-space acc (whiten (replicate n 32 ++ (w ++ spell words e))) h
    ∙ ap (◌∷◌ acc)
        (split_blank_first_word n w (spell words e) hw (split_blank-spell words e w hw.0 k))

replicate-IsAscii : (n : ℕ) → IsAscii (replicate n 32)
replicate-IsAscii zero = tt
replicate-IsAscii (suc n) = (omega arith, replicate-IsAscii n)

IsWord-IsAscii : (w : Text) → All (λ c. (33 ≤ c) × (c < 127)) w → IsAscii w
IsWord-IsAscii [] h = tt
IsWord-IsAscii (c ∷ w) (hc, h) = (omega arith, IsWord-IsAscii w h)

spell-IsAscii :
    (words : List (ℕ × Text)) (e : ℕ) → All (λ (n, w). IsWord w) words → IsAscii (spell words e)
spell-IsAscii [] e h = replicate-IsAscii e
spell-IsAscii ((n, w) ∷ words) e (hw, h) =
    All-append (λ c. c < 128) (replicate (suc n) 32) (w ++ spell words e)
      (replicate-IsAscii (suc n))
      (All-append (λ c. c < 128) w (spell words e) (IsWord-IsAscii w hw.1)
        (spell-IsAscii words e h))

-- A line of words of visible ASCII characters, with any spaces around them, is read as these words.
pub split_whitespace-spell :
    (n : ℕ) (w : Text) (words : List (ℕ × Text)) (e : ℕ)
    → IsWord w
    → All (λ (k, v). IsWord v) words
    → split_whitespace (trim (replicate n 32 ++ (w ++ spell words e))) ≡ w ∷ map (λ (k, v). v) words
split_whitespace-spell n w words e h hs =
    split_whitespace-trim (replicate n 32 ++ (w ++ spell words e)) (
      All-append (λ c. c < 128) (replicate n 32) (w ++ spell words e) (replicate-IsAscii n)
        (All-append (λ c. c < 128) w (spell words e) (IsWord-IsAscii w h.1)
          (spell-IsAscii words e hs)))
    ∙ split_blank_first_word n w (spell words e) h (split_blank-spell words e w h.0 hs)
