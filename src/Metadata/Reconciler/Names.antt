-- ===== src/Metadata/Reconciler/Names.antt =====
-- The names of conflict copies (crates/tusher-metadata/src/reconciler.rs), which all hold the words
-- that the dashboard looks for.
use t_u_s_h_e_r.Base.{
  ◌≡◌, refl, sym, ap, ◌∙◌, true, Option, none, some, [], ◌∷◌, ◌++◌, arith, ◌==◌, if◌then◌else◌,
  nat_eq, bytes_eq, Bool-cases, inl, inr, ok, >>=-eq-ok,
}
use t_u_s_h_e_r.Base.Cuts.{append_assoc}
use mathlib.Core.Path.{subst}
use t_u_s_h_e_r.Base.Int.{ℤ}
use t_u_s_h_e_r.Base.Text.{
  Text, ascii, slash, backslash, replace, trim_start_matches, starts_with, contains,
}
use t_u_s_h_e_r.Core.Types.{NodeId}
use t_u_s_h_e_r.Metadata.Db.{normalize_path}
use t_u_s_h_e_r.Base.FilePath.{parent, file_stem, extension}
use t_u_s_h_e_r.Metadata.Reconciler.{unwrap_or, conflict_name, short_node, generate_conflict_path}

abbrev pub marker : Text
marker = ascii "(Conflict -"

starts_with-append : (p s : Text) → starts_with p (p ++ s) ≡ true
unfolding starts_with
starts_with-append [] s = refl
starts_with-append (c ∷ p) s = ground (arith, starts_with-append p s)

-- A part stands in a text around it.
pub contains-append : (a p s : Text) → contains p (a ++ (p ++ s)) ≡ true
unfolding contains
contains-append [] [] [] = ground (arith, starts_with-append [] [])
contains-append [] [] (c ∷ s) = ground (arith, starts_with-append [] (c ∷ s))
contains-append [] (c ∷ p) s = ground (arith, starts_with-append (c ∷ p) s)
contains-append (c ∷ a) p s = ground (arith, contains-append a p s)

-- A text with the marker in it.
abbrev pub Marked : Text → Type 0
Marked t = (a : Text) × (s : Text) × (t ≡ a ++ (marker ++ s))

replace-append :
    (a b : Text)
    → replace backslash slash (a ++ b) ≡ replace backslash slash a ++ replace backslash slash b
unfolding replace
replace-append [] b = refl
replace-append (c ∷ a) b = ap (◌∷◌ (if c == backslash then slash else c)) (replace-append a b)

trim_start_matches-Marked : (a s : Text) → Marked (trim_start_matches slash (a ++ (marker ++ s)))
unfolding trim_start_matches nat_eq
trim_start_matches-Marked [] s = ([], s, refl)
trim_start_matches-Marked (c ∷ a) s = elim (Bool-cases (c == slash)) [
  | inl e ↦ rw e (trim_start_matches-Marked a s)
  | inr e ↦ rw e (c ∷ a, s, refl)
]

pub normalize_path-Marked : (t : Text) → Marked t → Marked (normalize_path t)
unfolding normalize_path replace nat_eq
normalize_path-Marked t (a, s, e) =
    subst (λ u. Marked (trim_start_matches slash (replace backslash slash u))) (sym e)
      (rw (replace-append a (marker ++ s))
        (trim_start_matches-Marked (replace backslash slash a) (replace backslash slash s)))

Marked-append : (b t : Text) → Marked t → Marked (b ++ t)
Marked-append b t (a, s, e) = (b ++ a, s, ap (λ u. b ++ u) e ∙ sym (append_assoc b a (marker ++ s)))

conflict_name-Marked :
    (stem short time : Text) (ext : Option Text) → Marked (conflict_name stem short time ext)
conflict_name-Marked stem short time none =
    let rest = short ++ (ascii " " ++ (time ++ ascii ")")) in
    Marked-append stem (32 ∷ (marker ++ (32 ∷ rest))) (32 ∷ [], 32 ∷ rest, refl)
conflict_name-Marked stem short time (some ext) =
    let rest = short ++ (ascii " " ++ (time ++ (ascii ")." ++ ext))) in
    Marked-append stem (32 ∷ (marker ++ (32 ∷ rest))) (32 ∷ [], 32 ∷ rest, refl)

pub generate_conflict_path-Marked :
    (format_time : ℤ → Text) (path : Text) (origin : NodeId) (at : ℤ) (t : Text)
    → generate_conflict_path format_time path origin at ≡ ok t
    → Marked t
unfolding generate_conflict_path
generate_conflict_path-Marked format_time path origin at t h =
    let dir = unwrap_or (parent path) [] in
    let (short, _, e) = >>=-eq-ok (short_node origin) _ h in
    let name =
      conflict_name (unwrap_or (file_stem path) (ascii "file")) short (format_time at)
        (extension path) in
    let marked : Marked name =
      conflict_name-Marked (unwrap_or (file_stem path) (ascii "file")) short (format_time at)
        (extension path) in
    elim (Bool-cases (dir == [])) [
      | inl f ↦ let same : name ≡ t = ground arith in subst Marked same marked
      | inr f ↦
          let same : replace backslash slash dir ++ (slash ∷ name) ≡ t = ground arith in
          subst Marked same (
            Marked-append (replace backslash slash dir) (slash ∷ name)
              (Marked-append (slash ∷ []) name marked))
    ]
