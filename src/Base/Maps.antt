-- ===== src/Base/Maps.antt =====
-- `HashMap` with texts as keys, and the files of a disk by their paths, as lookup functions.
use mathlib.Core.Option.{Option, none, some}
use t_u_s_h_e_r.Base.Equality.{if◌then◌else◌, ◌==◌, bytes_eq}
use t_u_s_h_e_r.Base.Text.{Text}

abbrev pub Map {ℓ} : Type ℓ → Type ℓ
Map V = Text → Option V

module _ {ℓ} {V : Type ℓ} where
  abbrev pub empty : Map V
  empty = λ k. none

  abbrev pub insert : Text → V → Map V → Map V
  insert k v m = λ j. if j == k then some v else m j

  abbrev pub remove : Text → Map V → Map V
  remove k m = λ j. if j == k then none else m j
