-- ===== src/Base/Text.antt =====
-- The equality test of texts.
use Prim.Native.String.{String}
use mathlib.Core.Bool.{Bool, true, false}
use mathlib.Core.Logic.{◌≢◌, inl, inr}
use mathlib.Core.Path.{◌≡◌, refl, sym, ap, ◌∙◌}
use native.Mathlib.Omega.{arith}
use proton_sdk_rs.Base.Tests.{Bool-cases}
use text.Mathlib.Text.{◌==◌ as text_eq}
use text.Mathlib.TextEquality.{eq_iff}

abbrev pub str_eq : String → String → Bool
str_eq = text_eq

pub str_eq→eq : (s t : String) → str_eq s t ≡ true → s ≡ t
str_eq→eq s t h = let (to, from) = eq_iff s t in to h

pub str_eq_refl : (s : String) → str_eq s s ≡ true
str_eq_refl s = let (to, from) = eq_iff s s in from refl

pub ne→str_eq : (s t : String) → s ≢ t → str_eq s t ≡ false
ne→str_eq s t h = elim (Bool-cases (str_eq s t)) [
  | inl same ↦ absurd (h (str_eq→eq s t same))
  | inr different ↦ different
]

pub str_eq_sym : (s t : String) → str_eq s t ≡ false → str_eq t s ≡ false
str_eq_sym s t h = ne→str_eq t s (λ e.
    let same : str_eq s s ≡ str_eq s t = ap (str_eq s) (sym e) in
    absurd (ground (arith, str_eq_refl s)))

-- Equal texts compare alike.
pub str_eq_same : (s t u : String) → str_eq s t ≡ true → str_eq s u ≡ str_eq t u
str_eq_same s t u h = ap (λ x. str_eq x u) (str_eq→eq s t h)

-- A text that equals one of two different texts differs from the other.
pub str_eq_apart : (s t u : String) → str_eq s t ≡ false → str_eq s u ≡ true → str_eq t u ≡ false
str_eq_apart s t u differ h =
    let same : str_eq s t ≡ str_eq u t = str_eq_same s u t h in str_eq_sym u t (sym same ∙ differ)
