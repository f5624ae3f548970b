-- ===== src/Prelude/Texts.antt =====
-- Tests of equality between texts, as equations and back.
use Prim.Native.String.{String}
use mathlib.Core.Path.{◌≡◌}
use mathlib.Core.Logic.{◌≢◌, inl, inr}
use mathlib.Core.Bool.{true, false}
use text.Mathlib.Text.{◌==◌}
use text.Mathlib.TextEquality.{eq_iff}
use ai_customer_support_plat.Prelude.Tests.{Bool-cases}

pub test_true : {s t : String} → s ≡ t → (s == t) ≡ true
test_true {s} {t} e = (eq_iff s t).1 e

pub test_false : {s t : String} → s ≢ t → (s == t) ≡ false
test_false {s} {t} n = elim (Bool-cases (s == t)) [
  | inl e ↦ absurd (n ((eq_iff s t).0 e))
  | inr e ↦ e
]

pub tested_ne : {s t : String} → (s == t) ≡ false → s ≢ t
tested_ne {s} {t} e p = cc (test_true p)

-- A text that is `t` is none of the texts that differ from `t`.
pub test_apart : {s t : String} (u : String) → s ≡ t → (t == u) ≡ false → (s == u) ≡ false
test_apart u e n = rw e n
