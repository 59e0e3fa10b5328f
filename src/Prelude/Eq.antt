-- ===== src/Prelude/Eq.antt =====
-- Boolean equality as an interface, with the instances for numbers and texts.
use Prim.Native.Nat.{ℕ, compare, Ordering}
use Prim.Native.String.{String}
use mathlib.Core.Path.{◌≡◌, refl}
use mathlib.Core.Logic.{◌↔◌}
use mathlib.Core.Bool.{Bool, true, false}
use native.Mathlib.Omega.{arith}
use text.Mathlib.Text.{◌==◌ as text_eqb}
use text.Mathlib.TextEquality.{eq_iff as text_eqb_iff}

-- A test that holds of equal items, and of them alone.
pub record Eq {κ} (T : Type κ) : Type κ where
  pub eqb : T → T → Bool
  pub sound : (x y : T) → eqb x y ≡ true → x ≡ y
  pub reflexive : (x : T) → eqb x x ≡ true

abbrev pub nat_eqb : ℕ → ℕ → Bool
nat_eqb m n = elim (compare m n) [ Ordering.lt ↦ false | Ordering.eq ↦ true | Ordering.gt ↦ false ]

pub nat_sound : (m n : ℕ) → nat_eqb m n ≡ true → m ≡ n
nat_sound m n h = ground arith

pub nat_reflexive : (n : ℕ) → nat_eqb n n ≡ true
nat_reflexive n = ground arith

instance abbrev pub string_eq : Eq String
string_eq = record {
  eqb = text_eqb;
  sound = λ x y. (text_eqb_iff x y).0;
  reflexive = λ x. (text_eqb_iff x x).1 refl;
}

instance abbrev pub nat_eq : Eq ℕ
nat_eq = record { eqb = nat_eqb; sound = nat_sound; reflexive = nat_reflexive }

abbrev pub ◌==◌ {κ} : {T : Type κ} ⦃d : Eq T⦄ → T → T → Bool
◌==◌ ⦃d⦄ = d.eqb

infix 50 ◌==◌
module _ {κ} {T : Type κ} ⦃d : Eq T⦄ where
  pub ==_refl : (x : T) → (x == x) ≡ true
  ==_refl x = d.reflexive x

  pub ==_iff : (x y : T) → ((x == y) ≡ true) ↔ (x ≡ y)
  ==_iff x y = (d.sound x y, λ same. rw same (d.reflexive y))
