-- ===== src/Core/Json/Equality.antt =====
-- What the comparisons with a literal decide.
use Prim.Native.String.{String}
use cmm_routers.Prelude.{
  ℕ, Bool, true, false, Option, none, some, string_eq, nat_eq, ◌≡◌, ◌↔◌, refl, ap, arith, eq_of_==,
  ==_refl,
}
use cmm_routers.Core.Json.{Json, null, bool, num, decimal, str, arr, obj, is_str, is_num, is_bool}

pub is_num_iff : (v : Option Json) (n : ℕ) → (is_num v n ≡ true) ↔ (v ≡ some (num n))
is_num_iff none n = (λ h. cc, λ h. cc)
is_num_iff (some null) n = (λ h. cc, λ h. cc)
is_num_iff (some (bool b)) n = (λ h. cc, λ h. cc)
is_num_iff (some (num m)) n =
    (λ h. ap (λ k. some (num k)) (eq_of_== m n h), λ h. ground (arith, ==_refl n, h))
is_num_iff (some (decimal d)) n = (λ h. cc, λ h. cc)
is_num_iff (some (str s)) n = (λ h. cc, λ h. cc)
is_num_iff (some (arr xs)) n = (λ h. cc, λ h. cc)
is_num_iff (some (obj fs)) n = (λ h. cc, λ h. cc)

pub is_str_iff : (v : Option Json) (s : String) → (is_str v s ≡ true) ↔ (v ≡ some (str s))
is_str_iff none s = (λ h. cc, λ h. cc)
is_str_iff (some null) s = (λ h. cc, λ h. cc)
is_str_iff (some (bool b)) s = (λ h. cc, λ h. cc)
is_str_iff (some (num m)) s = (λ h. cc, λ h. cc)
is_str_iff (some (decimal d)) s = (λ h. cc, λ h. cc)
is_str_iff (some (str t)) s =
    (λ h. ap (λ k. some (str k)) (eq_of_== t s h), λ h. ground (arith, string_eq.beq_iff t s, h))
is_str_iff (some (arr xs)) s = (λ h. cc, λ h. cc)
is_str_iff (some (obj fs)) s = (λ h. cc, λ h. cc)

pub is_bool_iff : (v : Option Json) (b : Bool) → (is_bool v b ≡ true) ↔ (v ≡ some (bool b))
is_bool_iff none c = (λ h. cc, λ h. cc)
is_bool_iff (some null) c = (λ h. cc, λ h. cc)
is_bool_iff (some (bool true)) true = (λ h. refl, λ h. refl)
is_bool_iff (some (bool true)) false = (λ h. cc, λ h. cc)
is_bool_iff (some (bool false)) true = (λ h. cc, λ h. cc)
is_bool_iff (some (bool false)) false = (λ h. refl, λ h. refl)
is_bool_iff (some (num m)) c = (λ h. cc, λ h. cc)
is_bool_iff (some (decimal d)) c = (λ h. cc, λ h. cc)
is_bool_iff (some (str s)) c = (λ h. cc, λ h. cc)
is_bool_iff (some (arr xs)) c = (λ h. cc, λ h. cc)
is_bool_iff (some (obj fs)) c = (λ h. cc, λ h. cc)
