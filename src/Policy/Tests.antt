-- ===== src/Policy/Tests.antt =====
-- Runs of src/lib/policy_eval.c on a unit that may write beneath `/a` only.
use packetsonde.Prelude.{ℕ, ◌≡◌, refl, arith, true, false, List, [], ◌∷◌}
use packetsonde.Paths.{under, under_any}
use packetsonde.Policy.{
  UnitPolicy, op_write, sys_yes, sys_strict, home_ro, home_inaccessible, policy_eval,
}
use packetsonde.Policy.Subtree.{violates}
use packetsonde.Policy.Stricter.{violates-IsStricter}

abbrev loose : UnitPolicy
loose = record {
  known = true;
  protect_system = sys_yes;
  protect_home = home_ro;
  private_tmp = false;
  mdwe = false;
  rw = (47 ∷ 97 ∷ []) ∷ [];
  ro = (47 ∷ 98 ∷ []) ∷ [];
  inacc = [];
}

abbrev tight : UnitPolicy
tight = record loose { protect_system = sys_strict; protect_home = home_inaccessible }

-- `/home/x` and `/b/x`.
abbrev in_home_path : List ℕ
in_home_path = 47 ∷ 104 ∷ 111 ∷ 109 ∷ 101 ∷ 47 ∷ 120 ∷ []

abbrev in_ro_path : List ℕ
in_ro_path = 47 ∷ 98 ∷ 47 ∷ 120 ∷ []

violates-IsStricter_example : violates tight in_ro_path op_write ≡ true
unfolding under policy_eval under_any
violates-IsStricter_example =
    violates-IsStricter loose tight in_ro_path op_write
      (record {
        same_known = refl;
        same_rw = refl;
        more_system = omega arith;
        more_home = omega arith;
        more_mdwe = λ h. h;
        more_ro = λ x h. h;
        more_inacc = λ x h. h;
      })
      refl
