-- ===== src/Policy/Subtree.antt =====
-- What src/lib/policy_eval.c forbids of a directory it forbids of everything beneath it.
use packetsonde.Prelude.{ℕ, ◌≡◌, refl, Bool, true, false, none, some, List, [], ◌∷◌, arith}
use packetsonde.Paths.{behind_prefix, under, under_any}
use packetsonde.Paths.Order.{under_trans, under_any_trans}
use packetsonde.Policy.{
  UnitPolicy, Op, op_read, op_write, home, root, run_user, etc, usr, boot, efi, in_home,
  policy_eval, eval_op, eval_write, is_empty, protsys_protects,
}

abbrev pub violates : UnitPolicy → List ℕ → Op → Bool
violates p path op = elim (policy_eval p path op) [ none ↦ false | some v ↦ true ]

in_home_trans : (x d : List ℕ) → under x d ≡ true → in_home d ≡ true → in_home x ≡ true
unfolding in_home
in_home_trans x d h k =
    ground (arith, under_trans x d home h, under_trans x d root h, under_trans x d run_user h)

protsys_protects_trans :
    (p : UnitPolicy) (x d : List ℕ)
    → under x d ≡ true
    → protsys_protects p.protect_system d ≡ true
    → protsys_protects p.protect_system x ≡ true
unfolding protsys_protects
protsys_protects_trans p x d h k = ground (
  arith,
  under_trans x d etc h,
  under_trans x d usr h,
  under_trans x d boot h,
  under_trans x d efi h,
)

under_not_empty : (x d : List ℕ) → under x d ≡ true → is_empty x ≡ false
unfolding under behind_prefix
under_not_empty [] [] h = cc
under_not_empty [] (y ∷ d) h = cc
under_not_empty (c ∷ x) d h = refl

-- A directory of which not even reads are allowed: no operation is allowed beneath it.
pub violates-read_subtree :
    (p : UnitPolicy) (x d : List ℕ) (op : Op)
    → under x d ≡ true
    → violates p d op_read ≡ true
    → violates p x op ≡ true
unfolding policy_eval eval_op
violates-read_subtree p x d op h k =
    ground (arith, in_home_trans x d h, under_any_trans p.inacc x d h, under_not_empty x d h)

-- A directory that may not be written: nothing beneath it may be, but for the paths beneath the
-- exceptions of the policy.
pub violates-write_subtree :
    (p : UnitPolicy) (x d : List ℕ)
    → under x d ≡ true
    → violates p d op_write ≡ true
    → under_any x p.rw ≡ false
    → violates p x op_write ≡ true
unfolding policy_eval eval_op eval_write
violates-write_subtree p x d h k no_exception = ground (
  arith,
  in_home_trans x d h,
  under_any_trans p.inacc x d h,
  under_not_empty x d h,
  under_any_trans p.ro x d h,
  protsys_protects_trans p x d h,
)
