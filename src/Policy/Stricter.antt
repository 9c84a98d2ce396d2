-- ===== src/Policy/Stricter.antt =====
-- In src/lib/policy_eval.c a stricter sandbox never allows what a looser one forbids.
use packetsonde.Prelude.{ℕ, ◌≡◌, ◌≤◌, ap, true, List, arith}
use packetsonde.Paths.{under_any}
use packetsonde.Policy.{
  UnitPolicy, Op, op_read, op_write, op_exec, policy_eval, eval_op, eval_write, home_rank, sys_rank,
  protsys_protects, ProtectSystem,
}
use packetsonde.Policy.Subtree.{violates}

-- `q` protects at least what `p` does, and makes the same exceptions.
pub record IsStricter (p q : UnitPolicy) : Type 0 where
  pub same_known : q.known ≡ p.known
  pub same_rw : q.rw ≡ p.rw
  pub more_system : sys_rank p.protect_system ≤ sys_rank q.protect_system
  pub more_home : home_rank p.protect_home ≤ home_rank q.protect_home
  pub more_mdwe : p.mdwe ≡ true → q.mdwe ≡ true
  pub more_ro : (x : List ℕ) → under_any x p.ro ≡ true → under_any x q.ro ≡ true
  pub more_inacc : (x : List ℕ) → under_any x p.inacc ≡ true → under_any x q.inacc ≡ true

protsys_protects_more :
    (s t : ProtectSystem) (x : List ℕ)
    → sys_rank s ≤ sys_rank t
    → protsys_protects s x ≡ true
    → protsys_protects t x ≡ true
unfolding protsys_protects
protsys_protects_more s t x h k = ground arith

strict_most : (s : ProtectSystem) → sys_rank s ≤ 3
strict_most s = ground arith

-- Whatever access a policy denies, a stricter one denies too.
pub violates-IsStricter :
    (p q : UnitPolicy) (path : List ℕ) (op : Op)
    → IsStricter p q
    → violates p path op ≡ true
    → violates q path op ≡ true
unfolding policy_eval eval_op eval_write
violates-IsStricter p q path op_read s k =
    ground (arith, s.same_known, s.more_home, s.more_inacc path)
violates-IsStricter p q path op_write s k = ground (
  arith,
  s.same_known,
  s.more_home,
  s.more_inacc path,
  s.more_ro path,
  ap (under_any path) s.same_rw,
  protsys_protects_more p.protect_system q.protect_system path s.more_system,
)
violates-IsStricter p q path op_exec s k = ground (
  arith,
  s.same_known,
  s.more_home,
  s.more_inacc path,
  s.more_mdwe,
  s.more_system,
  ap (under_any path) s.same_rw,
  strict_most q.protect_system,
)
