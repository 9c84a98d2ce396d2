-- ===== src/Policy.antt =====
-- src/lib/policy_eval.c: does an access to a path go against the sandbox of a systemd unit?
pub mod Subtree
pub mod Stricter
mod Tests
use packetsonde.Prelude.{
  ℕ, Bool, true, false, not, ◌||◌, ◌&&◌, Option, none, some, List, [], ◌∷◌, leb, ◌==◌,
  if◌then◌else◌,
}
use packetsonde.Paths.{under, under_any}

pub data ProtectSystem : Type 0 where
  sys_no sys_yes sys_full sys_strict : ProtectSystem

pub data ProtectHome : Type 0 where
  home_no home_ro home_inaccessible : ProtectHome

-- The numbers of the enumerations, which the code compares.
abbrev pub sys_rank : ProtectSystem → ℕ
sys_rank sys_no = 0
sys_rank sys_yes = 1
sys_rank sys_full = 2
sys_rank sys_strict = 3

abbrev pub home_rank : ProtectHome → ℕ
home_rank home_no = 0
home_rank home_ro = 1
home_rank home_inaccessible = 2

-- `struct ps_unit_policy`; the lists are the arrays up to their counts.
pub record UnitPolicy : Type 0 where
  pub known : Bool
  pub protect_system : ProtectSystem
  pub protect_home : ProtectHome
  pub private_tmp : Bool
  pub mdwe : Bool
  pub rw : List (List ℕ)
  pub ro : List (List ℕ)
  pub inacc : List (List ℕ)

pub data Op : Type 0 where
  op_read op_write op_exec : Op

-- The names of directives that a result carries.
pub data Directive : Type 0 where
  inaccessible_paths protect_home_directive read_only_paths protect_system_directive
        exec_from_writable :
      Directive

pub record Violation : Type 0 where
  pub directive : Directive
  pub heuristic : Bool

abbrev pub hit : Directive → Bool → Option Violation
hit dir heur = some (record { directive = dir; heuristic = heur })

-- `/etc`, `/usr`, `/boot`, `/efi`, `/home`, `/root` and `/run/user`.
abbrev pub etc : List ℕ
etc = 47 ∷ 101 ∷ 116 ∷ 99 ∷ []

abbrev pub usr : List ℕ
usr = 47 ∷ 117 ∷ 115 ∷ 114 ∷ []

abbrev pub boot : List ℕ
boot = 47 ∷ 98 ∷ 111 ∷ 111 ∷ 116 ∷ []

abbrev pub efi : List ℕ
efi = 47 ∷ 101 ∷ 102 ∷ 105 ∷ []

abbrev pub home : List ℕ
home = 47 ∷ 104 ∷ 111 ∷ 109 ∷ 101 ∷ []

abbrev pub root : List ℕ
root = 47 ∷ 114 ∷ 111 ∷ 111 ∷ 116 ∷ []

abbrev pub run_user : List ℕ
run_user = 47 ∷ 114 ∷ 117 ∷ 110 ∷ 47 ∷ 117 ∷ 115 ∷ 101 ∷ 114 ∷ []

unfoldable pub protsys_protects : ProtectSystem → List ℕ → Bool
protsys_protects ps path =
    if sys_rank ps == 3
    then true
    else if leb 2 (sys_rank ps) && under path etc
    then true
    else leb 1 (sys_rank ps) && (under path usr || under path boot || under path efi)

unfoldable pub in_home : List ℕ → Bool
in_home path = under path home || under path root || under path run_user

-- The part for writes, where `rw` says whether the path is an exception.
unfoldable pub eval_write : UnitPolicy → List ℕ → Bool → Option Violation
unfolding protsys_protects in_home
eval_write p path rw_path =
    if rw_path
    then none
    else if home_rank p.protect_home == 1 && in_home path
    then hit protect_home_directive false
    else if under_any path p.ro
    then hit read_only_paths false
    else if protsys_protects p.protect_system path
    then hit protect_system_directive false
    else none

unfoldable pub eval_op : UnitPolicy → List ℕ → Bool → Op → Option Violation
unfolding eval_write
eval_op p path rw_path op_write = eval_write p path rw_path
eval_op p path rw_path op_exec =
    if rw_path && (p.mdwe || sys_rank p.protect_system == 3)
    then hit exec_from_writable true
    else none
eval_op p path rw_path op_read = none

-- An empty path stands for a NULL one too.
abbrev pub is_empty : List ℕ → Bool
is_empty [] = true
is_empty (c ∷ path) = false

unfoldable pub policy_eval : UnitPolicy → List ℕ → Op → Option Violation
unfolding eval_op in_home
policy_eval p path op =
    if not p.known || is_empty path
    then none
    else if under_any path p.inacc
    then hit inaccessible_paths false
    else if home_rank p.protect_home == 2 && in_home path
    then hit protect_home_directive false
    else eval_op p path (under_any path p.rw) op
