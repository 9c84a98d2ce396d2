-- ===== src/Provenance/Roots.antt =====
-- The lists of path roots of src/lib/provenance.c.
use packetsonde.Prelude.{
  ℕ, zero, suc, ◌≤◌, ◌≡◌, ◌≢◌, ◌⊎◌, ◌↔◌, inl, inr, ◌∙◌, refl, ap, sym, Bool, true, false, ◌&&◌,
  ◌||◌, Option, none, some, List, [], ◌∷◌, ◌++◌, ◌==◌, if◌then◌else◌, length, arith, Bool-cases,
  ==_iff, ascii,
}
use packetsonde.Paths.{behind_prefix}
use packetsonde.Paths.Order.{behind_prefix-append, behind_prefix-some}
use packetsonde.Suppress.{entry, behind_comma}
use packetsonde.Suppress.Entries.{entries, any, later_entries, entries-split, length-behind_comma}
use packetsonde.Baseline.Rollup.Counts.{Elem}
use packetsonde.Provenance.{
  strip, at_end, in_root, in_any, path_in_set, ProvCfg, may_execute, Trigger, untouched,
  write_executable, write_sensitive_path, exec_from_transient, classify,
}

-- The path is the directory, which is not empty, or goes on with a slash.
pub record IsBeneath (path root : List ℕ) : Type 0 where
  pub named : root ≢ []
  pub rest : List ℕ
  pub splits : path ≡ root ++ rest
  pub bounded : (rest ≡ []) ⊎ ((name : List ℕ) × (rest ≡ 47 ∷ name))

at_end-slash :
    (rest : List ℕ)
    → (at_end (some rest) ≡ true) ↔ ((rest ≡ []) ⊎ ((name : List ℕ) × (rest ≡ 47 ∷ name)))
at_end-slash [] = (λ h. inl refl, λ h. refl)
at_end-slash (c ∷ rest) = (λ h. inr (rest, ap (λ d. d ∷ rest) ((==_iff c 47).0 h)), back)
  where
    back : ((c ∷ rest ≡ []) ⊎ ((name : List ℕ) × (c ∷ rest ≡ 47 ∷ name))) → (c == 47) ≡ true
    back (inl e) = cc
    back (inr (name, e)) = (==_iff c 47).1 (cc)

in_root-IsBeneath : (path root : List ℕ) → in_root path root ≡ true → IsBeneath path root
unfolding in_root
in_root-IsBeneath path [] h = cc
in_root-IsBeneath path (c ∷ root) h = by_rest (behind_prefix (c ∷ root) path) refl h
  where
    by_rest :
        (o : Option (List ℕ))
        → behind_prefix (c ∷ root) path ≡ o
        → at_end o ≡ true
        → IsBeneath path (c ∷ root)
    by_rest none e k = cc
    by_rest (some r) e k = record {
      named = λ n. cc;
      rest = r;
      splits = behind_prefix-some (c ∷ root) path r e;
      bounded = (at_end-slash r).0 k;
    }

IsBeneath-in_root : (path root : List ℕ) → IsBeneath path root → in_root path root ≡ true
unfolding in_root
IsBeneath-in_root path [] b = absurd (b.named refl)
IsBeneath-in_root path (c ∷ root) b =
    rw (b.splits, behind_prefix-append (c ∷ root) b.rest) ((at_end-slash b.rest).1 b.bounded)

abbrev test : List ℕ → List ℕ → Bool
test path e = in_root path (strip e)

-- The loop tests each entry.
in_any_step :
    (rounds : ℕ) (path : List ℕ) (c : ℕ) (p : List ℕ) (o : Option (List ℕ))
    → behind_comma (c ∷ p) ≡ o
    → ((rest : List ℕ) → o ≡ some rest → in_any rounds path rest ≡ any (test path) (entries rest))
    → in_any (suc rounds) path (c ∷ p) ≡ any (test path) (entry (c ∷ p) ∷ later_entries o)
unfolding in_any
in_any_step rounds path c p none e later = rw e refl
in_any_step rounds path c p (some rest) e later = rw (e, later rest refl) refl

nothing : (path : List ℕ) → any (test path) (entries []) ≡ false
unfolding in_root
nothing path = refl

in_any_lem :
    (rounds : ℕ) (path p : List ℕ)
    → length p ≤ rounds
    → in_any rounds path p ≡ any (test path) (entries p)
in_any_lem zero path [] h = unfold in_any in rw (nothing path) refl
in_any_lem zero path (c ∷ p) h = absurd (omega arith)
in_any_lem (suc rounds) path [] h = unfold in_any in rw (nothing path) refl
in_any_lem (suc rounds) path (c ∷ p) h =
    in_any_step rounds path c p (behind_comma (c ∷ p)) refl
      (λ rest e. in_any_lem rounds path rest (omega (arith, length-behind_comma (c ∷ p) rest e)))
    ∙ ap (any (test path)) (sym (entries-split (c ∷ p)))

-- The path is one of the roots of a list, less the slashes at its end, or lies beneath one.
abbrev pub InRoots : List ℕ → Option (List ℕ) → Type 0
InRoots path none = ⊥
InRoots path (some set) = (e : List ℕ) × Elem e (entries set) × IsBeneath path (strip e)

any-Elem :
    (path : List ℕ) (es : List (List ℕ))
    → any (test path) es ≡ true
    → (e : List ℕ) × Elem e es × IsBeneath path (strip e)
any-Elem path [] h = cc
any-Elem path (e ∷ es) h = elim (Bool-cases (test path e)) [
  | inl this ↦ (e, inl refl, in_root-IsBeneath path (strip e) this)
  | inr other ↦ let (f, there, b) = any-Elem path es (rw other at h) in (f, inr there, b)
]

Elem-any :
    (path : List ℕ) (es : List (List ℕ)) (e : List ℕ)
    → Elem e es
    → test path e ≡ true
    → any (test path) es ≡ true
Elem-any path [] e m h = absurd m
Elem-any path (f ∷ es) e (inl here) h = rw (here, h) refl
Elem-any path (f ∷ es) e (inr there) h = rw (Elem-any path es e there h) (or_true (test path f))
  where
    or_true : (b : Bool) → (b || true) ≡ true
    or_true true = refl
    or_true false = refl

pub path_in_set-InRoots :
    (path : List ℕ) (set : Option (List ℕ)) → (path_in_set path set ≡ true) ↔ InRoots path set
unfolding path_in_set
path_in_set-InRoots path none = (λ h. cc, λ h. absurd h)
path_in_set-InRoots path (some set) = rw (in_any_lem (length set) path set (omega arith)) (
  any-Elem path (entries set),
  λ r. Elem-any path (entries set) r.0 r.1 (IsBeneath-in_root path (strip r.0) r.2),
)

-- The choice of a write's trigger from its three tests.
abbrev choice : Bool → Bool → Bool → Trigger
choice s m t = if s then write_sensitive_path else if m && t then write_executable else untouched

choice-sensitive : (s m t : Bool) → (choice s m t ≡ write_sensitive_path) ↔ (s ≡ true)
choice-sensitive true m t = (λ h. refl, λ h. refl)
choice-sensitive false true true = (λ h. cc, λ h. cc)
choice-sensitive false true false = (λ h. cc, λ h. cc)
choice-sensitive false false t = (λ h. cc, λ h. cc)

choice-executable :
    (s m t : Bool) → (choice s m t ≡ write_executable) ↔ (¬ s ≡ true × (m ≡ true) × (t ≡ true))
choice-executable true m t = (λ h. cc, λ r. absurd (r.0 refl))
choice-executable false true true = (λ h. (λ n. cc, refl, refl), λ r. refl)
choice-executable false true false = (λ h. cc, λ (n, m, t). cc)
choice-executable false false t = (λ h. cc, λ (n, m, u). cc)

choice-exec :
    (t : Bool) → ((if t then exec_from_transient else untouched) ≡ exec_from_transient) ↔ (t ≡ true)
choice-exec true = (λ h. refl, λ h. refl)
choice-exec false = (λ h. cc, λ h. cc)

module _ (path : List ℕ) (mode : ℕ) (cfg : ProvCfg) where
  abbrev sensitive :
      (path_in_set path cfg.sensitive_paths ≡ true) ↔ InRoots path cfg.sensitive_paths
  sensitive = path_in_set-InRoots path cfg.sensitive_paths

  abbrev transient :
      (path_in_set path cfg.transient_paths ≡ true) ↔ InRoots path cfg.transient_paths
  transient = path_in_set-InRoots path cfg.transient_paths

  -- For an enabled configuration, whatever the path and its mode. A write triggers
  -- write_sensitive_path exactly if the path is one of the sensitive roots, cut at commas and less
  -- slashes at their end, or lies beneath one; else write_executable exactly if a bit of its mode
  -- lets it be executed and it is or lies beneath a transient root. An exec triggers
  -- exec_from_transient exactly if the path is or lies beneath a transient root. A root of slashes
  -- alone, such as "/", is empty once less its slashes, and then no path is that root or lies
  -- beneath it.
  pub classify-InRoots :
      cfg.enabled ≡ true
      → ((classify (some (ascii "write")) (some path) mode (some cfg) ≡ write_sensitive_path)
          ↔ InRoots path cfg.sensitive_paths)
        × ((classify (some (ascii "write")) (some path) mode (some cfg) ≡ write_executable) ↔ (
            ¬ InRoots path cfg.sensitive_paths
            × (may_execute mode ≡ true)
            × InRoots path cfg.transient_paths))
        × ((classify (some (ascii "exec")) (some path) mode (some cfg) ≡ exec_from_transient)
            ↔ InRoots path cfg.transient_paths)
  unfolding classify
  classify-InRoots on = rw on (
    (
      λ h. sensitive.0 ((choice-sensitive s m t).0 h),
      λ r. (choice-sensitive s m t).1 (sensitive.1 r),
    ),
    (
      λ h.
          let (clean, x, in_it) = (choice-executable s m t).0 h in
          (λ r. clean (sensitive.1 r), x, transient.0 in_it),
      λ (clean, x, in_it).
          (choice-executable s m t).1 (λ k. clean (sensitive.0 k), x, transient.1 in_it),
    ),
    (λ h. transient.0 ((choice-exec t).0 h), λ r. (choice-exec t).1 (transient.1 r)),
  )
    where
      s : Bool
      s = path_in_set path cfg.sensitive_paths

      m : Bool
      m = may_execute mode

      t : Bool
      t = path_in_set path cfg.transient_paths
