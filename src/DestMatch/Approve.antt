-- ===== src/DestMatch/Approve.antt =====
-- What the verdict of src/lib/baseline_decide.c on destinations makes of an approved entry.
use packetsonde.Prelude.{
  ℕ, ◌≤◌, ◌<◌, ◌≡◌, ◌≢◌, inl, inr, ◌∙◌, refl, ap, sym, Bool, true, false, ◌||◌, Option, some, List,
  [], ◌∷◌, ◌++◌, leb, length, length-append, take, arith, ascii, Bool-cases,
}
use packetsonde.Prelude.Int.{ℤ, negsuc}
use mathlib.Core.Option.{some-injective}
use packetsonde.Baseline.{BaselineSet, max_paths, same_path, has_path, add, covered_verdict}
use packetsonde.Baseline.Covers.{take_all, same_path-eq, same_path_self}
use packetsonde.Cuts.{contains}
use packetsonde.DestMatch.{dest_match, any_match, destset_covered, decide_dest, generalize}
use packetsonde.DestMatch.Texts.{Fits}
use packetsonde.DestMatch.Forms.{generalize_lem, generalize-dest_match}

module _ (scan_v4 : List ℕ → Option (ℕ × ℕ × ℕ × ℕ)) (atoi : List ℕ → ℤ) where
  abbrev match : List ℕ → Option (List ℕ) → Bool
  match e raddr = dest_match scan_v4 atoi (some e) raddr

  any_match-append :
      (es fs : List (List ℕ)) (raddr : Option (List ℕ))
      → any_match scan_v4 atoi (es ++ fs) raddr
        ≡ (any_match scan_v4 atoi es raddr || any_match scan_v4 atoi fs raddr)
  any_match-append [] fs raddr = refl
  any_match-append (e ∷ es) fs raddr =
      ap (λ b. match e raddr || b) (any_match-append es fs raddr)
      ∙ or_assoc (match e raddr) (any_match scan_v4 atoi es raddr) _
    where
      or_assoc : (a b c : Bool) → (a || (b || c)) ≡ ((a || b) || c)
      or_assoc true b c = refl
      or_assoc false b c = refl

  has_path-any_match :
      (es : List (List ℕ)) (e : List ℕ) (raddr : Option (List ℕ))
      → has_path es e ≡ true
      → match e raddr ≡ true
      → any_match scan_v4 atoi es raddr ≡ true
  has_path-any_match [] e raddr h m = cc
  has_path-any_match (f ∷ es) e raddr h m = elim (Bool-cases (same_path f e)) [
    | inl same ↦ rw (same_path-eq f e same, m) refl
    | inr other ↦
        let rest = has_path-any_match es e raddr (rw other at h) m in
        rw rest (or_true (match f raddr))
  ]
    where
      or_true : (b : Bool) → (b || true) ≡ true
      or_true true = refl
      or_true false = refl

  -- The entry, or what the set covered.
  pub destset_covered-add :
      (s : BaselineSet) (c : ℕ) (e : List ℕ) (raddr : Option (List ℕ))
      → length (c ∷ e) ≤ 255
      → (add s (some (c ∷ e))).0 ≢ negsuc 0
      → (match (c ∷ e) raddr || destset_covered scan_v4 atoi s raddr) ≡ true
      → destset_covered scan_v4 atoi (add s (some (c ∷ e))).1 raddr ≡ true
  unfolding add destset_covered
  destset_covered-add s c e raddr short ok h = elim (Bool-cases (has_path s.path (c ∷ e))) [
    | inl there ↦ rw there (elim (Bool-cases (match (c ∷ e) raddr)) [
      | inl m ↦ has_path-any_match s.path (c ∷ e) raddr there m
      | inr n ↦ rw n at h
    ])
    | inr absent ↦ elim (Bool-cases (leb max_paths (length s.path))) [
      | inl full ↦ absurd (ok (rw (absent, full) refl))
      | inr room ↦
          rw (absent, room)
            (any_match-append s.path (take 255 (c ∷ e) ∷ []) raddr
              ∙ rw (take_all 255 (c ∷ e) short)
                  (swap (any_match scan_v4 atoi s.path raddr) (match (c ∷ e) raddr) ∙ h))
    ]
  ]
    where
      swap : (a b : Bool) → (a || (b || false)) ≡ (b || a)
      swap true true = refl
      swap true false = refl
      swap false true = refl
      swap false false = refl

  -- Once the entry "host" that is made of an address has joined a set of approved ones, denied or
  -- not, every address of that host is covered, whatever its port. The host has neither a colon nor
  -- a slash, the port no slash, the parts fit, and the buffer takes the address.
  pub decide_dest-generalize :
      (c : ℕ) (host port port' : List ℕ) (cap : ℕ) (baseline denials : BaselineSet) (e : List ℕ)
      → Fits (c ∷ host) port
      → Fits (c ∷ host) port'
      → contains 58 (c ∷ host) ≡ false
      → contains 47 (c ∷ host) ≡ false
      → contains 47 port ≡ false
      → length ((c ∷ host) ++ (58 ∷ port)) < cap
      → generalize scan_v4 atoi (some ((c ∷ host) ++ (58 ∷ port))) (some (ascii "host")) cap
        ≡ some e
      → (add baseline (some e)).0 ≢ negsuc 0
      → decide_dest scan_v4 atoi
          (add baseline (some e)).1
          denials
          (some ((c ∷ host) ++ (58 ∷ port')))
        ≡ covered_verdict
  unfolding decide_dest
  decide_dest-generalize c host port port' cap baseline denials e a a' no_colon no_slash plain fits
        made ok =
      let all =
        generalize-dest_match scan_v4 atoi c host port (c ∷ host) port' a a' cap no_colon no_slash
          plain fits in
      let (f, made', matches) = all.1 in
      let whole =
        generalize_lem scan_v4 atoi (c ∷ host) port (ascii "host") (c ∷ host) cap a refl
          (omega (arith, fits, length-append (c ∷ host) (58 ∷ port))) in
      let named : e ≡ c ∷ host = some-injective _ _ (sym made ∙ whole) in
      let hit : match (c ∷ host) (some ((c ∷ host) ++ (58 ∷ port'))) ≡ true =
        ap (λ g. match g (some ((c ∷ host) ++ (58 ∷ port'))))
          (some-injective _ _ (sym whole ∙ made'))
        ∙ matches
        ∙ same_path_self (c ∷ host) in
      rw
        (
          named,
          destset_covered-add baseline c host (some ((c ∷ host) ++ (58 ∷ port')))
              (omega (arith, a.ip_in)) (rw named at ok) (rw hit refl),
        )
        refl
