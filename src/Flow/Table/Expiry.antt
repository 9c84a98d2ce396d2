-- ===== src/Flow/Table/Expiry.antt =====
-- `ps_flow_table_expire` and `ps_flow_table_snapshot` of src/agent/src/flow_tracker.c.
use packetsonde.Prelude.{
  ℕ, zero, suc, ◌+◌, ◌-◌, ◌≡◌, refl, ap, ◌∙◌, some, List, [], ◌∷◌, arith, Bool, true, false, ltb,
  if◌then◌else◌, take, Bool-cases, inl, inr,
}
use mathlib.Core.Path.{fun_ext}
use packetsonde.Flow.Tree.{Flow, FlowTree, lookup, erase}
use packetsonde.Flow.Table.{
  FlowTable, is_stale, expire_from, expire, snapshot_from, snapshot, ◌+64◌,
}
use packetsonde.Flow.Table.Entries.{
  Distinct, packets_of, packets_in, packets_in-erase, length-erase, Distinct-erase,
}
use packetsonde.Flow.Table.Found.{Found, Distinct-Found, Found-erase}
use packetsonde.Flow.Table.Invariant.{flows, Keeps}

-- The flows of a list that pass a test.
abbrev pub select : (Flow → Bool) → List Flow → List Flow
select p [] = []
select p (f ∷ fs) = if p f then f ∷ select p fs else select p fs

-- The list without the flows of `gone`.
abbrev pub erase_all : List Flow → List Flow → List Flow
erase_all [] fs = fs
erase_all (f ∷ gone) fs = erase_all gone (erase f.key fs)

module _ (rb : FlowTree) where
  open rb use {Tree, to_list, remove}

  -- The table after one flow has left it.
  abbrev without : FlowTable Tree → Flow → FlowTable Tree
  without ft f = record ft {
    tree = remove ft.tree f.key;
    num_flows = ft.num_flows - 1;
    flows_expired = ft.flows_expired +64 1;
  }

  without-Keeps :
      (ft : FlowTable Tree) (f : Flow) (left : ℕ)
      → lookup f.key (flows rb ft) ≡ some f
      → Keeps rb left ft
      → Keeps rb (left + packets_of f) (without ft f)
  without-Keeps ft f left there (v, b) = (
    record {
      distinct =
          rw (rb.to_list-remove ft.tree f.key) (Distinct-erase f.key (flows rb ft) v.distinct);
      num_flows_is =
          rw (rb.to_list-remove ft.tree f.key)
            (omega (arith, v.num_flows_is, length-erase f.key (flows rb ft) {f = f} there));
      bounded = omega (arith, v.bounded);
    },
    rw (rb.to_list-remove ft.tree f.key)
        (omega (arith, b, packets_in-erase f.key (flows rb ft) {f = f} there)),
  )

  -- One round of the loop.
  expire_from-stale :
      (f : Flow) (fs : List Flow) (ft : FlowTable Tree) (now room : ℕ)
      → is_stale ft now f ≡ true
      → expire_from rb (f ∷ fs) ft now (suc room) ≡ (
        f ∷ (expire_from rb fs (without ft f) now room).0,
        (expire_from rb fs (without ft f) now room).1,
      )
  unfolding expire_from
  expire_from-stale f fs ft now room stale = rw stale

  expire_from-fresh :
      (f : Flow) (fs : List Flow) (ft : FlowTable Tree) (now room : ℕ)
      → is_stale ft now f ≡ false
      → expire_from rb (f ∷ fs) ft now (suc room) ≡ expire_from rb fs ft now (suc room)
  unfolding expire_from
  expire_from-fresh f fs ft now room fresh = rw fresh

  expire_from_end :
      (fs : List Flow) (ft : FlowTable Tree) (now : ℕ) → expire_from rb fs ft now 0 ≡ ([], ft)
  unfolding expire_from
  expire_from_end [] ft now = refl
  expire_from_end (f ∷ fs) ft now = refl

  is_stale-without :
      (ft : FlowTable Tree) (now : ℕ) (f g : Flow)
      → is_stale (without ft f) now g ≡ is_stale ft now g
  unfolding is_stale
  is_stale-without ft now f g = refl

  -- The flows that leave are the first stale ones in the tree's order.
  expire_from-select :
      (fs : List Flow) (ft : FlowTable Tree) (now room : ℕ)
      → (expire_from rb fs ft now room).0 ≡ take room (select (is_stale ft now) fs)
  expire_from-select fs ft now zero =
      ap (λ (r : List Flow × FlowTable Tree). r.0) (expire_from_end fs ft now)
  expire_from-select [] ft now (suc room) = unfold expire_from in refl
  expire_from-select (f ∷ fs) ft now (suc room) = elim (Bool-cases (is_stale ft now f)) [
    | inl stale ↦
        rw (expire_from-stale f fs ft now room stale, stale)
          (ap (◌∷◌ f) (
            expire_from-select fs (without ft f) now room
            ∙ ap (λ (p : Flow → Bool). take room (select p fs))
                (fun_ext (is_stale-without ft now f))))
    | inr fresh ↦
        rw (expire_from-fresh f fs ft now room fresh, fresh)
          (expire_from-select fs ft now (suc room))
  ]

  regroup : (a b c : ℕ) (ft : FlowTable Tree) → Keeps rb (a + b + c) ft → Keeps rb (a + (b + c)) ft
  regroup a b c ft (v, e) = (v, omega (arith, e))

  expire_from-Keeps :
      (fs : List Flow) (ft : FlowTable Tree) (now room left : ℕ)
      → Distinct fs
      → Found (flows rb ft) fs
      → Keeps rb left ft
      → Keeps rb
          (left + packets_in (expire_from rb fs ft now room).0)
          (expire_from rb fs ft now room).1
  expire_from-Keeps fs ft now zero left d found (v, b) =
      rw (expire_from_end fs ft now) (v, omega (arith, b))
  expire_from-Keeps [] ft now (suc room) left d found (v, b) =
      unfold expire_from in (v, omega (arith, b))
  expire_from-Keeps (f ∷ fs) ft now (suc room) left d found k =
      elim (Bool-cases (is_stale ft now f)) [
        | inl stale ↦ rw (expire_from-stale f fs ft now room stale) (
            regroup left (packets_of f) _ _ (
              expire_from-Keeps fs (without ft f) now room (left + packets_of f) d.1
                (rw (rb.to_list-remove ft.tree f.key)
                  (Found-erase f.key (flows rb ft) fs d.0 found.1))
                (without-Keeps ft f left found.0 k)))
        | inr fresh ↦
            rw (expire_from-fresh f fs ft now room fresh)
              (expire_from-Keeps fs ft now (suc room) left d.1 found.1 k)
      ]

  expire_from-erase :
      (fs : List Flow) (ft : FlowTable Tree) (now room : ℕ)
      → flows rb (expire_from rb fs ft now room).1
        ≡ erase_all (expire_from rb fs ft now room).0 (flows rb ft)
  expire_from-erase fs ft now zero = rw (expire_from_end fs ft now)
  expire_from-erase [] ft now (suc room) = unfold expire_from in refl
  expire_from-erase (f ∷ fs) ft now (suc room) = elim (Bool-cases (is_stale ft now f)) [
    | inl stale ↦ rw (expire_from-stale f fs ft now room stale) (
        expire_from-erase fs (without ft f) now room
        ∙ ap (erase_all (expire_from rb fs (without ft f) now room).0)
            (rb.to_list-remove ft.tree f.key))
    | inr fresh ↦
        rw (expire_from-fresh f fs ft now room fresh) (expire_from-erase fs ft now (suc room))
  ]

  -- On a valid table in balance: the flows that leave are the first `max_out` stale ones in the
  -- tree's order. They are erased
  -- and nothing else is. The table stays valid, and the packets that they counted are on the side
  -- of what has left.
  pub expire-Keeps :
      (ft : FlowTable Tree) (now max_out left : ℕ)
      → Keeps rb left ft
      → ((expire rb ft now max_out).0 ≡ take max_out (select (is_stale ft now) (flows rb ft)))
        × (flows rb (expire rb ft now max_out).1
            ≡ erase_all (expire rb ft now max_out).0 (flows rb ft))
        × Keeps rb (left + packets_in (expire rb ft now max_out).0) (expire rb ft now max_out).1
  unfolding expire
  expire-Keeps ft now max_out left k = (
    expire_from-select (flows rb ft) ft now max_out,
    expire_from-erase (flows rb ft) ft now max_out,
    expire_from-Keeps (flows rb ft) ft now max_out left k.0.distinct
        (Distinct-Found (flows rb ft) k.0.distinct) k,
  )

  snapshot_from-select :
      (fs : List Flow) (last room : ℕ)
      → snapshot_from rb fs last room ≡ take room (select (λ f. ltb last f.flow_last) fs)
  unfolding snapshot_from
  snapshot_from-select [] last zero = refl
  snapshot_from-select [] last (suc room) = refl
  snapshot_from-select (f ∷ fs) last zero = refl
  snapshot_from-select (f ∷ fs) last (suc room) = elim (Bool-cases (ltb last f.flow_last)) [
    | inl newer ↦ rw newer (ap (◌∷◌ f) (snapshot_from-select fs last room))
    | inr older ↦ rw older (snapshot_from-select fs last (suc room))
  ]

  -- A snapshot copies the first `max_out` flows that were seen after the last export, in order.
  pub snapshot-select :
      (ft : FlowTable Tree) (last max_out : ℕ)
      → snapshot rb ft last max_out
        ≡ take max_out (select (λ f. ltb last f.flow_last) (flows rb ft))
  unfolding snapshot
  snapshot-select ft last max_out = snapshot_from-select (flows rb ft) last max_out
