-- ===== src/Pool/Marks.antt =====
-- The steps that mark a node keep the invariant.
use operating_system_challen.Base.{
  ℕ, ◌<◌, ◌≡◌, inl, inr, refl, sym, ap, ◌∙◌, subst, some, List, arith, get_elem?, set,
}
use native.Mathlib.Decide.{ℕ_discrete, dec_lt}
use mathlib.Core.List.{Memᴰ}
use operating_system_challen.Graph.Code.{
  Graph, Visited, not_visited, processing, done, is_not_visited, update,
}
use operating_system_challen.Graph.Update.{update_at, update_other}
use operating_system_challen.Graph.Reach.{Reach, Closed, Reach-snoc, All-Memᴰ}
use operating_system_challen.Graph.Count.{total_seen}
use operating_system_challen.Pool.Code.{Shared, Thread, marking, scanning, mark}
use operating_system_challen.Pool.Weights.{
  count, held, unsummed, to_scan, over-set, over-get, count-Memᴰ, Memᴰ-count, at_same, at_elsewhere,
  to_scan_own, to_scan-count,
}
use operating_system_challen.Pool.Invariant.{one_if_processing, info, Inv, still_alive, same_weight}

processing_of : (x : Visited) → 0 < one_if_processing x → x ≡ processing
processing_of not_visited h = absurd (omega arith)
processing_of processing h = refl
processing_of done h = absurd (omega arith)

module _ (g : Graph) (idx : ℕ) (all : Closed g) (s : Shared) (ts : List Thread) (i : ℕ)
    (inv : Inv g idx s ts) where
  -- A thread with a task: its node is in processing.
  pub held-processing :
      (v : ℕ) (t : Thread) → get_elem? ts i ≡ some t → held v t ≡ 1 → s.visited v ≡ processing
  held-processing v t e h =
      processing_of (s.visited v) (omega (arith, over-get (held v) ts i t e, inv.tasks v))

  pub mark-Inv :
      (v : ℕ)
      → get_elem? ts i ≡ some (marking v)
      → Inv g idx (mark s v done) (set ts i (scanning v (g.nodes v).neighbours))
  unfolding mark
  mark-Inv v e = record {
    tasks = λ u. elim (ℕ_discrete u v) [
      | yes d ↦ omega (
        arith,
        over-set (held u) ts i old new e,
        at_same u v d,
        inv.tasks u,
        ap one_if_processing (update_at s.visited v done u d),
        ap one_if_processing (ap s.visited d ∙ proc),
      )
      | no d ↦ omega (
        arith,
        over-set (held u) ts i old new e,
        at_elsewhere u v d,
        inv.tasks u,
        ap one_if_processing (update_other s.visited v done u d),
      )
    ];
    summed = omega (
      arith,
      same_weight ts i old new e (unsummed (info g)) refl,
      total_seen g.num_nodes (info g) (update s.visited v done) s.visited same,
      inv.summed,
    );
    small = inv.small;
    sound = λ u h. inv.sound u (sym (same u) ∙ h);
    scans = λ u w more. elim (dec_lt 0 (to_scan u w new)) [
      | yes some_left ↦ found w (omega (arith, to_scan-count u w v (g.nodes v).neighbours))
      | no none_left ↦ inv.scans u w (omega (arith, over-set (to_scan u w) ts i old new e))
    ];
    closed = λ u w d m. elim (ℕ_discrete u v) [
      | yes q ↦
          let there =
            count-Memᴰ w (g.nodes v).neighbours (subst (λ x. Memᴰ w (g.nodes x).neighbours) q m) in
          inr (
            omega (
              arith,
              over-set (to_scan u w) ts i old new e,
              to_scan_own u w v (g.nodes v).neighbours q,
              there,
            ))
      | no q ↦ elim (inv.closed u w (sym (update_other s.visited v done u q) ∙ d) m) [
        | inl seen ↦ inl (same w ∙ seen)
        | inr more ↦ inr (omega (arith, over-set (to_scan u w) ts i old new e))
      ]
    ];
    live = inr (still_alive ts i old new e refl);
    begun = same idx ∙ inv.begun;
  }
    where
      old : Thread
      old = marking v

      new : Thread
      new = scanning v (g.nodes v).neighbours

      proc : s.visited v ≡ processing
      proc = held-processing v old e (at_same v v refl)

      same : (u : ℕ) → is_not_visited (update s.visited v done u) ≡ is_not_visited (s.visited u)
      same u = elim (ℕ_discrete u v) [
        | yes d ↦
            ap is_not_visited (update_at s.visited v done u d)
            ∙ sym (ap is_not_visited (ap s.visited d ∙ proc))
        | no d ↦ ap is_not_visited (update_other s.visited v done u d)
      ]

      found : (w : ℕ) → 0 < count w (g.nodes v).neighbours → Reach g idx w × (w < g.num_nodes)
      found w h =
          let m = Memᴰ-count w (g.nodes v).neighbours h in
          let (r, inside) = inv.sound v (ap is_not_visited proc) in
          (
            Reach-snoc r m,
            All-Memᴰ (λ x. x < g.num_nodes) (g.nodes v).neighbours w (all v inside) m,
          )
