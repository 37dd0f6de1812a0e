-- ===== src/Pool/Steps.antt =====
-- Every step of a thread keeps the invariant.
use operating_system_challen.Base.{
  ℕ, ◌≡◌, inl, inr, refl, some, List, [], ◌∷◌, arith, get_elem?, set,
}
use operating_system_challen.Graph.Code.{Graph, add32}
use operating_system_challen.Pool.Code.{Shared, Thread, running, exited, checking, summing, marking}
use operating_system_challen.Pool.Weights.{held, unsummed, to_scan, over-set}
use operating_system_challen.Pool.Invariant.{info, Inv, still_alive, same_weight}

module _ (g : Graph) (idx : ℕ) (s : Shared) (ts : List Thread) (i : ℕ) (inv : Inv g idx s ts) where
  -- `dequeue_task` of the task of `v`
  pub dequeue-Inv :
      (v : ℕ) (vs : List ℕ)
      → get_elem? ts i ≡ some running
      → s.queue ≡ v ∷ vs
      → Inv g idx (record s { queue = vs }) (set ts i (checking v))
  dequeue-Inv v vs e q = record {
    tasks = λ u. omega (arith, over-set (held u) ts i running (checking v) e, rw q at inv.tasks u);
    summed =
        omega (arith, over-set (unsummed (info g)) ts i running (checking v) e, rw q at inv.summed);
    small = inv.small;
    sound = inv.sound;
    scans = λ u w more.
        inv.scans u w (omega (arith, same_weight ts i running (checking v) e (to_scan u w) refl));
    closed = λ u w d m. elim (inv.closed u w d m) [
      | inl seen ↦ inl seen
      | inr more ↦ inr (omega (arith, same_weight ts i running (checking v) e (to_scan u w) refl))
    ];
    live = inr (still_alive ts i running (checking v) e refl);
    begun = inv.begun;
  }

  -- the end of a thread that found the queue empty
  pub exit-Inv : get_elem? ts i ≡ some running → s.queue ≡ [] → Inv g idx s (set ts i exited)
  exit-Inv e q = record {
    tasks = λ u. omega (arith, same_weight ts i running exited e (held u) refl, inv.tasks u);
    summed = rw (same_weight ts i running exited e (unsummed (info g)) refl) inv.summed;
    small = inv.small;
    sound = inv.sound;
    scans = λ u w more.
        inv.scans u w (omega (arith, same_weight ts i running exited e (to_scan u w) refl));
    closed = λ u w d m. elim (inv.closed u w d m) [
      | inl seen ↦ inl seen
      | inr more ↦ inr (omega (arith, same_weight ts i running exited e (to_scan u w) refl))
    ];
    live = inl q;
    begun = inv.begun;
  }

  -- `sum += node->info`
  pub sum-Inv :
      (v : ℕ)
      → get_elem? ts i ≡ some (summing v)
      → Inv g idx (record s { sum = add32 s.sum (info g v) }) (set ts i (marking v))
  sum-Inv v e = record {
    tasks =
        λ u. omega (arith, same_weight ts i (summing v) (marking v) e (held u) refl, inv.tasks u);
    summed = omega (arith, over-set (unsummed (info g)) ts i (summing v) (marking v) e, inv.summed);
    small = omega arith;
    sound = inv.sound;
    scans = λ u w more.
        inv.scans u w
          (omega (arith, same_weight ts i (summing v) (marking v) e (to_scan u w) refl));
    closed = λ u w d m. elim (inv.closed u w d m) [
      | inl seen ↦ inl seen
      | inr more ↦
          inr (omega (arith, same_weight ts i (summing v) (marking v) e (to_scan u w) refl))
    ];
    live = inr (still_alive ts i (summing v) (marking v) e refl);
    begun = inv.begun;
  }
