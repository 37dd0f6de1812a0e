-- ===== src/Pool/Scan.antt =====
-- A round of the loop over the neighbours keeps the invariant.
use operating_system_challen.Base.{
  ℕ, ◌<◌, ◌≡◌, ◌≢◌, inl, inr, refl, sym, ap, ◌∙◌, subst, true, false, some, List, [], ◌∷◌, arith,
  get_elem?, set,
}
use native.Mathlib.Decide.{ℕ_discrete}
use operating_system_challen.Graph.Code.{
  Graph, Visited, not_visited, processing, done, is_not_visited, update,
}
use operating_system_challen.Graph.Update.{update_at, update_other}
use operating_system_challen.Graph.Reach.{Reach}
use operating_system_challen.Graph.Count.{total-update}
use operating_system_challen.Pool.Code.{Shared, Thread, scanning, mark, enqueue_task}
use operating_system_challen.Pool.Weights.{
  over, at, held, unsummed, to_scan, over-set, over-get, over-append, at_same, at_elsewhere,
  to_scan_own, to_scan_cons,
}
use operating_system_challen.Pool.Invariant.{
  Seen, one_if_processing, info, Inv, still_alive, same_weight,
}

one_if_fresh : (x : Visited) → is_not_visited x ≡ true → one_if_processing x ≡ 0
one_if_fresh not_visited h = refl
one_if_fresh processing h = cc
one_if_fresh done h = refl

module _ (g : Graph) (idx : ℕ) (s : Shared) (ts : List Thread) (i : ℕ) (inv : Inv g idx s ts)
    (v w : ℕ) (ws : List ℕ) (e : get_elem? ts i ≡ some (scanning v (w ∷ ws))) where
  old : Thread
  old = scanning v (w ∷ ws)

  new : Thread
  new = scanning v ws

  fewer : (u x : ℕ) → 0 < over (to_scan u x) (set ts i new) → 0 < over (to_scan u x) ts
  unfolding new
  fewer u x more = omega (
    arith,
    over-set (to_scan u x) ts i (scanning v (w ∷ ws)) (scanning v ws) e,
    to_scan_cons u x v w ws,
  )

  other_left : (u x : ℕ) → x ≢ w → 0 < over (to_scan u x) ts → 0 < over (to_scan u x) (set ts i new)
  unfolding new
  other_left u x d more =
      let kept = (to_scan_cons u x v w ws).1 d in
      omega (arith, over-set (to_scan u x) ts i (scanning v (w ∷ ws)) (scanning v ws) e, kept)

  -- The next neighbour.
  pub next_reached : Reach g idx w × (w < g.num_nodes)
  next_reached =
      let own = to_scan_own v w v (w ∷ ws) refl in
      let here' = at_same w w refl in
      inv.scans v w (omega (arith, over-get (to_scan v w) ts i (scanning v (w ∷ ws)) e, own, here'))

  -- The neighbour has been seen.
  pub pass-Inv : Seen s w → Inv g idx s (set ts i (scanning v ws))
  unfolding new
  pass-Inv seen = record {
    tasks = λ u. omega (
      arith,
      same_weight ts i (scanning v (w ∷ ws)) (scanning v ws) e (held u) refl,
      inv.tasks u,
    );
    summed =
        rw (same_weight ts i (scanning v (w ∷ ws)) (scanning v ws) e (unsummed (info g)) refl)
          inv.summed;
    small = inv.small;
    sound = inv.sound;
    scans = λ u x more. inv.scans u x (fewer u x more);
    closed = λ u x d m. elim (inv.closed u x d m) [
      | inl h ↦ inl h
      | inr more ↦ elim (ℕ_discrete x w) [
        | yes q ↦ inl (subst (Seen s) (sym q) seen)
        | no q ↦ inr (other_left u x q more)
      ]
    ];
    live = inr (still_alive ts i (scanning v (w ∷ ws)) (scanning v ws) e refl);
    begun = inv.begun;
  }

  module _ (fresh : is_not_visited (s.visited w) ≡ true) where
    after : (u : ℕ) → Seen s u → is_not_visited (update s.visited w processing u) ≡ false
    after u h = elim (ℕ_discrete u w) [
      | yes d ↦ ap is_not_visited (update_at s.visited w processing u d)
      | no d ↦ ap is_not_visited (update_other s.visited w processing u d) ∙ h
    ]

    -- The neighbour is new: it gets a task.
    pub enqueue-Inv : Inv g idx (enqueue_task (mark s w processing) w) (set ts i (scanning v ws))
    unfolding enqueue_task mark new
    enqueue-Inv = record {
      tasks = λ u.
          let kept = same_weight ts i (scanning v (w ∷ ws)) (scanning v ws) e (held u) refl in
          let more = over-append (at u) s.queue (w ∷ []) in
          elim (ℕ_discrete u w) [
            | yes d ↦ omega (
              arith,
              kept,
              more,
              at_same u w d,
              inv.tasks u,
              ap one_if_processing (update_at s.visited w processing u d),
              one_if_fresh (s.visited u) (ap is_not_visited (ap s.visited d) ∙ fresh),
            )
            | no d ↦ omega (
              arith,
              kept,
              more,
              at_elsewhere u w d,
              inv.tasks u,
              ap one_if_processing (update_other s.visited w processing u d),
            )
          ];
      summed = omega (
        arith,
        same_weight ts i (scanning v (w ∷ ws)) (scanning v ws) e (unsummed (info g)) refl,
        over-append (info g) s.queue (w ∷ []),
        total-update g.num_nodes (info g) s.visited w processing next_reached.1 fresh refl,
        inv.summed,
      );
      small = inv.small;
      sound = λ u h. elim (ℕ_discrete u w) [
        | yes d ↦ subst (λ x. Reach g idx x × (x < g.num_nodes)) (sym d) next_reached
        | no d ↦ inv.sound u (sym (ap is_not_visited (update_other s.visited w processing u d)) ∙ h)
      ];
      scans = λ u x more. inv.scans u x (fewer u x more);
      closed = λ u x d m. elim (ℕ_discrete u w) [
        | yes q ↦ let clash = sym (update_at s.visited w processing u q) ∙ d in absurd (apart clash)
        | no q ↦ elim (inv.closed u x (sym (update_other s.visited w processing u q) ∙ d) m) [
          | inl h ↦ inl (after x h)
          | inr more ↦ elim (ℕ_discrete x w) [
            | yes p ↦ inl (ap is_not_visited (update_at s.visited w processing x p))
            | no p ↦ inr (other_left u x p more)
          ]
        ]
      ];
      live = inr (still_alive ts i (scanning v (w ∷ ws)) (scanning v ws) e refl);
      begun = after idx inv.begun;
    }
      where
        apart : ¬ (processing ≡ done)
        apart q = cc
