-- ===== src/Graph/Count.antt =====
-- Nodes not yet visited, and the sum of those that are.
use operating_system_challen.Base.{
  ℕ, zero, suc, ◌+◌, ◌≤◌, ◌<◌, ◌≡◌, refl, true, false, ◌==◌, arith, if◌then◌else◌, sym, ap, ◌∙◌,
}
use native.Mathlib.Decide.{ℕ_discrete}
use operating_system_challen.Graph.Update.{update_at, update_other}
use operating_system_challen.Graph.Code.{Visited, done, is_not_visited, update}

-- How many of the first `n` nodes are not visited.
abbrev pub unseen : ℕ → (ℕ → Visited) → ℕ
unseen zero visited = 0
unseen (suc n) visited = unseen n visited + (if is_not_visited (visited n) then 1 else 0)

-- The sum of `info` over those of the first `n` nodes that are visited.
abbrev pub total : ℕ → (info : ℕ → ℕ) → (ℕ → Visited) → ℕ
total zero info visited = 0
total (suc n) info visited =
    total n info visited + (if is_not_visited (visited n) then 0 else info n)

pub unseen_mono :
    (n : ℕ) (a b : ℕ → Visited)
    → ((u : ℕ) → is_not_visited (a u) ≡ false → is_not_visited (b u) ≡ false)
    → unseen n b ≤ unseen n a
unseen_mono zero a b h = omega arith
unseen_mono (suc n) a b h = ground (arith, unseen_mono n a b h, h n)

pub unseen_bound : (n : ℕ) (a : ℕ → Visited) → unseen n a ≤ n
unseen_bound zero a = omega arith
unseen_bound (suc n) a = ground (arith, unseen_bound n a)

update_above :
    (n : ℕ) (info : ℕ → ℕ) (a : ℕ → Visited) (v : ℕ)
    → n ≤ v
    → (unseen n (update a v done) ≡ unseen n a) × (total n info (update a v done) ≡ total n info a)
unfolding update
update_above zero info a v h = (refl, refl)
update_above (suc n) info a v h =
    let (p, q) = update_above n info a v (omega arith) in
    let other : (n == v) ≡ false = ground arith in (ground arith, ground arith)

-- Marking a node that is not visited.
pub update_done :
    (n : ℕ) (info : ℕ → ℕ) (a : ℕ → Visited) (v : ℕ)
    → v < n
    → is_not_visited (a v) ≡ true
    → (suc (unseen n (update a v done)) ≡ unseen n a)
      × (total n info (update a v done) ≡ total n info a + info v)
unfolding update
update_done zero info a v h e = absurd (omega arith)
update_done (suc n) info a v h e = ground (arith, update_done n info a v, update_above n info a v)

pub total_fresh :
    (n : ℕ) (info : ℕ → ℕ) (a : ℕ → Visited)
    → ((u : ℕ) → is_not_visited (a u) ≡ true)
    → total n info a ≡ 0
total_fresh zero info a h = refl
total_fresh (suc n) info a h = ground (arith, total_fresh n info a h, h n)

-- The sum depends only on which nodes are visited.
pub total_seen :
    (n : ℕ) (info : ℕ → ℕ) (a b : ℕ → Visited)
    → ((u : ℕ) → is_not_visited (a u) ≡ is_not_visited (b u))
    → total n info a ≡ total n info b
total_seen zero info a b h = refl
total_seen (suc n) info a b h = ground (arith, total_seen n info a b h, h n)

-- A write to a node that was not visited.
pub total-update :
    (n : ℕ) (info : ℕ → ℕ) (a : ℕ → Visited) (v : ℕ) (x : Visited)
    → v < n
    → is_not_visited (a v) ≡ true
    → is_not_visited x ≡ false
    → total n info (update a v x) ≡ total n info a + info v
total-update n info a v x inside fresh seen =
    total_seen n info (update a v x) (update a v done) same
    ∙ (update_done n info a v inside fresh).1
  where
    same : (u : ℕ) → is_not_visited (update a v x u) ≡ is_not_visited (update a v done u)
    same u = elim (ℕ_discrete u v) [
      | yes e ↦
          ap is_not_visited (update_at a v x u e)
          ∙ seen
          ∙ sym (ap is_not_visited (update_at a v done u e))
      | no d ↦
          ap is_not_visited (update_other a v x u d)
          ∙ sym (ap is_not_visited (update_other a v done u d))
    ]
