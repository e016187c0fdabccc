-- ===== src/Batch/Pool/Routing.antt =====
-- Which distributor `Route` picks, and what its errors mean.
use pour.Prelude.{
  ℕ, suc, ◌+◌, ◌≤◌, ◌≡◌, ◌⊎◌, refl, true, false, [], ◌∷◌, Option, none, some, arith, All, get_elem?,
  Bool-cases, inl, inr,
}
use pour.Batch.Window.{Request, depth, enqueue}
use pour.Batch.Window.Fields.{enqueue-ok}
use pour.Batch.Pool.{
  Status, healthy, recovering, Distributor, Pool, RouteError, no_healthy_distributor, all_full,
  is_healthy, better, best_from, set_window, route,
}

-- The distributor is recovering or has at least the depth `n`.
abbrev pub NoShorter : ℕ → Distributor → Type 0
NoShorter n d = (d.status ≡ recovering) ⊎ (n ≤ depth d.window)

NoShorter-le : (m n : ℕ) (d : Distributor) → m ≤ n → NoShorter n d → NoShorter m d
NoShorter-le m n d le (inl out) = inl out
NoShorter-le m n d le (inr deep) = inr (omega arith)

abbrev pub IsRecovering : Distributor → Type 0
IsRecovering d = d.status ≡ recovering

-- `d` is a healthy distributor of `ds`, at position `j` when `ds` begins at position `i`.
abbrev Picked : ℕ → Pool → ℕ → Distributor → Type 0
Picked i ds j d = (k : ℕ) × (j ≡ i + k) × (get_elem? ds k ≡ some d) × (d.status ≡ healthy)

-- What the loop has found at its end when it began with no `best`, and when it began with one.
abbrev FromNone : ℕ → Pool → Option (ℕ × Distributor) → Type 0
FromNone i ds none = All IsRecovering ds
FromNone i ds (some (j, d)) = Picked i ds j d × All (NoShorter (depth d.window)) ds

abbrev FromSome : ℕ → ℕ × Distributor → Pool → Option (ℕ × Distributor) → Type 0
FromSome i b ds none = ⊥
FromSome i b ds (some (j, d)) =
    ((b ≡ (j, d)) ⊎ Picked i ds j d)
    × All (NoShorter (depth d.window)) ds
    × (depth d.window ≤ depth b.1.window)

FromSome-keep :
    (i : ℕ) (b : ℕ × Distributor) (d : Distributor) (ds : Pool) (o : Option (ℕ × Distributor))
    → NoShorter (depth b.1.window) d
    → FromSome (i + 1) b ds o
    → FromSome i b (d ∷ ds) o
FromSome-keep i b d ds none n h = elim h [ ]
FromSome-keep i b d ds (some (j, e)) n (inl same, all, le) =
    (inl same, (NoShorter-le _ _ d (omega arith) n, all), le)
FromSome-keep i b d ds (some (j, e)) n (inr (k, q, g, st), all, le) =
    (inr (suc k, omega arith, g, st), (NoShorter-le _ _ d le n, all), le)

FromSome-take :
    (i : ℕ) (d : Distributor) (ds : Pool) (o : Option (ℕ × Distributor))
    → d.status ≡ healthy
    → FromSome (i + 1) (i, d) ds o
    → FromNone i (d ∷ ds) o
FromSome-take i d ds none st h = elim h [ ]
FromSome-take i d ds (some (j, e)) st (inl same, all, le) =
    ((0, ground arith, ground arith, ground arith), (inr le, all))
FromSome-take i d ds (some (j, e)) _ (inr (k, q, g, st), all, le) =
    ((suc k, omega arith, g, st), (inr le, all))

FromSome-replace :
    (i : ℕ) (b : ℕ × Distributor) (d : Distributor) (ds : Pool) (o : Option (ℕ × Distributor))
    → d.status ≡ healthy
    → depth d.window ≤ depth b.1.window
    → FromSome (i + 1) (i, d) ds o
    → FromSome i b (d ∷ ds) o
FromSome-replace i b d ds none st le h = elim h [ ]
FromSome-replace i b d ds (some (j, e)) st le h =
    let taken = FromSome-take i d ds (some (j, e)) st h in
    (inr taken.0, taken.1, omega (arith, h.2))

better-some :
    (d b : Distributor)
    → better d (some b) ≡ true
    → (d.status ≡ healthy) × (depth d.window ≤ depth b.window)
unfolding better
better-some d b h = ground arith

not_better-some : (d b : Distributor) → better d (some b) ≡ false → NoShorter (depth b.window) d
unfolding better
not_better-some d b h = not_better (d.status) refl
  where
    not_better : (s : Status) → d.status ≡ s → NoShorter (depth b.window) d
    not_better healthy e = inr (ground arith)
    not_better recovering e = inl e

best_from-FromSome :
    (i : ℕ) (b : ℕ × Distributor) (ds : Pool) → FromSome i b ds (best_from i (some b) ds)
unfolding best_from
best_from-FromSome i b [] = (inl refl, tt, omega arith)
best_from-FromSome i b (d ∷ ds) = elim (Bool-cases (better d (some b.1))) [
  | inl wins ↦
      let (st, le) = better-some d b.1 wins in
      rw wins (FromSome-replace i b d ds _ st le (best_from-FromSome (i + 1) (i, d) ds))
  | inr loses ↦
      rw loses
        (FromSome-keep i b d ds _ (not_better-some d b.1 loses) (best_from-FromSome (i + 1) b ds))
]

better-none : (d : Distributor) → better d none ≡ is_healthy d.status
unfolding better
better-none d = refl

FromNone-skip :
    (i : ℕ) (d : Distributor) (ds : Pool) (o : Option (ℕ × Distributor))
    → d.status ≡ recovering
    → FromNone (i + 1) ds o
    → FromNone i (d ∷ ds) o
FromNone-skip i d ds none st h = (st, h)
FromNone-skip i d ds (some (j, e)) st ((k, q, g, s), all) =
    ((suc k, omega arith, g, s), (inl st, all))

best_from-FromNone : (i : ℕ) (ds : Pool) → FromNone i ds (best_from i none ds)
unfolding best_from
best_from-FromNone i [] = tt
best_from-FromNone i (d ∷ ds) = elim (Bool-cases (better d none)) [
  | inl wins ↦ rw wins (
      FromSome-take i d ds _ (ground (arith, better-none d)) (best_from-FromSome (i + 1) (i, d) ds))
  | inr loses ↦
      rw loses
        (FromNone-skip i d ds _ (ground (arith, better-none d)) (best_from-FromNone (i + 1) ds))
]

-- What a call of `Route` may have done.
abbrev pub Routed : Request → Pool → Pool × Option RouteError → Type 0
Routed r p (p', none) =
    (i : ℕ) × (d : Distributor) × (get_elem? p i ≡ some d)
    × (d.status ≡ healthy)
    × All (NoShorter (depth d.window)) p
    × ((enqueue r d.window).1 ≡ true)
    × (p' ≡ set_window i (enqueue r d.window).0 p)
Routed r p (p', some no_healthy_distributor) = (p' ≡ p) × All IsRecovering p
Routed r p (p', some all_full) =
    (p' ≡ p)
    × ((d : Distributor) × (d.status ≡ healthy)
        × All (NoShorter (depth d.window)) p
        × (d.window.max_queue_depth ≤ depth d.window))

-- `Route` puts the request on the window of one healthy distributor whose queue is no longer than
-- that of any healthy one, and changes nothing else; or it reports that no distributor is healthy, and
-- all are recovering; or that all are full, and a healthy distributor of least depth is at its
-- capacity. On both errors the pool is unchanged.
pub route-Routed : (r : Request) (p : Pool) → Routed r p (route r p)
unfolding route depth
route-Routed r p = go (best_from 0 none p) refl (best_from-FromNone 0 p)
  where
    go :
        (o : Option (ℕ × Distributor))
        → best_from 0 none p ≡ o
        → FromNone 0 p o
        → Routed r p (route r p)
    go none e all = rw (e, route) (refl, all)
    go (some (j, d)) e ((k, q, g, st), all) = elim (Bool-cases (enqueue r d.window).1) [
      | inl done ↦ rw (e, route) (rw done (j, d, ground arith, st, all, done, refl))
      | inr full ↦
          rw (e, route) (rw full (refl, (d, st, all, ground (arith, enqueue-ok r d.window))))
    ]
