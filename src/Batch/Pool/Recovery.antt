-- ===== src/Batch/Pool/Recovery.antt =====
-- Distributors that are out of the rotation after a failed send.
use pour.Prelude.{
  ℕ, zero, suc, ◌≤◌, ◌≡◌, ◌≢◌, refl, ap, ◌∙◌, false, List, [], ◌∷◌, Option, none, some, arith,
  length-drop, get_elem?, ◌==◌, Bool-cases, Option-cases, inl, inr,
}
use pour.Batch.Window.{
  Request, Window, depth, do_flush, Event, ctx_done, ticked, signalled, on_event,
}
use pour.Batch.Window.Fields.{do_flush-queue}
use pour.Batch.Pool.{
  recovering, Distributor, Pool, RouteError, no_healthy_distributor, all_full, set_window,
  set_status, mark_recovering, route, PoolOp, routes, recovers, fires, fire, step, run,
}
use pour.Batch.Pool.Routing.{Routed, route-Routed}

-- The pool has at position `i` a distributor that is recovering, with at most `n` requests queued.
abbrev pub IsOut : ℕ → ℕ → Pool → Type 0
IsOut i n p =
    (d : Distributor) × (get_elem? p i ≡ some d) × (d.status ≡ recovering) × (depth d.window ≤ n)

get_elem?-set_window_ne :
    (i j : ℕ) (w : Window) (p : Pool) → i ≢ j → get_elem? (set_window j w p) i ≡ get_elem? p i
unfolding set_window
get_elem?-set_window_ne i j w [] ne = refl
get_elem?-set_window_ne zero zero w (d ∷ p) ne = absurd (ne refl)
get_elem?-set_window_ne zero (suc j) w (d ∷ p) ne = refl
get_elem?-set_window_ne (suc i) zero w (d ∷ p) ne = refl
get_elem?-set_window_ne (suc i) (suc j) w (d ∷ p) ne =
    get_elem?-set_window_ne i j w p (λ e. ne (ap suc e))

get_elem?-set_window_self :
    (i : ℕ) (w : Window) (p : Pool) (d : Distributor)
    → get_elem? p i ≡ some d
    → get_elem? (set_window i w p) i ≡ some (record d { window = w })
unfolding set_window
get_elem?-set_window_self i w [] d g = cc
get_elem?-set_window_self zero w (e ∷ p) d g = ground arith
get_elem?-set_window_self (suc i) w (e ∷ p) d g = get_elem?-set_window_self i w p d g

set_status-IsOut : (k i n : ℕ) (p : Pool) → IsOut i n p → IsOut i n (set_status recovering k p)
unfolding set_status
set_status-IsOut k i n [] h = h
set_status-IsOut k zero n (e ∷ p) (d, g, st, le) = elim (Bool-cases (e.key_index == k)) [
  | inl hit ↦ rw hit (record e { status = recovering }, refl, refl, ground arith)
  | inr miss ↦ rw miss (d, g, st, le)
]
set_status-IsOut k (suc i) n (e ∷ p) h = elim (Bool-cases (e.key_index == k)) [
  | inl hit ↦ rw hit h
  | inr miss ↦ rw miss (set_status-IsOut k i n p h)
]

route-IsOut :
    (r : Request) (i n : ℕ) (p : Pool) (q : Pool × Option RouteError)
    → Routed r p q
    → IsOut i n p
    → IsOut i n q.0
route-IsOut r i n p (p', none) (j, e, ge, se, _, _, same) (d, g, st, le) =
    rw same (d, get_elem?-set_window_ne i j _ p (λ (x : i ≡ j). ground arith) ∙ g, st, le)
route-IsOut r i n p (p', some no_healthy_distributor) (same, _) h = rw same h
route-IsOut r i n p (p', some all_full) (same, _) h = rw same h

do_flush-depth-le : (w : Window) → depth (do_flush w) ≤ depth w
unfolding depth
do_flush-depth-le w = rw (do_flush-queue w) (omega (arith, length-drop w.max_recipients w.queue))

on_event-depth-le : (e : Event) (w : Window) → depth (on_event e w) ≤ depth w
unfolding on_event depth
on_event-depth-le ctx_done w = do_flush-depth-le w
on_event-depth-le ticked w = do_flush-depth-le w
on_event-depth-le signalled w = ground (arith, do_flush-depth-le (record w { flush_now = false }))

fire-IsOut : (j i n : ℕ) (e : Event) (p : Pool) → IsOut i n p → IsOut i n (fire j e p)
unfolding fire
fire-IsOut j i n e p (d, g, st, le) = elim (Option-cases (get_elem? p j)) [
  | inl missing ↦ rw (missing, fire) (d, g, st, le)
  | inr (x, found) ↦ elim (Bool-cases (i == j)) [
    | inl same ↦
        rw (found, fire)
          (
            record d { window = on_event e x.window },
            (let eq : i ≡ j = ground arith in
                rw (← eq) (get_elem?-set_window_self i (on_event e x.window) p d g)),
            st,
            (let eqx : d ≡ x = ground arith in
                omega (
                  arith,
                  on_event-depth-le e x.window,
                  ap (λ (y : Distributor). depth y.window) eqx,
                )),
          )
    | inr apart ↦
        rw (found, fire)
          (d, get_elem?-set_window_ne i j _ p (λ (x : i ≡ j). ground arith) ∙ g, st, le)
  ]
]

-- Whatever requests are routed, sends fail and timers fire afterwards, in any order: a distributor
-- that is recovering stays so, and its queue never gets longer than it was.
pub recovering_forever :
    (os : List PoolOp) (i n : ℕ) (p : Pool) → IsOut i n p → IsOut i n (run os p)
unfolding run step mark_recovering
recovering_forever [] i n p h = h
recovering_forever (routes r ∷ os) i n p h =
    recovering_forever os i n (route r p).0 (route-IsOut r i n p (route r p) (route-Routed r p) h)
recovering_forever (recovers k ∷ os) i n p h =
    recovering_forever os i n (mark_recovering k p) (set_status-IsOut k i n p h)
recovering_forever (fires j e ∷ os) i n p h =
    recovering_forever os i n (fire j e p) (fire-IsOut j i n e p h)
