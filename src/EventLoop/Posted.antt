-- ===== src/EventLoop/Posted.antt =====
-- The events that are posted to an event loop (rct/EventLoop.cpp).
use rct.Prelude.{
  empty_eq, not, ◌==◌, if◌then◌else◌, Bool-cases, eq_of, length, inl, inr, ℕ, zero, suc, ◌+◌, ◌<◌,
  ◌≡◌, ◌∙◌, refl, ap, Bool, true, false, List, [], ◌∷◌, ◌++◌, append_assoc, Option, none, some,
  and_then, arith,
}

-- The queue of events `mEvents`, the flag `mStop`, and the rest of the program.
pub record Loop (E W : Type 0) : Type 0 where
  pub events : List E
  pub stop : Bool
  pub world : W

module _ {E W : Type 0} where
  unfoldable pub post : E → Loop E W → Loop E W
  post e s = record s { events = s.events ++ e ∷ [] }

  unfoldable pub quit : Loop E W → Loop E W
  quit s = record s { stop = true }

  -- The loop of `sendPostedEvents`, with `exec` for what an event does, which may post others: the
  -- events that were executed, the first one first, and the loop. `none` is the end of the fuel.
  unfoldable pub send_events : ℕ → (E → Loop E W → Loop E W) → Loop E W → Option (List E × Loop E W)
  send_events zero exec s = none
  send_events (suc fuel) exec s = elim s.events [
    | [] ↦ some ([], s)
    | e ∷ es ↦
        and_then (send_events fuel exec (exec e (record s { events = es })))
          (λ r. some (e ∷ r.0, r.1))
  ]

  -- `sendPostedEvents` returns whether there was an event.
  unfoldable pub send_posted_events :
      ℕ → (E → Loop E W → Loop E W) → Loop E W → Option (Bool × List E × Loop E W)
  send_posted_events fuel exec s =
      if length s.events == 0
      then some (false, [], s)
      else and_then (send_events fuel exec s) (λ r. some (true, r.0, r.1))

-- What the events of a list post, one event after the other.
unfoldable pub all_posted : {E : Type 0} → (E → List E) → List E → List E
all_posted posts [] = []
all_posted posts (e ∷ es) = posts e ++ all_posted posts es

unfoldable pub total : {E : Type 0} → (E → ℕ) → List E → ℕ
total weight [] = 0
total weight (e ∷ es) = weight e + total weight es

total-append :
    {E : Type 0} (weight : E → ℕ) (xs ys : List E)
    → total weight (xs ++ ys) ≡ total weight xs + total weight ys
unfolding total
total-append weight [] ys = omega arith
total-append weight (x ∷ xs) ys = omega (arith, total-append weight xs ys)

-- What each event posts; a weight says that events do not post others for ever.
pub record Posts {E W : Type 0} (exec : E → Loop E W → Loop E W) : Type 0 where
  pub posts : E → List E
  pub weight : E → ℕ
  pub posted : (e : E) (s : Loop E W) → (exec e s).events ≡ s.events ++ posts e
  pub lighter : (e : E) → total weight (posts e) < weight e

-- The events that ran, from a queue, are those of the queue and then those that they posted.
pub record Ran {E W : Type 0} (posts : E → List E) (queue ran : List E) (s : Loop E W)
    : Type 0 where
  pub order : ran ≡ queue ++ all_posted posts ran
  pub nothing_left : s.events ≡ []

module _ {E W : Type 0} (exec : E → Loop E W → Loop E W) (p : Posts exec) where
  send_events-Ran :
      (fuel : ℕ) (queue : List E) (s : Loop E W)
      → s.events ≡ queue
      → total p.weight queue < fuel
      → (ran : List E) × (s' : Loop E W) × (send_events fuel exec s ≡ some (ran, s'))
        × Ran p.posts queue ran s'
  unfolding send_events total all_posted
  send_events-Ran zero queue s q h = absurd (omega arith)
  send_events-Ran (suc fuel) [] s q h =
      ([], s, rw (q) refl, record { order = refl; nothing_left = q })
  send_events-Ran (suc fuel) (e ∷ es) s q h =
      let s1 = exec e (record s { events = es }) in
      let (ran, s2, done, r) =
        send_events-Ran fuel (es ++ p.posts e) s1 (p.posted e (record s { events = es }))
          (omega (arith, total-append p.weight es (p.posts e), p.lighter e)) in
      (
        e ∷ ran,
        s2,
        rw (q, done, send_events) refl,
        record {
          order = ap (λ x. e ∷ x) (r.order ∙ append_assoc es (p.posts e) (all_posted p.posts ran));
          nothing_left = r.nothing_left;
        },
      )

  -- sendPostedEvents runs the events of the queue in the order in which they were posted, then
  -- those that they posted, in the order in which these ran, and so on, until the queue is empty,
  -- within as many steps as the events' weights make; it returns whether there was an event. An
  -- event posts what it posts at the end of the queue, and what it posts is lighter than it.
  pub send_posted_events-Ran :
      (fuel : ℕ) (s : Loop E W)
      → total p.weight s.events < fuel
      → (ran : List E) × (s' : Loop E W) × (send_posted_events fuel exec s
          ≡ some (not (length s.events == 0), ran, s'))
        × Ran p.posts s.events ran s'
  unfolding send_posted_events all_posted
  send_posted_events-Ran fuel s h =
      let (ran, s', done, r) = send_events-Ran fuel s.events s refl h in
      elim (Bool-cases (length s.events == 0)) [
        | inl t ↦
            let nothing = empty_eq s.events (eq_of (length s.events) 0 t) in
            ([], s, rw (t) refl, record { order = rw (nothing) refl; nothing_left = nothing })
        | inr t ↦ (ran, s', rw (t, done) refl, r)
      ]
