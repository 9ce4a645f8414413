-- ===== src/EventLoop/Ids.antt =====
-- `registerTimer` (rct/EventLoop.cpp) finds an id that no timer has.
use rct.Prelude.{
  ℕ, zero, suc, ◌+◌, ◌%◌, ◌<◌, ◌≤◌, ◌≡◌, ◌≢◌, refl, ◌∙◌, true, false, List, [], ◌∷◌, none, some,
  Bool-cases, Option-cases, some-eq, inl, inr, arith,
}
use rct.EventLoop.{id_mod, contains, erase, fresh_id, count_ids}

-- The id that the loop tries in its round `i`.
abbrev tried : ℕ → ℕ → ℕ
tried next i = (next + i + 1) % id_mod

contains-erase : (j k : ℕ) (ids : List ℕ) → k ≢ j → contains k (erase j ids) ≡ contains k ids
unfolding contains erase
contains-erase j k [] h = refl
contains-erase j k (x ∷ ids) h = ground (arith, contains-erase j k ids h)

count_ids-erase :
    (j : ℕ) (ids : List ℕ) → contains j ids ≡ true → count_ids (erase j ids) + 1 ≡ count_ids ids
unfolding contains erase count_ids
count_ids-erase j [] h = ground arith
count_ids-erase j (x ∷ ids) h = ground (arith, count_ids-erase j ids)

-- An id that the loop does not try may be taken away.
fresh_id-erase :
    (fuel next j : ℕ) (ids : List ℕ)
    → ((i : ℕ) → i < fuel → tried next i ≢ j)
    → fresh_id fuel next (erase j ids) ≡ fresh_id fuel next ids
unfolding fresh_id
fresh_id-erase zero next j ids h = refl
fresh_id-erase (suc fuel) next j ids h =
    let here : (next + 1) % id_mod ≢ j = λ e. h 0 (omega arith) (omega (arith, e)) in
    let later =
      fresh_id-erase fuel ((next + 1) % id_mod) j ids
        (λ i q e. h (suc i) (omega (arith, q)) (omega (arith, e))) in
    rw (contains-erase j ((next + 1) % id_mod) ids here, later) refl

-- The loop fails only if it has met as many ids as it has tried.
fresh_id-none :
    (fuel next : ℕ) (ids : List ℕ)
    → fuel < id_mod
    → fresh_id fuel next ids ≡ none
    → fuel ≤ count_ids ids
unfolding fresh_id
fresh_id-none zero next ids h e = omega arith
fresh_id-none (suc fuel) next ids h e = elim (Bool-cases (contains ((next + 1) % id_mod) ids)) [
  | inl t ↦
      let id : ℕ = (next + 1) % id_mod in
      let rest : fresh_id fuel id ids ≡ none = rw t at e in
      let fewer =
        fresh_id-none fuel id (erase id ids) (omega (arith, h))
          (fresh_id-erase fuel id id ids (λ i q e. omega (arith, q, e, h)) ∙ rest) in
      omega (arith, fewer, count_ids-erase id ids t)
  | inr t ↦ cc (rw t at e)
]

fresh_id-new :
    (fuel next : ℕ) (ids : List ℕ) {id : ℕ}
    → fresh_id fuel next ids ≡ some id
    → (contains id ids ≡ false) × (id < id_mod)
unfolding fresh_id
fresh_id-new zero next ids e = cc
fresh_id-new (suc fuel) next ids {id} e = elim (Bool-cases (contains ((next + 1) % id_mod) ids)) [
  | inl t ↦ fresh_id-new fuel ((next + 1) % id_mod) ids (rw t at e)
  | inr t ↦
      let same : (next + 1) % id_mod ≡ id = some-eq (rw t at e) in rw (← same) ((t, omega arith))
]

-- `registerTimer` finds an id that no timer has, as long as fewer than 2^32 - 1 are registered.
pub fresh_id-total :
    (next : ℕ) (ids : List ℕ)
    → count_ids ids + 1 < id_mod
    → (id : ℕ) × (fresh_id (count_ids ids + 1) next ids ≡ some id)
      × (contains id ids ≡ false)
      × (id < id_mod)
fresh_id-total next ids h = elim (Option-cases (fresh_id (count_ids ids + 1) next ids)) [
  | inl e ↦ absurd (omega (arith, fresh_id-none (count_ids ids + 1) next ids h e))
  | inr (id, e) ↦ let new = fresh_id-new (count_ids ids + 1) next ids e in (id, e, new.0, new.1)
]
