-- ===== src/EmbeddedLinkedList.antt =====
-- rct/EmbeddedLinkedList.h: a list whose links stand in its nodes.
pub mod Linked
pub mod Places
pub mod Insert
pub mod Gone
pub mod Remove
pub mod Walk
pub mod Spec
pub mod Refines
mod Tests
use rct.Prelude.{
  ℕ, zero, suc, ◌+◌, ◌-◌, Bool, true, false, not, ◌&&◌, List, [], ◌∷◌, Option, none, some, and_then,
  if◌then◌else◌, ltb, ◌==◌, put,
}

-- The links of all nodes, and the fields of one list. A node is a number, and 0 is the null pointer.
pub record Chain : Type 0 where
  pub next : ℕ → ℕ
  pub prev : ℕ → ℕ
  pub front : ℕ
  pub back : ℕ
  pub size : ℕ

unfoldable pub set_next : ℕ → ℕ → Chain → Chain
set_next p q s = record s { next = put p q s.next }

unfoldable pub set_prev : ℕ → ℕ → Chain → Chain
set_prev p q s = record s { prev = put p q s.prev }

unfoldable pub counted : Chain → Chain
counted s = record s { size = s.size + 1 }

-- `insert` with an `after`, up to the links of `after`; `none` is a failed assertion.
unfoldable pub link_next : ℕ → ℕ → Chain → Option Chain
link_next t after s =
    let n = s.next after in
    let s' = set_next t n s in
    if not (n == 0)
    then some (set_prev n t s')
    else if s.back == after
    then some (record s' { back = t })
    else none

unfoldable pub insert_after : ℕ → ℕ → Chain → Option Chain
insert_after t after s =
    and_then (link_next t after s) (λ s'. some (counted (set_prev t after (set_next after t s'))))

-- `insert` with no `after`.
unfoldable pub insert_front : ℕ → Chain → Chain
insert_front t s =
    if s.front == 0
    then counted (record (set_prev t 0 (set_next t 0 s)) { front = t; back = t })
    else counted (record (set_prev s.front t (set_prev t 0 (set_next t s.front s))) { front = t })

unfoldable pub insert : ℕ → ℕ → Chain → Option Chain
insert t after s =
    if t == 0
    then none
    else if not (after == 0)
    then insert_after t after s
    else some (insert_front t s)

-- `append` and `push_back`, `prepend` and `push_front`.
unfoldable pub append : ℕ → Chain → Option Chain
append t s = insert t s.back s

unfoldable pub prepend : ℕ → Chain → Option Chain
prepend t s = insert t 0 s

-- The branches of `remove`.
unfoldable pub unlink_front : ℕ → Chain → Option Chain
unlink_front t s =
    if t == s.back
    then if s.size == 1 then some (record s { front = 0; back = 0 }) else none
    else if ltb 1 s.size && not (s.next t == 0)
    then some (set_prev (s.next t) 0 (record s { front = s.next t }))
    else none

unfoldable pub unlink_back : ℕ → Chain → Option Chain
unlink_back t s =
    if ltb 1 s.size && not (s.prev t == 0)
    then some (set_next (s.prev t) 0 (record s { back = s.prev t }))
    else none

-- The second one of the two writes between the neighbours of `t`.
unfoldable pub join_around : ℕ → Chain → Chain
join_around t s = set_prev (s.next t) (s.prev t) s

unfoldable pub unlink_inner : ℕ → Chain → Option Chain
unlink_inner t s =
    if ltb 1 s.size && (not (s.prev t == 0) && not (s.next t == 0))
    then some (join_around t (set_next (s.prev t) (s.next t) s))
    else none

unfoldable pub unlink : ℕ → Chain → Option Chain
unlink t s =
    if t == s.front
    then unlink_front t s
    else if t == s.back
    then unlink_back t s
    else unlink_inner t s

unfoldable pub cleared : ℕ → Chain → Chain
cleared t s = record (set_prev t 0 (set_next t 0 s)) { size = s.size - 1 }

unfoldable pub remove : ℕ → Chain → Option Chain
remove t s = if t == 0 then none else and_then (unlink t s) (λ s'. some (cleared t s'))

-- `removeFront`, `removeFirst`, `takeFront` and `takeFirst`; likewise at the back.
unfoldable pub take_front : Chain → Option (ℕ × Chain)
take_front s =
    if s.front == 0
    then none
    else if s.size == 0
    then none
    else and_then (remove s.front s) (λ s'. some (s.front, s'))

unfoldable pub take_back : Chain → Option (ℕ × Chain)
take_back s = if s.back == 0 then none else and_then (remove s.back s) (λ s'. some (s.back, s'))

-- `moveToEnd` and `moveToFront`; `none` is also the access through a null pointer.
unfoldable pub move_to_end : ℕ → Chain → Option Chain
move_to_end t s =
    if s.size == 0
    then none
    else if t == 0
    then none
    else if s.next t == 0
    then some s
    else and_then (remove t s) (append t)

unfoldable pub move_to_front : ℕ → Chain → Option Chain
move_to_front t s =
    if s.size == 0
    then none
    else if t == 0
    then none
    else if s.prev t == 0
    then some s
    else and_then (remove t s) (prepend t)

-- The loop of `contains` from a node; `none` is the end of the fuel.
unfoldable pub contains_from : ℕ → ℕ → ℕ → Chain → Option Bool
contains_from zero t p s = none
contains_from (suc fuel) t p s =
    let rest = contains_from fuel t (s.next p) s in
    if p == 0 then some false else if t == p then some true else rest

unfoldable pub contains : ℕ → Chain → Option Bool
contains t s = contains_from (s.size + 1) t s.front s

-- The nodes that an iterator meets from a node to the null pointer, by `++` or by `--`.
unfoldable pub iterate : ℕ → (ℕ → ℕ) → ℕ → Option (List ℕ)
iterate zero step p = none
iterate (suc fuel) step p =
    let rest = iterate fuel step (step p) in
    if p == 0 then some [] else and_then rest (λ ps. some (p ∷ ps))

-- The loop of `deleteAll`, with the nodes given to `deleteNode` in order.
unfoldable pub delete_from : ℕ → ℕ → Chain → Option (List ℕ × Chain)
delete_from zero t s = none
delete_from (suc fuel) t s =
    let rest = delete_from fuel (s.next t) (set_prev t 0 (set_next t 0 s)) in
    if t == 0 then some ([], s) else and_then rest (λ r. some (t ∷ r.0, r.1))

unfoldable pub delete_all : Chain → Option (List ℕ × Chain)
delete_all s =
    and_then (delete_from (s.size + 1) s.front s)
      (λ r. some (r.0, record r.1 { front = 0; back = 0; size = 0 }))
